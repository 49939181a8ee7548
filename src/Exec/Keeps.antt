-- ===== src/Exec/Keeps.antt =====
-- Invariants of service calls, one rule for each way to build a call.
use safeops.Prelude.{ℕ, suc}
use safeops.Model.Db.{Db}
use safeops.Exec.{
  Exec, Error, Outcome, returned, raised, throw, pure, gets, fresh, now, continue, ◌>>=◌,
}

-- `m` keeps `P`, whether it returns or raises.
pub record Keeps {W A : Type 0} (P : Db W → Type 0) (m : Exec W A) : Type 0 where
  pub at : (db : Db W) → P db → P (m db).1

-- `P` says nothing of the supply of UUIDs.
pub record IgnoresIds {W : Type 0} (P : Db W → Type 0) : Type 0 where
  pub fresh_id : (db : Db W) (n : ℕ) → P db → P (record db { next_id = n })

module _ {W : Type 0} {P : Db W → Type 0} where
  pub Keeps-pure : {A : Type 0} (a : A) → Keeps P (pure a)
  unfolding pure
  Keeps-pure a = record { at = λ db h. h }

  pub Keeps-gets : {A : Type 0} (f : Db W → A) → Keeps P (gets f)
  unfolding gets
  Keeps-gets f = record { at = λ db h. h }

  pub Keeps-throw : {A : Type 0} (e : Error) → Keeps P (throw {A = A} e)
  unfolding throw
  Keeps-throw e = record { at = λ db h. h }

  pub Keeps-now : Keeps P now
  unfolding now
  Keeps-now = record { at = λ db h. h }

  pub Keeps-fresh : IgnoresIds P → Keeps P fresh
  unfolding fresh
  Keeps-fresh i = record { at = λ db h. i.fresh_id db (suc db.next_id) h }

  Keeps-continue :
      {A B : Type 0} (r : Outcome A) (f : A → Exec W B)
      → ((a : A) → Keeps P (f a))
      → Keeps P (continue r f)
  Keeps-continue (returned a) f kf = record { at = λ db h. (kf a).at db h }
  Keeps-continue (raised e) f kf = record { at = λ db h. h }

  pub Keeps-bind :
      {A B : Type 0} (m : Exec W A) (f : A → Exec W B)
      → Keeps P m
      → ((a : A) → Keeps P (f a))
      → Keeps P (m >>= f)
  unfolding ◌>>=◌
  Keeps-bind m f km kf = record {
    at = λ db h. let (r, db') = m db in (Keeps-continue r f kf).at db' (km.at db h);
  }

pub ruleset keeps_rules = (Keeps-pure, Keeps-throw, Keeps-gets, Keeps-now, Keeps-fresh, Keeps-bind)
