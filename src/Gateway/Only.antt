-- ===== src/Gateway/Only.antt =====
-- Calls that can only have an effect where they are authorized: either the protected tables are as
-- they were and the result is not EXECUTED, or there is evidence of the authorization.
use safeops.Prelude.{◌≢◌, ◌⊎◌, inl, inr}
use safeops.Model.Db.{Db}
use safeops.Exec.{Exec, Outcome, returned, raised, pure, gets, continue, ◌>>=◌}
use safeops.Exec.Keeps.{Keeps}
use safeops.Gateway.Tooling.{GatewayResult, executed}

abbrev pub NotExecuted : Outcome GatewayResult → Type 0
NotExecuted (returned r) = r.status ≢ executed
NotExecuted (raised e) = Unit

pub record Only {W : Type 0} (P : Db W → Type 0) (A : Type 0) (m : Exec W GatewayResult)
    : Type 0 where
  pub at : (db : Db W) → P db → (P (m db).1 × NotExecuted (m db).0) ⊎ A

module _ {W : Type 0} {P : Db W → Type 0} {A : Type 0} where
  pub Only-pure : (r : GatewayResult) → r.status ≢ executed → Only P A (pure r)
  unfolding ◌>>=◌
  Only-pure r n = record { at = λ db p. inl (p, n) }

  -- Where there is evidence, nothing is left to show.
  pub Only-of : (m : Exec W GatewayResult) → A → Only P A m
  Only-of m a = record { at = λ db p. inr a }

  Only-continue :
      {B : Type 0} (r : Outcome B) (f : B → Exec W GatewayResult)
      → ((b : B) → Only P A (f b))
      → Only P A (continue r f)
  Only-continue (returned b) f k = record { at = λ db p. (k b).at db p }
  Only-continue (raised e) f k = record { at = λ db p. inl (p, tt) }

  pub Only-bind :
      {B : Type 0} (m : Exec W B) (f : B → Exec W GatewayResult)
      → Keeps P m
      → ((b : B) → Only P A (f b))
      → Only P A (m >>= f)
  unfolding ◌>>=◌
  Only-bind m f km kf = record {
    at = λ db p. let (r, db') = m db in (Only-continue r f kf).at db' (km.at db p);
  }

  -- What is read is read from a database that satisfies `P`.
  pub Only-read :
      {B : Type 0} (f : Db W → B) (k : B → Exec W GatewayResult)
      → ((db : Db W) → P db → Only P A (k (f db)))
      → Only P A (gets f >>= k)
  unfolding ◌>>=◌
  Only-read f k h = record { at = λ db p. (h db p).at db p }

pub Only-weaken :
    {W : Type 0} {P : Db W → Type 0} {A B : Type 0} (m : Exec W GatewayResult)
    → (A → B)
    → Only P A m
    → Only P B m
Only-weaken m f o = record {
  at = λ db p. elim (o.at db p) [ inl same ↦ inl same | inr a ↦ inr (f a) ];
}
