-- ===== src/Exec/Agree.antt =====
-- Service calls that do the same wherever a condition on the database holds.
use safeops.Prelude.{◌≡◌, refl}
use safeops.Model.Db.{Db}
use safeops.Exec.{Exec, Outcome, returned, raised, gets, continue, ◌>>=◌}
use safeops.Exec.Keeps.{Keeps}

pub record Agrees {W A : Type 0} (P : Db W → Type 0) (m n : Exec W A) : Type 0 where
  pub at : (db : Db W) → P db → m db ≡ n db

module _ {W : Type 0} {P : Db W → Type 0} where
  pub Agrees-refl : {A : Type 0} (m : Exec W A) → Agrees P m m
  Agrees-refl m = record { at = λ db p. refl }

  Agrees-continue :
      {A B : Type 0} (r : Outcome A) (f g : A → Exec W B)
      → ((a : A) → Agrees P (f a) (g a))
      → Agrees P (continue r f) (continue r g)
  Agrees-continue (returned a) f g k = record { at = λ db p. (k a).at db p }
  Agrees-continue (raised e) f g k = record { at = λ db p. refl }

  pub Agrees-bind :
      {A B : Type 0} (m : Exec W A) (f g : A → Exec W B)
      → Keeps P m
      → ((a : A) → Agrees P (f a) (g a))
      → Agrees P (m >>= f) (m >>= g)
  unfolding ◌>>=◌
  Agrees-bind m f g km k = record {
    at = λ db p. (Agrees-continue (m db).0 f g k).at (m db).1 (km.at db p);
  }

  pub Agrees-read :
      {A B : Type 0} (r : Db W → A) (f g : A → Exec W B)
      → ((db : Db W) → P db → f (r db) db ≡ g (r db) db)
      → Agrees P (gets r >>= f) (gets r >>= g)
  unfolding ◌>>=◌
  Agrees-read r f g k = record { at = k }
