-- ===== src/Runtime/Keeps.antt =====
-- Invariants of the runtime: what each of its operations keeps, given what the gateway keeps.
pub mod Steps
pub mod Entry
use safeops.Prelude.{
  ℕ, ◌≡◌, refl, sym, ap, ◌∙◌, inl, inr, Bool, Option, none, some, List, [], ◌∷◌, ◌==◌, ==_iff,
  Bool-cases, Option-cases,
}
use safeops.Model.Uuid.{Uuid}
use safeops.Model.Rows.{Execution, ExecutionStep}
use safeops.Model.Db.{Db, Row, interfere}
use safeops.Exec.{Exec, gets, ◌>>=◌}
use safeops.Exec.Keeps.{Keeps, Keeps-bind, keeps_rules}
use safeops.Audit.Invariant.{IsInvariant, invariant_rules}
use safeops.Runtime.Results.{RuntimeResult}
use safeops.Runtime.Lease.{
  find_execution, update_found, update_where, claim_stepping, release_stepping, finally_release,
  under_claim, locked, reloaded,
}

pub find_execution-id :
    (id : Uuid) (xs : List Execution) {x : Execution} → find_execution id xs ≡ some x → x.id ≡ id
find_execution-id id [] h = absurd (cc)
find_execution-id id (y ∷ ys) {x} h = elim (Bool-cases (y.id == id)) [
  | inl here ↦
      (let e : y ≡ x = cc (rw here at h) in
        ap (λ (z : Execution). z.id) (sym e) ∙ (==_iff y.id id).0 here)
  | inr there ↦ find_execution-id id ys (rw there at h)
]

pub reloaded-id : {W : Type 0} (x : Execution) (db : Db W) → (reloaded x db).id ≡ x.id
reloaded-id x db = elim (Option-cases (find_execution x.id db.executions)) [
  | inl gone ↦ rw gone refl
  | inr (y, found) ↦ rw found (find_execution-id x.id db.executions found)
]

module _ {W : Type 0} {P : Db W → Type 0} (i : IsInvariant P) where
  update_found-Keeps :
      (guard : Execution → Bool) (change : Execution → Execution) (o : Option Execution)
      → Keeps P (update_found guard change o)
  update_found-Keeps guard change none = record { at = λ db h. h }
  update_found-Keeps guard change (some x) = record {
    at = λ db h. elim (Bool-cases (guard x)) [
      | inl free ↦ rw free (i.executions db _ h)
      | inr held ↦ rw held h
    ];
  }

  pub update_where-Keeps :
      (id : Uuid) (guard : Execution → Bool) (change : Execution → Execution)
      → Keeps P (update_where id guard change)
  unfolding update_where
  update_where-Keeps id guard change = record {
    at = λ db h.
        (update_found-Keeps guard change (find_execution id (interfere db).executions)).at
          (interfere db) (i.rivals db h);
  }

  pub claim_stepping-Keeps : (ttl : ℕ) (id : Uuid) → Keeps P (claim_stepping ttl id)
  unfolding claim_stepping
  claim_stepping-Keeps ttl id = search (invariant_rules, update_where-Keeps)

  finally_release-Keeps :
      {A : Type 0} (id claim : Uuid) (m : Exec W A)
      → Keeps P m
      → Keeps P (finally_release id claim m)
  unfolding finally_release release_stepping
  finally_release-Keeps id claim m k = record {
    at = λ db h. (update_where-Keeps id _ _).at (m db).1 (k.at db h);
  }

  -- What is reloaded is the same execution.
  reload-Keeps :
      (x : Execution) (body : Execution → Exec W RuntimeResult)
      → ((x' : Execution) → x'.id ≡ x.id → Keeps P (body x'))
      → Keeps P (gets (reloaded x) >>= body)
  unfolding ◌>>=◌
  reload-Keeps x body k = record { at = λ db h. (k (reloaded x db) (reloaded-id x db)).at db h }

  under_claim-Keeps :
      (x : Execution) (body : Execution → Exec W RuntimeResult) (claim : Option Uuid)
      → ((x' : Execution) → x'.id ≡ x.id → Keeps P (body x'))
      → Keeps P (under_claim x body claim)
  under_claim-Keeps x body none k = search keeps_rules
  under_claim-Keeps x body (some claim) k =
      finally_release-Keeps x.id claim _ (reload-Keeps x body k)

  pub locked-Keeps :
      (ttl : ℕ) (x : Execution) (body : Execution → Exec W RuntimeResult)
      → ((x' : Execution) → x'.id ≡ x.id → Keeps P (body x'))
      → Keeps P (locked ttl x body)
  unfolding locked
  locked-Keeps ttl x body k =
      Keeps-bind _ _ (claim_stepping-Keeps ttl x.id) (λ claim. under_claim-Keeps x body claim k)
