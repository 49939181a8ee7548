-- ===== src/Runtime/Lease.antt =====
-- `_claim_stepping` and `_release_stepping`: the lease under which an execution is stepped.
use safeops.Prelude.{
  ℕ, ◌+◌, Bool, true, false, not, ◌||◌, Option, none, some, List, ◌==◌, ltb, if◌then◌else◌, find,
}
use safeops.Model.Uuid.{Uuid}
use safeops.Model.Rows.{Execution}
use safeops.Model.Db.{Db, amend, interfere}
use safeops.Exec.{Exec, returned, pure, gets, now, fresh, ◌>>=◌}
use safeops.Runtime.Results.{RuntimeResult, conflict_result}

-- `stepping_claimed_at < now - LEASE_TTL`; a NULL is never before anything.
abbrev pub is_stale : ℕ → ℕ → Option ℕ → Bool
is_stale ttl t none = false
is_stale ttl t (some claimed_at) = ltb (claimed_at + ttl) t

unfoldable pub may_step : ℕ → ℕ → Execution → Bool
may_step ttl t x = not x.stepping || is_stale ttl t x.stepping_claimed_at

unfoldable pub take_lease : Uuid → ℕ → Execution → Execution
take_lease claim t x = record x {
  stepping = true;
  stepping_claim_id = some claim;
  stepping_claimed_at = some t;
}

abbrev pub is_claim : Uuid → Option Uuid → Bool
is_claim claim none = false
is_claim claim (some other) = other == claim

unfoldable pub holds_claim : Uuid → Execution → Bool
holds_claim claim x = is_claim claim x.stepping_claim_id

unfoldable pub free_lease : Execution → Execution
free_lease x = record x { stepping = false; stepping_claim_id = none; stepping_claimed_at = none }

abbrev pub find_execution : Uuid → List Execution → Option Execution
find_execution id = find (λ x. x.id == id)

abbrev pub or_same : Execution → Option Execution → Execution
or_same x none = x
or_same x (some y) = y

abbrev pub claim_if : Uuid → Bool → Option Uuid
claim_if claim false = none
claim_if claim true = some claim

module _ {W : Type 0} where
  abbrev pub update_found :
      (Execution → Bool) → (Execution → Execution) → Option Execution → Exec W Bool
  update_found guard change none db = (returned false, db)
  update_found guard change (some x) db =
      if guard x
      then (returned true, record db { executions = amend (λ x. x.id) x.id change db.executions })
      else (returned false, db)

  -- `update(Execution).where(...)` and its commit: whether a row was changed. Another writer may come
  -- first.
  unfoldable pub update_where : Uuid → (Execution → Bool) → (Execution → Execution) → Exec W Bool
  unfolding interfere
  update_where id guard change db =
      update_found guard change (find_execution id (interfere db).executions) (interfere db)

  -- The execution as it is stored now. Executions are never deleted.
  abbrev pub reloaded : Execution → Db W → Execution
  reloaded x db = or_same x (find_execution x.id db.executions)

  unfoldable pub claim_stepping : ℕ → Uuid → Exec W (Option Uuid)
  claim_stepping ttl id = do
    claim ← fresh
    t ← now
    claimed ← update_where id (may_step ttl t) (take_lease claim t)
    pure (claim_if claim claimed)

  unfoldable pub release_stepping : Uuid → Uuid → Exec W Bool
  release_stepping id claim = update_where id (holds_claim claim) free_lease

  -- `try: ... finally: self._release_stepping(...)`
  unfoldable pub finally_release : {A : Type 0} → Uuid → Uuid → Exec W A → Exec W A
  finally_release id claim m db = let (r, db') = m db in (r, (release_stepping id claim db').1)

  abbrev pub under_claim :
      Execution → (Execution → Exec W RuntimeResult) → Option Uuid → Exec W RuntimeResult
  under_claim x body none = do x' ← gets (reloaded x); pure (conflict_result x')
  under_claim x body (some claim) = finally_release x.id claim (gets (reloaded x) >>= body)

  -- The critical section that `step`, `resume` and the external calls share.
  unfoldable pub locked : ℕ → Execution → (Execution → Exec W RuntimeResult) → Exec W RuntimeResult
  locked ttl x body = do claimed ← claim_stepping ttl x.id; under_claim x body claimed
