-- ===== src/Audit.antt =====
-- apps/api/app/services/audit.py: `commit_chunk`, which commits a batch of rows whose audit events
-- take the next free sequence numbers, and tries again after a collision.
pub mod Chunk
pub mod Events
pub mod Invariant
pub mod Liveness
pub mod Tables
use safeops.Prelude.{ℕ, zero, suc, ◌+◌, max, Option, none, some, List, [], ◌∷◌, ◌==◌, if◌then◌else◌}
use safeops.Model.Uuid.{Uuid}
use safeops.Model.Rows.{AuditEvent}
use safeops.Model.Db.{Db, Row, commit_rows, interfere}
use safeops.Exec.{Exec, Outcome, returned, raised, approval_state_conflict, integrity_error}

-- `max(sequence) or 0` over the events of an execution.
unfoldable pub last_sequence : Uuid → List AuditEvent → ℕ
last_sequence id [] = 0
last_sequence id (e ∷ es) =
    let rest = last_sequence id es in if e.execution_id == id then max e.sequence rest else rest

-- `build_rows`: the rows for a first sequence number, and the database with the updates that it
-- issues itself in the transaction; `none` raises ApprovalStateConflictError.
abbrev pub Builder : Type 0 → Type 0
Builder W = ℕ → Db W → Option (List Row × Db W)

-- The transaction of one attempt, on the database that a rival has left: `clash` is the collision
-- that rolls it back.
pub data Attempt (W : Type 0) : Type 0 where
  committed : Db W → Attempt W
  clash refused : Attempt W

module _ {W : Type 0} where
  abbrev commit_built : Option (Db W) → Attempt W
  commit_built none = clash
  commit_built (some db) = committed db

  abbrev run_built : Option (List Row × Db W) → Attempt W
  run_built none = refused
  run_built (some (rows, db)) = commit_built (commit_rows rows db)

  unfoldable pub try_commit : ℕ → Builder W → Db W → Attempt W
  try_commit base_seq build db = run_built (build base_seq db)

  abbrev pub on_attempt : Attempt W → Db W → Outcome Unit × Db W → Outcome Unit × Db W
  on_attempt (committed db') db again = (returned tt, db')
  on_attempt refused db again = (raised approval_state_conflict, db)
  on_attempt clash db again = again

  -- The attempts that are left. A rival may commit between the read of the last sequence number and
  -- the transaction.
  unfoldable pub attempts : ℕ → Uuid → Builder W → Exec W Unit
  unfolding last_sequence interfere try_commit
  attempts zero id build db = (raised integrity_error, db)
  attempts (suc n) id build db =
      let base_seq = last_sequence id db.events + 1 in
      let db' = interfere db in
      let again = attempts n id build db' in on_attempt (try_commit base_seq build db') db' again

  unfoldable pub commit_chunk : Uuid → Builder W → Exec W Unit
  unfolding attempts
  commit_chunk id build = attempts 5 id build
