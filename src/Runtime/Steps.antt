-- ===== src/Runtime/Steps.antt =====
-- The steps of an execution: `_load_history`, `_claim_step`, `_persist_step_only`, `_finalize`,
-- `_lookup_tool_request_id`.
use safeops.Prelude.{
  ℕ, ◌+◌, max, String, Bool, true, false, ◌&&◌, Option, none, some, List, [], ◌∷◌, ◌++◌, ◌==◌, leb,
  str_eq, if◌then◌else◌, filter, any,
}
use safeops.Json.{Fields, str, put}
use safeops.Model.Uuid.{Uuid}
use safeops.Model.Enums.{ExecutionStatus, status_text, StepType, StepStatus, AuditEventType}
use safeops.Model.Rows.{Execution, ExecutionStep, ToolRequest}
use safeops.Model.Db.{Db, Row, amend, same_place, interfere}
use safeops.Exec.{Exec, returned, gets, now, fresh, ◌>>=◌}
use safeops.Audit.{Builder, commit_chunk}
use safeops.Gateway.Tooling.{event_row}
use safeops.Gateway.Escalate.{has_running}
use safeops.Runtime.Lease.{find_execution, or_same}

-- `order_by(ExecutionStep.sequence)`
abbrev pub insert_step : ExecutionStep → List ExecutionStep → List ExecutionStep
insert_step s [] = s ∷ []
insert_step s (t ∷ ts) = if leb s.sequence t.sequence then s ∷ t ∷ ts else t ∷ insert_step s ts

unfoldable pub by_sequence : List ExecutionStep → List ExecutionStep
by_sequence [] = []
by_sequence (s ∷ ss) = insert_step s (by_sequence ss)

unfoldable pub steps_of : Uuid → List ExecutionStep → List ExecutionStep
steps_of id = filter (λ s. s.execution_id == id)

unfoldable pub load_history : Uuid → List ExecutionStep → List ExecutionStep
unfolding by_sequence steps_of
load_history id steps = by_sequence (steps_of id steps)

-- `max(sequence) or 0` over the steps of an execution.
unfoldable pub last_step : Uuid → List ExecutionStep → ℕ
last_step id [] = 0
last_step id (s ∷ ss) =
    let rest = last_step id ss in if s.execution_id == id then max s.sequence rest else rest

-- Requests are kept in the order in which they were made.
abbrev pub later_request : Uuid → String → List ToolRequest → Option Uuid → Option Uuid
later_request id tool_name [] latest = latest
later_request id tool_name (r ∷ rs) latest =
    later_request id tool_name rs
      (if r.execution_id == id && str_eq r.tool_name tool_name then some r.id else latest)

unfoldable pub lookup_tool_request_id : Uuid → String → List ToolRequest → Option Uuid
lookup_tool_request_id id tool_name requests = later_request id tool_name requests none

-- How a step ends: its new columns, the event, and the status that its execution should end in.
pub record Ending : Type 0 where
  pub status : StepStatus
  pub output : Fields
  pub event_type : AuditEventType
  pub metadata : Fields
  pub tool_request_id : Option Uuid
  pub terminal : Option ExecutionStatus

abbrev pub or_kept : Option Uuid → Option Uuid → Option Uuid
or_kept none old = old
or_kept (some id) old = some id

abbrev pub end_step : StepStatus → Fields → Option Uuid → ℕ → ExecutionStep → ExecutionStep
end_step status output request_id t s = record s {
  status = status;
  output = some output;
  completed_at = some t;
  tool_request_id = or_kept request_id s.tool_request_id;
}

abbrev pub end_execution : ExecutionStatus → ℕ → Execution → Execution
end_execution status t x = record x { status = status; completed_at = some t }

-- `execution.status.value` after the refresh.
abbrev pub stored_status : Execution → List Execution → String
stored_status x xs = status_text (or_same x (find_execution x.id xs)).status

-- The event when the execution had left RUNNING before.
abbrev pub lost_metadata : Fields → ExecutionStatus → String → Fields
lost_metadata metadata attempted actual =
    put "actual_status" (str actual) (put "attempted_status" (str (status_text attempted)) metadata)

abbrev pub runtime_event : Execution → ℕ → AuditEventType → Fields → Row
runtime_event x seq event_type metadata = event_row x.id seq event_type "agent-runtime" metadata

module _ {W : Type 0} where
  abbrev pub record_step : ExecutionStep → (ExecutionStep → ExecutionStep) → Db W → Db W
  record_step step change db = record db { steps = amend (λ s. s.id) step.id change db.steps }

  abbrev pub close_execution :
      Execution → Ending → ExecutionStatus → ℕ → Bool → ℕ → Db W → Option (List Row × Db W)
  close_execution x e terminal t true seq db = some (
    runtime_event x seq e.event_type e.metadata ∷ [],
    record db { executions = amend (λ y. y.id) x.id (end_execution terminal t) db.executions },
  )
  close_execution x e terminal t false seq db = some (
    runtime_event x seq AuditEventType.execution_status_already_terminal
          (lost_metadata e.metadata terminal (stored_status x db.executions))
        ∷ [],
    db,
  )

  -- The execution's own status moves only from RUNNING.
  abbrev pub close_if :
      Execution → Ending → Option ExecutionStatus → ℕ → ℕ → Db W → Option (List Row × Db W)
  close_if x e none t seq db = some (runtime_event x seq e.event_type e.metadata ∷ [], db)
  close_if x e (some terminal) t seq db =
      close_execution x e terminal t (has_running x.id db.executions) seq db

  abbrev pub finalize_builder : Execution → ExecutionStep → Ending → ℕ → Builder W
  finalize_builder x step e t seq db =
      close_if x e e.terminal t seq
        (record_step step (end_step e.status e.output e.tool_request_id t) db)

  unfoldable pub finalize : Execution → ExecutionStep → Ending → Exec W Unit
  finalize x step e = do t ← now; commit_chunk x.id (finalize_builder x step e t)

  -- A transaction of its own, without an event.
  unfoldable pub persist_step_only : ExecutionStep → StepStatus → Fields → Option Uuid → Exec W Unit
  unfolding interfere
  persist_step_only step status output request_id db =
      (returned tt, record_step step (end_step status output request_id db.clock) (interfere db))

  abbrev pub place_step : ExecutionStep → Bool → Exec W (Option ExecutionStep)
  place_step step true db = (returned none, db)
  place_step step false db = (returned (some step), record db { steps = db.steps ++ step ∷ [] })

  abbrev pub commit_step : ExecutionStep → Exec W (Option ExecutionStep)
  commit_step step db = place_step step (any (same_place step) db.steps) db

  -- The insertion of a new step; `none` is the collision with a step that another writer added.
  unfoldable pub add_step : ExecutionStep → Exec W (Option ExecutionStep)
  unfolding interfere
  add_step step db = commit_step step (interfere db)

  unfoldable pub claim_step : Uuid → StepType → Fields → Exec W (Option ExecutionStep)
  claim_step execution_id step_type input = do
    last ← gets (λ db. last_step execution_id db.steps)
    step_id ← fresh
    add_step (record {
      id = step_id;
      execution_id = execution_id;
      sequence = last + 1;
      step_type = step_type;
      tool_request_id = none;
      status = StepStatus.pending;
      input = input;
      output = none;
      completed_at = none;
    })
