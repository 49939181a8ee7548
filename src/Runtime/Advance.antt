-- ===== src/Runtime/Advance.antt =====
-- `_fail_max_steps_exceeded` and `_advance`: the planner's next decision, within the bound on steps.
use safeops.Prelude.{ℕ, String, Bool, true, false, Option, none, some, List, length, ltb}
use safeops.Json.{Json, Fields, null, str, end, field}
use safeops.Model.Enums.{ExecutionStatus, StepType, StepStatus, AuditEventType}
use safeops.Model.Rows.{Execution, ExecutionStep}
use safeops.Exec.{Exec, pure, gets, ◌>>=◌, ◌>>◌}
use safeops.Gateway.Tooling.{Registry, number_json}
use safeops.Planner.{
  Planner, PlannerDecision, tool_action, complete, fail, PlannerAnswer, crashed, malformed,
  answered,
}
use safeops.Runtime.Results.{
  RuntimeStatus, RuntimeResult, ended_failed, ended_completed, conflict_result,
}
use safeops.Runtime.Lease.{reloaded}
use safeops.Runtime.Steps.{Ending, finalize, claim_step, load_history}
use safeops.Runtime.Call.{run_action}

-- `get_settings()`: MAX_EXECUTION_STEPS, and LEASE_TTL in seconds.
pub record Settings : Type 0 where
  pub max_execution_steps : ℕ
  pub lease_ttl : ℕ

abbrev pub too_many_steps : String
too_many_steps = "Execution exceeded MAX_EXECUTION_STEPS"

abbrev pub final_result : RuntimeStatus → Execution → ExecutionStep → String → RuntimeResult
final_result status x step reason = record {
  status = status;
  execution_status = some x.status;
  execution_id = none;
  reason = some reason;
  tool_name = none;
  approval_request_id = none;
  step_sequence = some step.sequence;
}

abbrev pub failed_input : String → String → Fields
failed_input reason code =
    field "decision" (str "FAIL") (field "reason" (str reason) (field "code" (str code) end))

abbrev pub reason_and_code : String → String → Fields
reason_and_code reason code = field "reason" (str reason) (field "code" (str code) end)

-- A final step that fails its execution; its event may have more metadata than its output.
abbrev pub failed_ending : Fields → Fields → Ending
failed_ending output metadata = record {
  status = StepStatus.failed;
  output = output;
  event_type = AuditEventType.execution_failed;
  metadata = metadata;
  tool_request_id = none;
  terminal = some ExecutionStatus.failed;
}

abbrev pub completed_ending : String → Ending
completed_ending reason = record {
  status = StepStatus.completed;
  output = field "reason" (str reason) end;
  event_type = AuditEventType.execution_completed;
  metadata = field "reason" (str reason) end;
  tool_request_id = none;
  terminal = some ExecutionStatus.completed;
}

-- `{"objective": ..., "initial_context": ...}`
abbrev pub json_or_null : Option Json → Json
json_or_null none = null
json_or_null (some j) = j

abbrev pub planner_context : Execution → Fields
planner_context x =
    field "objective" (str x.objective)
      (field "initial_context" (json_or_null x.initial_context) end)

-- The planner's answer, or the failure that stands for an exception or for another type.
abbrev pub decision_of : PlannerAnswer → PlannerDecision
decision_of crashed = fail "Planner raised an unexpected error" "PLANNER_ERROR"
decision_of malformed =
    fail "Planner returned an unrecognized decision type" "PLANNER_MALFORMED_OUTPUT"
decision_of (answered d) = d

abbrev pub max_steps_ending : ExecutionStep → Ending
max_steps_ending step = failed_ending (reason_and_code too_many_steps "MAX_STEPS_EXCEEDED") (
    field "step_sequence" (number_json step.sequence)
      (reason_and_code too_many_steps "MAX_STEPS_EXCEEDED"))

module _ {W : Type 0} where
  -- A final step ends the execution, unless another writer took its place.
  abbrev pub end_with :
      Execution
      → RuntimeStatus
      → String
      → (ExecutionStep → Ending)
      → Option ExecutionStep
      → Exec W RuntimeResult
  end_with x status reason ending none = do x' ← gets (reloaded x); pure (conflict_result x')
  end_with x status reason ending (some step) = do
    finalize x step (ending step)
    x' ← gets (reloaded x)
    pure (final_result status x' step reason)

  unfoldable pub final_step :
      Execution → RuntimeStatus → String → Fields → (ExecutionStep → Ending) → Exec W RuntimeResult
  final_step x status reason input ending = do
    step ← claim_step x.id StepType.final input
    end_with x status reason ending step

  -- `_fail_max_steps_exceeded` before `body`: below the bound, `body` goes on.
  abbrev pub if_below : Bool → Execution → Exec W RuntimeResult → Exec W RuntimeResult
  if_below true x body = body
  if_below false x body =
      final_step x ended_failed too_many_steps (failed_input too_many_steps "MAX_STEPS_EXCEEDED")
        max_steps_ending

  unfoldable pub bounded :
      Settings → Execution → (List ExecutionStep → Exec W RuntimeResult) → Exec W RuntimeResult
  bounded settings x body = do
    history ← gets (λ db. load_history x.id db.steps)
    if_below (ltb (length history) settings.max_execution_steps) x (body history)

module _ {W : Type 0} (registry : Registry W) (planner : Planner) (settings : Settings) where
  unfoldable pub decide : Execution → PlannerDecision → Exec W RuntimeResult
  decide x (complete reason) =
      final_step x ended_completed reason
        (field "decision" (str "COMPLETE") (field "reason" (str reason) end))
        (λ step. completed_ending reason)
  decide x (fail reason code) =
      final_step x ended_failed reason (failed_input reason code)
        (λ step. failed_ending (reason_and_code reason code) (reason_and_code reason code))
  decide x (tool_action a) = run_action registry x a

  unfoldable pub advance : Execution → Exec W RuntimeResult
  advance x =
      bounded settings x (λ history. decide x (decision_of (planner x (planner_context x) history)))
