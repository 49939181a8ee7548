-- ===== src/Runtime/Call.antt =====
-- `_run_tool_call_step`: one call of the gateway, and the end of its step.
use safeops.Prelude.{String, Bool, true, false, Option, none, some, List, [], ◌∷◌, elem_text}
use safeops.Json.{Fields, str, arr, obj, end, field, put}
use safeops.Model.Uuid.{Uuid}
use safeops.Model.Enums.{ExecutionStatus, StepType, StepStatus, AuditEventType}
use safeops.Model.Rows.{Execution, ExecutionStep}
use safeops.Model.Db.{Db}
use safeops.Exec.{Exec, pure, gets, ◌>>=◌, ◌>>◌}
use safeops.Audit.{commit_chunk}
use safeops.Gateway.Tooling.{
  Registry, GatewayStatus, GatewayResult, executed, blocked, requires_approval, failed, number_json,
  rows_only,
}
use safeops.Gateway.Entry.{execute}
use safeops.Planner.{ToolAction, dump_sources}
use safeops.Runtime.Results.{
  RuntimeStatus, RuntimeResult, ended_failed, call_executed, call_waiting, call_blocked,
  conflict_result, dump_result, text_or_null, id_or_null,
}
use safeops.Runtime.Lease.{reloaded}
use safeops.Runtime.Steps.{
  Ending, finalize, persist_step_only, claim_step, lookup_tool_request_id, runtime_event,
}

-- `READ_ONLY_TOOLS`
abbrev pub read_only_tools : List String
read_only_tools =
    "read_customer" ∷ "get_payments" ∷ "get_support_ticket" ∷ "read_logs" ∷ "get_deployment" ∷ []

-- `{"step_sequence": ..., "tool_name": ..., ...}`
abbrev pub about_step : ExecutionStep → String → Fields → Fields
about_step step tool_name rest =
    field "step_sequence" (number_json step.sequence) (field "tool_name" (str tool_name) rest)

abbrev pub step_input : ToolAction → Fields
step_input a = field "tool_name" (str a.tool_name) (
    field "arguments" (obj a.arguments)
      (field "reason" (str a.reason) (field "sources" (arr (dump_sources a.sources)) end)))

abbrev pub call_result :
    RuntimeStatus → Execution → ExecutionStep → String → Option String → Option Uuid → RuntimeResult
call_result status x step tool_name reason approval_id = record {
  status = status;
  execution_status = some x.status;
  execution_id = none;
  reason = reason;
  tool_name = some tool_name;
  approval_request_id = approval_id;
  step_sequence = some step.sequence;
}

-- The end of a step, by the gateway's status.
abbrev pub ending_of : ExecutionStep → String → GatewayResult → Option Uuid → GatewayStatus → Ending
ending_of step tool_name r request_id executed = record {
  status = StepStatus.completed;
  output = dump_result r;
  event_type = AuditEventType.execution_step_completed;
  metadata = about_step step tool_name end;
  tool_request_id = request_id;
  terminal = none;
}
ending_of step tool_name r request_id requires_approval = record {
  status = StepStatus.waiting_approval;
  output = dump_result r;
  event_type = AuditEventType.execution_waiting_approval;
  metadata =
      about_step step tool_name
        (field "approval_request_id" (id_or_null r.approval_request_id) end);
  tool_request_id = request_id;
  terminal = none;
}
ending_of step tool_name r request_id blocked = record {
  status = StepStatus.blocked;
  output = dump_result r;
  event_type = AuditEventType.execution_blocked;
  metadata = about_step step tool_name (field "reason" (text_or_null r.reason) end);
  tool_request_id = request_id;
  terminal = some ExecutionStatus.blocked;
}
ending_of step tool_name r request_id failed = record {
  status = StepStatus.failed;
  output = dump_result r;
  event_type = AuditEventType.execution_failed;
  metadata = about_step step tool_name (field "reason" (text_or_null r.reason) end);
  tool_request_id = request_id;
  terminal = some ExecutionStatus.failed;
}

abbrev pub result_of :
    GatewayStatus → Execution → ExecutionStep → String → GatewayResult → RuntimeResult
result_of executed x step tool_name r = call_result call_executed x step tool_name none none
result_of requires_approval x step tool_name r =
    call_result call_waiting x step tool_name none r.approval_request_id
result_of blocked x step tool_name r = call_result call_blocked x step tool_name r.reason none
result_of failed x step tool_name r = call_result ended_failed x step tool_name r.reason none

module _ {W : Type 0} (registry : Registry W) (x : Execution) (a : ToolAction) where
  unfoldable pub end_call : ExecutionStep → GatewayResult → Option Uuid → Exec W RuntimeResult
  end_call step r request_id = do
    finalize x step (ending_of step a.tool_name r request_id r.status)
    x' ← gets (reloaded x)
    pure (result_of r.status x' step a.tool_name r)

  abbrev pub call_gateway : Exec W GatewayResult
  call_gateway =
      execute registry x.agent_id x.id a.tool_name a.arguments
        (some (obj (field "sources" (arr (dump_sources a.sources)) end)))

  abbrev pub request_of : Db W → Option Uuid
  request_of db = lookup_tool_request_id x.id a.tool_name db.tool_requests

  -- The call with `allow_retry=False`.
  unfoldable pub run_last : ExecutionStep → Exec W RuntimeResult
  run_last step = do r ← call_gateway; request_id ← gets request_of; end_call step r request_id

  -- The second step of a retry, unless another writer took its place.
  abbrev pub retry_on :
      ExecutionStep → GatewayResult → Option Uuid → Option ExecutionStep → Exec W RuntimeResult
  retry_on step r request_id none = end_call step r request_id
  retry_on step r request_id (some again) = run_last again

  unfoldable pub retry : ExecutionStep → GatewayResult → Option Uuid → Exec W RuntimeResult
  retry step r request_id = do
    persist_step_only step StepStatus.failed (dump_result r) request_id
    again ←
        claim_step x.id StepType.tool_call
          (put "retry_of_sequence" (number_json step.sequence) step.input)
    retry_on step r request_id again

  -- Only a read-only tool that failed is tried again.
  abbrev pub may_retry : GatewayStatus → Bool
  may_retry failed = elem_text a.tool_name read_only_tools
  may_retry status = false

  abbrev pub end_or_retry :
      ExecutionStep → GatewayResult → Option Uuid → Bool → Exec W RuntimeResult
  end_or_retry step r request_id false = end_call step r request_id
  end_or_retry step r request_id true = retry step r request_id

  -- The call with `allow_retry=True`.
  unfoldable pub run_tool_call_step : ExecutionStep → Exec W RuntimeResult
  run_tool_call_step step = do
    r ← call_gateway
    request_id ← gets request_of
    end_or_retry step r request_id (may_retry r.status)

  -- EXECUTION_STEP_STARTED, and the call.
  unfoldable pub start_call : ExecutionStep → Exec W RuntimeResult
  start_call step = do
    commit_chunk x.id (
        rows_only λ seq.
          runtime_event x seq AuditEventType.execution_step_started
            (about_step step a.tool_name end)
          ∷ [])
    run_tool_call_step step

  abbrev pub with_step : Option ExecutionStep → Exec W RuntimeResult
  with_step none = do x' ← gets (reloaded x); pure (conflict_result x')
  with_step (some step) = start_call step

  -- What `_advance` and `submit_external_action` do with an action.
  unfoldable pub run_action : Exec W RuntimeResult
  run_action = do step ← claim_step x.id StepType.tool_call (step_input a); with_step step
