-- ===== src/Runtime/Pending.antt =====
-- `_resolve_pending_step`: a step that waited for an approval, after the decision on it.
use safeops.Prelude.{
  String, Bool, true, false, Option, none, some, List, [], ◌∷◌, ◌==◌, leb, if◌then◌else◌, find,
}
use safeops.Json.{Json, Fields, null, str, end, field, get, put}
use safeops.Model.Uuid.{Uuid, parse_uuid}
use safeops.Model.Enums.{
  ExecutionStatus, ApprovalStatus, ToolRequestStatus, StepStatus, AuditEventType,
}
use safeops.Model.Rows.{Execution, ExecutionStep, ToolRequest, ApprovalRequest}
use safeops.Exec.{Exec, pure, gets, ◌>>=◌, ◌>>◌}
use safeops.Gateway.Tooling.{number_json}
use safeops.Approval.Expire.{find_approval}
use safeops.Runtime.Results.{
  RuntimeStatus, noop, ended_failed, ended_completed, call_blocked, fields_or_null,
}
use safeops.Runtime.Steps.{Ending, finalize}

-- `_ResolvedApprovalOutcome`
pub record ResolvedApprovalOutcome : Type 0 where
  pub status : RuntimeStatus
  pub reason : Option String
  pub should_continue : Bool

abbrev pub stopped : RuntimeStatus → String → ResolvedApprovalOutcome
stopped status reason = record { status = status; reason = some reason; should_continue = false }

abbrev pub continued : ResolvedApprovalOutcome
continued = record { status = ended_completed; reason = none; should_continue = true }

-- `step.output or {}`
abbrev pub output_of : ExecutionStep → Fields
output_of s = elim s.output [ none ↦ end | some fs ↦ fs ]

abbrev pub id_in : Option Json → Option Uuid
id_in (some (str s)) = parse_uuid s
id_in _ = none

abbrev pub found_approval : Option Uuid → List ApprovalRequest → Option ApprovalRequest
found_approval none approvals = none
found_approval (some id) approvals = find_approval id approvals

-- The request that the step's output names; an id that does not parse names none.
unfoldable pub approval_of : ExecutionStep → List ApprovalRequest → Option ApprovalRequest
approval_of s approvals = found_approval (id_in (get "approval_request_id" (output_of s))) approvals

-- The execution's last step that waits.
abbrev pub waits : Uuid → ExecutionStep → Bool
waits id s = elim s.status [ StepStatus.waiting_approval ↦ s.execution_id == id | _ ↦ false ]

abbrev pub later_step : ExecutionStep → Option ExecutionStep → Option ExecutionStep
later_step s none = some s
later_step s (some t) = if leb t.sequence s.sequence then some s else some t

unfoldable pub pending_step : Uuid → List ExecutionStep → Option ExecutionStep
pending_step id [] = none
pending_step id (s ∷ ss) =
    let rest = pending_step id ss in if waits id s then later_step s rest else rest

abbrev pub is_executed : Option ToolRequest → Bool
is_executed none = false
is_executed (some r) = elim r.status [ ToolRequestStatus.executed ↦ true | _ ↦ false ]

abbrev pub result_json : Option ToolRequest → Json
result_json none = null
result_json (some r) = fields_or_null r.result

abbrev pub request_id_of : Option ToolRequest → Option Uuid
request_id_of none = none
request_id_of (some r) = some r.id

abbrev pub step_metadata : ExecutionStep → String → Fields
step_metadata step reason =
    field "step_sequence" (number_json step.sequence) (field "reason" (str reason) end)

abbrev pub resolution_ending :
    ExecutionStep
    → StepStatus
    → Fields
    → AuditEventType
    → String
    → Option Uuid
    → ExecutionStatus
    → Ending
resolution_ending step status output event_type reason request_id terminal = record {
  status = status;
  output = output;
  event_type = event_type;
  metadata = step_metadata step reason;
  tool_request_id = request_id;
  terminal = some terminal;
}

abbrev pub executed_output : ExecutionStep → Option ToolRequest → Fields
executed_output step request =
    put "tool_result" (result_json request) (put "resolution" (str "EXECUTED") (output_of step))

module _ {W : Type 0} (x : Execution) (step : ExecutionStep) where
  abbrev pub settle_executed : Option ToolRequest → Bool → Exec W ResolvedApprovalOutcome
  settle_executed request true = do
    finalize x step (record {
      status = StepStatus.completed;
      output = executed_output step request;
      event_type = AuditEventType.execution_step_completed;
      metadata = field "step_sequence" (number_json step.sequence) end;
      tool_request_id = request_id_of request;
      terminal = none;
    })
    pure continued
  settle_executed request false = do
    finalize x step (
        resolution_ending step StepStatus.failed (executed_output step request)
          AuditEventType.execution_failed "Approved action failed" (request_id_of request)
          ExecutionStatus.failed)
    pure (stopped ended_failed "Approved action failed")

  unfoldable pub settle_approval : ApprovalRequest → ApprovalStatus → Exec W ResolvedApprovalOutcome
  settle_approval p ApprovalStatus.pending = pure (stopped noop "Approval not yet resolved")
  settle_approval p ApprovalStatus.approved =
      pure (stopped noop "Approval approved but not finished executing yet")
  settle_approval p ApprovalStatus.rejected = do
    finalize x step (
        resolution_ending step StepStatus.blocked
          (put "resolution" (str "REJECTED") (output_of step)) AuditEventType.execution_blocked
          "Approval rejected" none ExecutionStatus.blocked)
    pure (stopped call_blocked "Approval rejected")
  settle_approval p ApprovalStatus.expired = do
    finalize x step (
        resolution_ending step StepStatus.failed (put "resolution" (str "EXPIRED") (output_of step))
          AuditEventType.execution_failed "Approval expired" none ExecutionStatus.failed)
    pure (stopped ended_failed "Approval expired")
  settle_approval p ApprovalStatus.executed = do
    request ← gets (λ db. find (λ r. r.id == p.tool_request_id) db.tool_requests)
    settle_executed request (is_executed request)

  abbrev pub settle_found : Option ApprovalRequest → Exec W ResolvedApprovalOutcome
  settle_found none = pure (stopped noop "Approval not yet resolved")
  settle_found (some p) = settle_approval p p.status

  unfoldable pub resolve_pending_step : Exec W ResolvedApprovalOutcome
  resolve_pending_step = do p ← gets (λ db. approval_of step db.approvals); settle_found p
