-- ===== src/Approval/Run.antt =====
-- `_execute_approved_action` and `_finalize_execution_outcome`: an approved call is run, and its outcome
-- is recorded.
use safeops.Prelude.{ℕ, String, Option, none, some, [], ◌∷◌}
use safeops.Json.{Fields, end, field}
use safeops.Model.Uuid.{Uuid}
use safeops.Model.Enums.{ExecutionStatus, ApprovalStatus, ToolRequestStatus, AuditEventType}
use safeops.Model.Rows.{ToolError, ToolRequest, ApprovalRequest}
use safeops.Model.Db.{amend, set_status}
use safeops.Exec.{Exec, returned, pure, now, ◌>>=◌, ◌>>◌}
use safeops.Audit.{Builder, commit_chunk}
use safeops.Gateway.Tooling.{
  ToolRun, crashed, success, failure, ToolImpl, Registry, event_row, about_tool, error_json,
  rows_only,
}
use safeops.Gateway.Record.{execution_error, error_or_unknown}

pub data ActionStatus : Type 0 where
  not_found already_resolved invalid_state rejected executed failed : ActionStatus

pub record ApprovalActionResult : Type 0 where
  pub status : ActionStatus
  pub approval_id : Option Uuid
  pub approval_status : Option ApprovalStatus
  pub tool_result : Option Fields
  pub reason : Option String

abbrev pub missing_tool : ToolError
missing_tool = record { code = "TOOL_NOT_FOUND"; message = "Approved tool is no longer registered" }

-- What a run leaves: an error, or the data of a success.
pub data ActionOutcome : Type 0 where
  failed_with : ToolError → ActionOutcome
  succeeded : Fields → ActionOutcome

abbrev pub outcome_event : ActionOutcome → AuditEventType
outcome_event (failed_with e) = AuditEventType.approved_action_failed
outcome_event (succeeded output) = AuditEventType.approved_action_executed

abbrev pub outcome_metadata : String → ActionOutcome → Fields
outcome_metadata tool_name (failed_with e) = about_tool tool_name (field "error" (error_json e) end)
outcome_metadata tool_name (succeeded output) = about_tool tool_name end

abbrev pub outcome_request : ℕ → ActionOutcome → ToolRequest → ToolRequest
outcome_request now (failed_with e) r = record r {
  status = ToolRequestStatus.failed;
  completed_at = some now;
  result = none;
  error = some e;
}
outcome_request now (succeeded output) r = record r {
  status = ToolRequestStatus.executed;
  completed_at = some now;
  result = some output;
  error = none;
}

abbrev pub action_result : ApprovalRequest → ActionOutcome → ApprovalActionResult
action_result p (failed_with e) = record {
  status = failed;
  approval_id = some p.id;
  approval_status = some ApprovalStatus.executed;
  tool_result = none;
  reason = some e.message;
}
action_result p (succeeded output) = record {
  status = executed;
  approval_id = some p.id;
  approval_status = some ApprovalStatus.executed;
  tool_result = some output;
  reason = none;
}

-- `result.success`, `result.data` and `result.error`, or the exception.
abbrev pub outcome_of : ToolRun → ActionOutcome
outcome_of crashed = failed_with execution_error
outcome_of (failure error) = failed_with (error_or_unknown error)
outcome_of (success output) = succeeded output

module _ {W : Type 0} where
  abbrev pub outcome_builder : ApprovalRequest → String → ActionOutcome → ℕ → Builder W
  outcome_builder p agent_name outcome now seq db = some (
    event_row p.execution_id seq (outcome_event outcome) agent_name
          (outcome_metadata p.tool_name outcome)
        ∷ [],
    record db {
      approvals =
          amend (λ x. x.id) p.id
            (λ x. record x { status = ApprovalStatus.executed; executed_at = some now })
            db.approvals;
      tool_requests =
          amend (λ r. r.id) p.tool_request_id (outcome_request now outcome) db.tool_requests;
      executions = set_status p.execution_id ExecutionStatus.running db.executions;
    },
  )

  unfoldable pub finalize_execution_outcome :
      ApprovalRequest → String → ActionOutcome → Exec W ApprovalActionResult
  finalize_execution_outcome p agent_name outcome = do
    completed_at ← now
    commit_chunk p.execution_id (outcome_builder p agent_name outcome completed_at)
    pure (action_result p outcome)

  -- `tool.execute(approval.approved_arguments, db)`
  unfoldable pub run_approved : ToolImpl W → Fields → Exec W ToolRun
  run_approved tool args db =
      let (r, world) = tool.run args db.world in (returned r, record db { world = world })

  unfoldable pub run_registered :
      Option (ToolImpl W) → ApprovalRequest → String → Exec W ApprovalActionResult
  run_registered none p agent_name =
      finalize_execution_outcome p agent_name (failed_with missing_tool)
  run_registered (some tool) p agent_name = do
    run ← run_approved tool p.approved_arguments
    finalize_execution_outcome p agent_name (outcome_of run)

  abbrev pub started_rows : ApprovalRequest → String → Builder W
  started_rows p agent_name = rows_only λ seq.
      event_row p.execution_id seq AuditEventType.approved_action_execution_started agent_name
        (about_tool p.tool_name end)
      ∷ []

  unfoldable pub execute_approved_action :
      Registry W → ApprovalRequest → String → Exec W ApprovalActionResult
  execute_approved_action registry p agent_name = do
    commit_chunk p.execution_id (started_rows p agent_name)
    run_registered (registry p.tool_name) p agent_name
