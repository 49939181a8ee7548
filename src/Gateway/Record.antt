-- ===== src/Gateway/Record.antt =====
-- `_execute_and_record`: the tool is run, once, and its outcome is recorded.
use safeops.Prelude.{ℕ, String, Option, none, some, List, [], ◌∷◌}
use safeops.Json.{Fields, end, field}
use safeops.Model.Uuid.{Uuid}
use safeops.Model.Enums.{ToolRequestStatus, AuditEventType}
use safeops.Model.Rows.{ToolRequest, ToolError}
use safeops.Model.Db.{Row, tool_request}
use safeops.Exec.{Exec, returned, pure, now, ◌>>=◌, ◌>>◌}
use safeops.Audit.{commit_chunk}
use safeops.Gateway.Tooling.{
  ToolRun, crashed, success, failure, Call, GatewayStatus, GatewayResult, RiskSummary, executed,
  failed, event_row, about_tool, error_json, rows_only,
}

abbrev pub execution_error : ToolError
execution_error = record {
  code = "TOOL_EXECUTION_ERROR";
  message = "Tool execution raised an unexpected error";
}

abbrev pub error_or_unknown : Option ToolError → ToolError
error_or_unknown none = record { code = "UNKNOWN"; message = "" }
error_or_unknown (some e) = e

module _ {W : Type 0} where
  -- `tool.execute(arguments, db)`
  unfoldable pub run_tool : Call W → Exec W ToolRun
  run_tool c db =
      let (r, world) = c.tool.run c.arguments db.world in (returned r, record db { world = world })

  abbrev pub outcome_result :
      Call W
      → GatewayStatus
      → Option Fields
      → Option String
      → Option String
      → Option Uuid
      → RiskSummary
      → GatewayResult
  outcome_result c status output reason matched_policy policy_id risk = record {
    status = status;
    tool_name = c.tool_name;
    tool_result = output;
    decision = some "ALLOW";
    reason = reason;
    matched_policy = matched_policy;
    policy_id = policy_id;
    approval_request_id = none;
    risk = some risk;
  }

  -- TOOL_FAILED with its error, and the request as FAILED.
  abbrev pub failure_rows : Call W → ToolRequest → ToolError → ℕ → ℕ → List Row
  failure_rows c request error completed_at seq =
      event_row c.execution.id seq AuditEventType.tool_failed c.agent.name
        (about_tool c.tool_name (field "error" (error_json error) end))
      ∷ tool_request (record request {
        status = ToolRequestStatus.failed;
        completed_at = some completed_at;
        error = some error;
      })
      ∷ []

  abbrev pub success_rows : Call W → ToolRequest → Fields → ℕ → ℕ → List Row
  success_rows c request output completed_at seq =
      event_row c.execution.id seq AuditEventType.tool_executed c.agent.name
        (about_tool c.tool_name end)
      ∷ tool_request (record request {
        status = ToolRequestStatus.executed;
        completed_at = some completed_at;
        result = some output;
      })
      ∷ []

  unfoldable pub record_failure :
      Call W
      → ToolRequest
      → ToolError
      → Option String
      → Option Uuid
      → RiskSummary
      → Exec W GatewayResult
  record_failure c request error matched_policy policy_id risk = do
    completed_at ← now
    commit_chunk c.execution.id (rows_only (failure_rows c request error completed_at))
    pure (outcome_result c failed none (some error.message) matched_policy policy_id risk)

  unfoldable pub record_run :
      Call W
      → ToolRequest
      → Option String
      → Option Uuid
      → RiskSummary
      → ToolRun
      → Exec W GatewayResult
  record_run c request matched_policy policy_id risk crashed =
      record_failure c request execution_error matched_policy policy_id risk
  record_run c request matched_policy policy_id risk (failure error) =
      record_failure c request (error_or_unknown error) matched_policy policy_id risk
  record_run c request matched_policy policy_id risk (success output) = do
    completed_at ← now
    commit_chunk c.execution.id (rows_only (success_rows c request output completed_at))
    pure (outcome_result c executed (some output) none matched_policy policy_id risk)

  unfoldable pub execute_and_record :
      Call W → ToolRequest → Option String → Option Uuid → RiskSummary → Exec W GatewayResult
  execute_and_record c request matched_policy policy_id risk = do
    run ← run_tool c
    record_run c request matched_policy policy_id risk run
