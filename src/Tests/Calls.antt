-- ===== src/Tests/Calls.antt =====
-- A refund of 40 through the whole gateway, against a writer that takes a sequence number first.
use safeops.Prelude.{ℕ, suc, ◌≡◌, refl, ◌⊎◌, none, List, [], ◌∷◌, arith}
use safeops.Json.{end}
use safeops.Exec.{returned, raised, Outcome, ◌>>=◌}
use safeops.Gateway.Entry.{
  execute, with_agent, with_execution, with_status, request_tool, with_tool, with_validation,
  with_grant,
}
use safeops.Audit.{commit_chunk, try_commit}
use safeops.Model.Db.{Db, Row, commit_rows}
use safeops.Json.{get, count_fields}
use safeops.Gateway.Permit.{handle_conditional, after_policy, policy_pass}
use safeops.Policy.Engine.{evaluate}
use safeops.Policy.Conditions.{evaluate_conditions}
use safeops.Json.Decimal.{decimal_le, decimal_lt, number_le}
use safeops.Gateway.Assess.{assess_risk_and_finalize, finalize, risk_rows, signal_rows}
use safeops.Gateway.Record.{execute_and_record, record_failure, record_run, run_tool}
use safeops.Model.Uuid.{uuid_text}
use safeops.Risk.Config.{tool_category, signal_weight}
use safeops.Risk.Engine.{assess, combine_decisions}
use safeops.Risk.Normal.Email.{email_like}
use safeops.Risk.Normal.{argument_text, tool_words, untrusted_text}
use safeops.Risk.Signals.{
  detect_data_exfiltration, detect_destructive_action, detect_external_communication,
  detect_financial_risk, financial_risk_weight, detect_privilege_escalation,
  detect_prompt_injection, detect_scope_deviation, detect_sensitive_data_access,
  detect_unusual_tool_sequence, first_phrase, implied_categories,
}
use safeops.Audit.Tables.{Same}
use safeops.Gateway.Tooling.{GatewayStatus, GatewayResult, executed, failed, event_row, rows_only}
use safeops.Gateway.Only.{NotExecuted}
use safeops.Gateway.Authorization.{Authorized, execute-Authorized}
use safeops.Audit.Liveness.{commit_chunk-returned}
use safeops.Model.Enums.{AuditEventType}
use safeops.Tests.Fixtures.{store, registry, refund_of}

abbrev outcome : Outcome GatewayResult × Db ℕ
outcome = execute registry 1 3 "issue_refund" (refund_of 40) none store

abbrev status_of : Outcome GatewayResult → GatewayStatus
status_of (returned r) = r.status
status_of (raised e) = failed

-- The refund is paid once, although another writer takes a sequence number in between.
paid_once : (status_of outcome.0 ≡ executed) × (outcome.1.world ≡ 1)
unfolding execute ◌>>=◌ with_agent with_execution with_status request_tool with_tool with_validation
    with_grant commit_chunk try_commit commit_rows get count_fields handle_conditional after_policy
    policy_pass evaluate evaluate_conditions decimal_le decimal_lt number_le
    assess_risk_and_finalize finalize risk_rows signal_rows execute_and_record record_failure
    record_run run_tool uuid_text tool_category signal_weight assess combine_decisions email_like
    argument_text tool_words untrusted_text detect_data_exfiltration detect_destructive_action
    detect_external_communication detect_financial_risk financial_risk_weight
    detect_privilege_escalation detect_prompt_injection detect_scope_deviation
    detect_sensitive_data_access detect_unusual_tool_sequence first_phrase implied_categories
paid_once = (refl, refl)

execute-Authorized_example :
    (Same store outcome.1 × NotExecuted outcome.0)
    ⊎ Authorized store registry 1 3 "issue_refund" (refund_of 40) none
execute-Authorized_example =
    execute-Authorized registry 1 3 "issue_refund" (refund_of 40) none store

abbrev chunk : ℕ → List Row
chunk n =
    event_row 3 n AuditEventType.action_allowed "helper" end
    ∷ event_row 3 (suc n) AuditEventType.tool_executed "helper" end
    ∷ []

-- Its first attempt loses against the other writer.
commit_chunk-returned_example : (commit_chunk 3 (rows_only chunk) store).0 ≡ returned tt
commit_chunk-returned_example =
    commit_chunk-returned 3 chunk store (λ n. (refl, refl, (refl, refl, tt))) (ground arith)
