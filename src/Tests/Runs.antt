-- ===== src/Tests/Runs.antt =====
-- What the steps of the refund come to, computed.
use safeops.Prelude.{◌≡◌, refl}
use safeops.Exec.{Outcome, returned, raised, ◌>>=◌}
use safeops.Gateway.Entry.{
  execute, with_agent, with_execution, with_status, request_tool, with_tool, with_validation,
  with_grant,
}
use safeops.Audit.{commit_chunk, try_commit}
use safeops.Model.Db.{commit_rows}
use safeops.Json.{get, count_fields}
use safeops.Gateway.Permit.{handle_conditional, after_policy, policy_pass}
use safeops.Policy.Engine.{evaluate}
use safeops.Policy.Conditions.{evaluate_conditions}
use safeops.Json.Decimal.{decimal_le, decimal_lt, number_le}
use safeops.Gateway.Assess.{assess_risk_and_finalize, finalize, risk_rows, signal_rows}
use safeops.Gateway.Record.{execute_and_record, record_failure, record_run, run_tool}
use safeops.Model.Uuid.{uuid_text}
use safeops.Risk.Config.{tool_category, signal_weight}
use safeops.Risk.Engine.{assess, combine_decisions}
use safeops.Risk.Normal.Email.{email_like}
use safeops.Risk.Normal.{argument_text, tool_words, untrusted_text}
use safeops.Risk.Signals.{
  detect_data_exfiltration, detect_destructive_action, detect_external_communication,
  detect_financial_risk, financial_risk_weight, detect_privilege_escalation,
  detect_prompt_injection, detect_scope_deviation, detect_sensitive_data_access,
  detect_unusual_tool_sequence, first_phrase, implied_categories,
}
use safeops.Runtime.Results.{RuntimeStatus, RuntimeResult, not_found, call_executed, ended_failed}
use safeops.Runtime.Lease.{
  claim_stepping, release_stepping, finally_release, locked, may_step, take_lease, holds_claim,
  free_lease, update_where,
}
use safeops.Runtime.Steps.{claim_step, add_step, last_step, load_history, lookup_tool_request_id}
use safeops.Runtime.Call.{end_call, run_tool_call_step, start_call, run_action}
use safeops.Runtime.Advance.{bounded, decide, advance, final_step}
use safeops.Runtime.Entry.{step, on_execution, exclusively}
use safeops.Tests.Fixtures.{store, registry}
use safeops.Tests.Steps.{planner, settings, second}

abbrev status_of : Outcome RuntimeResult → RuntimeStatus
status_of (returned r) = r.status
status_of (raised e) = not_found

-- The refund is paid once; the next step meets the bound of one step, and pays nothing.
paid_in_a_step :
    (status_of (step registry planner settings 3 store).0 ≡ call_executed)
    × (second.world ≡ 1)
    × (status_of (step registry planner settings 3 second).0 ≡ ended_failed)
    × ((step registry planner settings 3 second).1.world ≡ 1)
unfolding execute ◌>>=◌ with_agent with_execution with_status request_tool with_tool with_validation
    with_grant commit_chunk try_commit commit_rows get count_fields handle_conditional after_policy
    policy_pass evaluate evaluate_conditions decimal_le decimal_lt number_le
    assess_risk_and_finalize finalize risk_rows signal_rows execute_and_record record_failure
    record_run run_tool uuid_text tool_category signal_weight assess combine_decisions email_like
    argument_text tool_words untrusted_text detect_data_exfiltration detect_destructive_action
    detect_external_communication detect_financial_risk financial_risk_weight
    detect_privilege_escalation detect_prompt_injection detect_scope_deviation
    detect_sensitive_data_access detect_unusual_tool_sequence first_phrase implied_categories
    claim_stepping release_stepping finally_release locked may_step take_lease holds_claim
    free_lease update_where claim_step add_step last_step load_history lookup_tool_request_id
    end_call run_tool_call_step start_call run_action bounded decide advance final_step step
    on_execution exclusively safeops.Runtime.Steps.finalize
paid_in_a_step = (refl, refl, refl, refl)
