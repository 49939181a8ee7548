-- ===== src/Gateway/Assess.antt =====
-- `_assess_risk_and_finalize`: the risk assessment is recorded and joined with the policy's decision,
-- and the call ends in one of three ways.
use safeops.Prelude.{
  ℕ, ◌+◌, suc, String, Bool, true, false, not, Option, none, some, List, [], ◌∷◌, ◌++◌, ◌==◌, map,
  filter, append_text, length,
}
use safeops.Json.{str, end, field}
use safeops.Model.Uuid.{Uuid}
use safeops.Model.Enums.{PolicyAction, same_action, RiskLevel, level_text, AuditEventType}
use safeops.Model.Rows.{ToolRequest}
use safeops.Model.Db.{Db, Row, risk_assessment}
use safeops.Exec.{Exec, gets, fresh, ◌>>=◌, ◌>>◌}
use safeops.Audit.{commit_chunk}
use safeops.Risk.Config.{Signal}
use safeops.Risk.Engine.{RiskAssessmentResult, assess, combine_decisions}
use safeops.Gateway.Tooling.{
  Call, GatewayResult, RiskSummary, event_row, about_tool, number_json, rows_only,
}
use safeops.Gateway.Record.{execute_and_record}
use safeops.Gateway.Escalate.{incident_text, finalize_risk_block, create_approval_and_commit}

-- The tool names of the execution's tool requests, which the last detector queries.
abbrev pub requested_tools : Uuid → List ToolRequest → List String
requested_tools id requests = map (λ r. r.tool_name) (filter (λ r. r.execution_id == id) requests)

-- The result that stands in for an assessment that raises.
abbrev pub failed_assessment : RiskAssessmentResult
failed_assessment = record {
  risk_score = 100;
  risk_level = RiskLevel.critical;
  signals = [];
  reason_codes = "RISK_ASSESSMENT_ERROR" ∷ [];
  recommended_action = PolicyAction.block;
  context = none;
}

abbrev pub or_failed : Option RiskAssessmentResult → RiskAssessmentResult
or_failed none = failed_assessment
or_failed (some r) = r

-- `', '.join(codes)`
abbrev pub join_codes : List String → String
join_codes [] = ""
join_codes (c ∷ []) = c
join_codes (c ∷ d ∷ rest) = append_text c (append_text ", " (join_codes (d ∷ rest)))

abbrev pub codes_or_default : List String → List String
codes_or_default [] = "RISK_ESCALATION" ∷ []
codes_or_default (c ∷ cs) = c ∷ cs

abbrev pub approval_reason : Bool → List String → String → String
approval_reason false codes policy_reason = policy_reason
approval_reason true codes policy_reason =
    append_text "Escalated by Risk Engine: " (join_codes (codes_or_default codes))

abbrev pub summary_of : RiskAssessmentResult → RiskSummary
summary_of r = record {
  risk_score = r.risk_score;
  risk_level = r.risk_level;
  risk_signals = r.signals;
}

-- What the policy side has settled before the risk assessment.
pub record Settled : Type 0 where
  pub decision_id : Uuid
  pub action : PolicyAction
  pub reason : String
  pub matched_policy : Option String
  pub policy_id : Option Uuid
  pub extra_rows : List Row

module _ {W : Type 0} where
  -- One event for each signal, from the given sequence number on.
  unfoldable pub signal_rows : Call W → List Signal → ℕ → List Row
  signal_rows c [] seq = []
  signal_rows c (s ∷ ss) seq =
      event_row c.execution.id seq AuditEventType.risk_signal_detected c.agent.name
        (about_tool c.tool_name (field "signal" (str (incident_text s)) end))
      ∷ signal_rows c ss (suc seq)

  unfoldable pub risk_rows :
      Call W → ToolRequest → Settled → RiskAssessmentResult → Uuid → ℕ → List Row
  risk_rows c request settled risk assessment_id seq =
      event_row c.execution.id seq AuditEventType.risk_assessment_started c.agent.name
          (about_tool c.tool_name end)
        ∷ signal_rows c risk.signals (suc seq)
      ++ event_row c.execution.id (suc seq + length risk.signals) AuditEventType.risk_assessed
          c.agent.name
          (about_tool c.tool_name (
            field "risk_score" (number_json risk.risk_score)
              (field "risk_level" (str (level_text risk.risk_level)) end)))
        ∷ risk_assessment (record {
          id = assessment_id;
          execution_id = c.execution.id;
          agent_id = c.agent.id;
          tool_request_id = request.id;
          tool_id = c.tool_row.id;
          policy_decision_id = settled.decision_id;
          risk_score = risk.risk_score;
          risk_level = risk.risk_level;
          signals = risk.signals;
          reason_codes = risk.reason_codes;
          recommended_action = risk.recommended_action;
        })
        ∷ settled.extra_rows

  -- The three ends of a call, by the final decision.
  unfoldable pub finalize :
      Call W
      → ToolRequest
      → Settled
      → RiskAssessmentResult
      → Uuid
      → PolicyAction
      → Exec W GatewayResult
  finalize c request settled risk assessment_id PolicyAction.block =
      finalize_risk_block c request risk assessment_id
        (not (same_action PolicyAction.block settled.action)) settled.matched_policy
        settled.policy_id (summary_of risk)
  finalize c request settled risk assessment_id PolicyAction.require_approval =
      let escalated = not (same_action PolicyAction.require_approval settled.action) in
      create_approval_and_commit c request settled.decision_id
        (approval_reason escalated risk.reason_codes settled.reason) escalated
        settled.matched_policy settled.policy_id (summary_of risk)
  finalize c request settled risk assessment_id PolicyAction.allow = do
    commit_chunk c.execution.id (
        rows_only λ seq.
          event_row c.execution.id seq AuditEventType.action_allowed c.agent.name
            (about_tool c.tool_name end)
          ∷ [])
    execute_and_record c request settled.matched_policy settled.policy_id (summary_of risk)

  -- `risk_engine.assess(...)` on the rows of this moment.
  abbrev pub assess_call : Call W → Db W → RiskAssessmentResult
  assess_call c db = or_failed (
      assess c.agent.id c.execution.objective c.tool_row.name
        (some (requested_tools c.execution.id db.tool_requests)) c.arguments c.context)

  unfoldable pub assess_risk_and_finalize : Call W → ToolRequest → Settled → Exec W GatewayResult
  assess_risk_and_finalize c request settled = do
    risk ← gets (assess_call c)
    assessment_id ← fresh
    commit_chunk c.execution.id (rows_only (risk_rows c request settled risk assessment_id))
    finalize c request settled risk assessment_id
        (combine_decisions settled.action risk.recommended_action)
