-- ===== src/Gateway/Escalate.antt =====
-- `_finalize_risk_block` and `_create_approval_and_commit`: the two ends of a call that the gateway
-- does not let through.
use safeops.Prelude.{
  ℕ, suc, String, Bool, true, false, ◌&&◌, Option, none, some, List, [], ◌∷◌, ◌++◌, ◌==◌,
  if◌then◌else◌, find, append_text, nat_text,
}
use safeops.Json.{str, end, field}
use safeops.Model.Uuid.{Uuid, uuid_text}
use safeops.Model.Enums.{
  IncidentType, IncidentStatus, ExecutionStatus, ToolRequestStatus, AuditEventType,
}
use safeops.Model.Rows.{ToolRequest, Execution, ApprovalRequest}
use safeops.Model.Db.{Db, Row, tool_request, security_incident, approval_request, set_status}
use safeops.Exec.{
  Exec, Outcome, returned, raised, approval_state_conflict, pure, now, fresh, ◌>>=◌, ◌>>◌,
}
use safeops.Audit.{Builder, commit_chunk}
use safeops.Risk.Config.{Signal}
use safeops.Risk.Engine.{RiskAssessmentResult, has_signal}
use safeops.Approval.Create.{create_approval}
use safeops.Gateway.Tooling.{
  Call, GatewayStatus, GatewayResult, RiskSummary, blocked, requires_approval, failed, event_row,
  about_tool, number_json, rows_only,
}

-- `_INCIDENT_TYPE_PRIORITY`
abbrev pub incident_type_priority : List Signal
incident_type_priority =
    IncidentType.prompt_injection ∷ IncidentType.privilege_escalation
    ∷ IncidentType.data_exfiltration ∷ IncidentType.destructive_action
    ∷ IncidentType.scope_deviation ∷ IncidentType.sensitive_data_access
    ∷ IncidentType.external_communication ∷ IncidentType.financial_risk
    ∷ IncidentType.unusual_tool_sequence ∷ []

abbrev pub first_of_signals : List Signal → Option Signal
first_of_signals [] = none
first_of_signals (s ∷ ss) = some s

abbrev pub or_else : {A : Type 0} → Option A → Option A → Option A
or_else none b = b
or_else (some a) b = some a

-- The signal of highest priority among those present.
unfoldable pub incident_type_of : List Signal → Option Signal
incident_type_of signals =
    or_else (find (λ s. has_signal s signals) incident_type_priority) (first_of_signals signals)

abbrev pub incident_text : IncidentType → String
incident_text IncidentType.prompt_injection = "PROMPT_INJECTION"
incident_text IncidentType.data_exfiltration = "DATA_EXFILTRATION"
incident_text IncidentType.scope_deviation = "SCOPE_DEVIATION"
incident_text IncidentType.sensitive_data_access = "SENSITIVE_DATA_ACCESS"
incident_text IncidentType.privilege_escalation = "PRIVILEGE_ESCALATION"
incident_text IncidentType.destructive_action = "DESTRUCTIVE_ACTION"
incident_text IncidentType.external_communication = "EXTERNAL_COMMUNICATION"
incident_text IncidentType.financial_risk = "FINANCIAL_RISK"
incident_text IncidentType.unusual_tool_sequence = "UNUSUAL_TOOL_SEQUENCE"

-- `f"Blocked by risk engine (score={score})"`
abbrev pub blocked_by_risk : ℕ → String
blocked_by_risk score =
    append_text "Blocked by risk engine (score=" (append_text (nat_text score) ")")

abbrev pub is_running : ExecutionStatus → Bool
is_running ExecutionStatus.running = true
is_running _ = false

abbrev pub has_running : Uuid → List Execution → Bool
has_running id [] = false
has_running id (x ∷ xs) = if x.id == id && is_running x.status then true else has_running id xs

-- What the caller already knows of the result: the tool's name, the policy and the risk.
abbrev pub based_result :
    GatewayStatus
    → String
    → String
    → String
    → Option Uuid
    → Option String
    → Option Uuid
    → RiskSummary
    → GatewayResult
based_result status tool_name decision reason approval_id matched_policy policy_id risk = record {
  status = status;
  tool_name = tool_name;
  tool_result = none;
  decision = some decision;
  reason = some reason;
  matched_policy = matched_policy;
  policy_id = policy_id;
  approval_request_id = approval_id;
  risk = some risk;
}

abbrev pub after_escalated : Bool → ℕ → ℕ
after_escalated false seq = seq
after_escalated true seq = suc seq

module _ {W : Type 0} where
  -- An event RISK_ESCALATED stands before the others if risk raised the policy's decision.
  abbrev pub escalated_rows : Call W → Bool → ℕ → List Row
  escalated_rows c false seq = []
  escalated_rows c true seq =
      event_row c.execution.id seq AuditEventType.risk_escalated c.agent.name
        (about_tool c.tool_name end)
      ∷ []

  abbrev pub incident_rows :
      Call W → ToolRequest → RiskAssessmentResult → Uuid → Uuid → Option Signal → ℕ → List Row
  incident_rows c request risk assessment_id incident_id none seq = []
  incident_rows c request risk assessment_id incident_id (some kind) seq =
      security_incident (record {
        id = incident_id;
        execution_id = c.execution.id;
        agent_id = c.agent.id;
        tool_request_id = request.id;
        risk_assessment_id = assessment_id;
        incident_type = kind;
        severity = risk.risk_level;
        indicators = risk.reason_codes;
        status = IncidentStatus.open_;
      })
      ∷ event_row c.execution.id seq AuditEventType.security_incident_created c.agent.name
          (about_tool c.tool_name (field "incident_type" (str (incident_text kind)) end))
      ∷ []

  abbrev pub risk_block_rows :
      Call W → ToolRequest → RiskAssessmentResult → Uuid → Uuid → Bool → ℕ → ℕ → List Row
  risk_block_rows c request risk assessment_id incident_id escalated completed_at seq =
      let next = after_escalated escalated seq in
      escalated_rows c escalated seq
      ++ event_row c.execution.id next AuditEventType.action_blocked_by_risk c.agent.name
          (about_tool c.tool_name (field "risk_score" (number_json risk.risk_score) end))
        ∷ tool_request (record request {
          status = ToolRequestStatus.denied;
          completed_at = some completed_at;
          error =
              some (record { code = "RISK_BLOCKED"; message = blocked_by_risk risk.risk_score });
        })
        ∷ incident_rows c request risk assessment_id incident_id (incident_type_of risk.signals)
            (suc next)

  unfoldable pub finalize_risk_block :
      Call W
      → ToolRequest
      → RiskAssessmentResult
      → Uuid
      → Bool
      → Option String
      → Option Uuid
      → RiskSummary
      → Exec W GatewayResult
  finalize_risk_block c request risk assessment_id escalated matched_policy policy_id summary = do
    incident_id ← fresh
    completed_at ← now
    commit_chunk c.execution.id (
        rows_only (risk_block_rows c request risk assessment_id incident_id escalated completed_at))
    pure (
        based_result blocked c.tool_name "BLOCK" (blocked_by_risk risk.risk_score) none
          matched_policy policy_id summary)

  abbrev pub approval_rows : Call W → ToolRequest → ApprovalRequest → Bool → ℕ → ℕ → List Row
  approval_rows c request approval escalated requested_at seq =
      escalated_rows c escalated seq
      ++ event_row c.execution.id (after_escalated escalated seq) AuditEventType.approval_requested
          c.agent.name
          (field "approval_id" (str (uuid_text approval.id)) (about_tool c.tool_name end))
        ∷ tool_request (record request {
          status = ToolRequestStatus.requires_approval;
          completed_at = some requested_at;
        })
        ∷ approval_request approval
        ∷ []

  -- The execution moves from RUNNING to WAITING_APPROVAL in the transaction, or the builder raises.
  abbrev pub approval_builder : Call W → ToolRequest → ApprovalRequest → Bool → ℕ → Builder W
  approval_builder c request approval escalated requested_at seq db =
      if has_running c.execution.id db.executions
      then some (
        approval_rows c request approval escalated requested_at seq,
        record db {
          executions = set_status c.execution.id ExecutionStatus.waiting_approval db.executions;
        },
      )
      else none

  -- `except ApprovalStateConflictError`
  abbrev pub on_conflict :
      Outcome Unit × Db W → GatewayResult → GatewayResult → Outcome GatewayResult × Db W
  on_conflict (returned done, db) created conflict = (returned created, db)
  on_conflict (raised approval_state_conflict, db) created conflict = (returned conflict, db)
  on_conflict (raised e, db) created conflict = (raised e, db)

  unfoldable pub catch_conflict : Exec W Unit → GatewayResult → GatewayResult → Exec W GatewayResult
  catch_conflict m created conflict db = on_conflict (m db) created conflict

  unfoldable pub create_approval_and_commit :
      Call W
      → ToolRequest
      → Uuid
      → String
      → Bool
      → Option String
      → Option Uuid
      → RiskSummary
      → Exec W GatewayResult
  create_approval_and_commit c request decision_id reason escalated matched_policy policy_id risk =
      do
        requested_at ← now
        approval_id ← fresh
        let approval =
            create_approval requested_at approval_id c.execution.id c.agent.id request.id
              decision_id c.tool_name c.arguments c.tool_row.risk_category reason
        catch_conflict
            (commit_chunk c.execution.id
              (approval_builder c request approval escalated requested_at))
            (based_result requires_approval c.tool_name "REQUIRE_APPROVAL" reason (some approval_id)
              matched_policy policy_id risk)
            (based_result failed c.tool_name "REQUIRE_APPROVAL"
              "Execution is already waiting for approval" none matched_policy policy_id risk)
