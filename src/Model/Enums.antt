-- ===== src/Model/Enums.antt =====
-- apps/api/app/models/enums.py: the enumerations that the modelled services read and write, and
-- the equality tests on them.
use safeops.Prelude.{Bool, true, false, String, ◌≡◌, refl, arith}

pub data RiskLevel : Type 0 where
  low medium high critical : RiskLevel

pub data ExecutionStatus : Type 0 where
  created running waiting_approval completed failed blocked cancelled : ExecutionStatus

pub data ApprovalStatus : Type 0 where
  pending approved rejected expired executed : ApprovalStatus

pub data PermissionType : Type 0 where
  allow deny conditional : PermissionType

pub data PolicyAction : Type 0 where
  allow require_approval block : PolicyAction

pub data ToolRequestStatus : Type 0 where
  requested executed denied failed requires_approval : ToolRequestStatus

pub data IncidentType : Type 0 where
  prompt_injection data_exfiltration scope_deviation sensitive_data_access : IncidentType
  privilege_escalation destructive_action external_communication financial_risk : IncidentType
  unusual_tool_sequence : IncidentType

pub data IncidentStatus : Type 0 where
  open_ resolved dismissed : IncidentStatus

pub data StepType : Type 0 where
  plan tool_call tool_result approval_wait final : StepType

pub data StepStatus : Type 0 where
  pending completed waiting_approval blocked failed : StepStatus

pub data AuditEventType : Type 0 where
  execution_started agent_reasoned tool_requested permission_checked policy_checked : AuditEventType
  policy_evaluation_required policy_evaluation_started policy_matched policy_allowed :
      AuditEventType
  policy_approval_required policy_blocked action_allowed action_denied : AuditEventType
  action_blocked approval_requested approval_granted approval_approved : AuditEventType
  approval_rejected approval_expired approved_action_execution_started : AuditEventType
  approved_action_executed approved_action_failed risk_assessment_started : AuditEventType
  risk_signal_detected risk_assessed risk_escalated action_blocked_by_risk : AuditEventType
  security_incident_created tool_executed tool_failed security_incident : AuditEventType
  execution_completed execution_step_started execution_step_completed : AuditEventType
  execution_waiting_approval execution_resumed execution_blocked execution_failed : AuditEventType
  execution_cancelled execution_status_already_terminal external_request_received : AuditEventType
  external_request_validated external_request_rejected external_action_submitted : AuditEventType
  external_action_waiting_approval external_action_completed : AuditEventType

-- `==` on the enumerations that the code compares.
abbrev pub same_action : PolicyAction → PolicyAction → Bool
same_action PolicyAction.allow PolicyAction.allow = true
same_action PolicyAction.require_approval PolicyAction.require_approval = true
same_action PolicyAction.block PolicyAction.block = true
same_action _ _ = false

pub same_action→eq : (a b : PolicyAction) → same_action a b ≡ true → a ≡ b
same_action→eq PolicyAction.allow PolicyAction.allow h = refl
same_action→eq PolicyAction.require_approval PolicyAction.require_approval h = refl
same_action→eq PolicyAction.block PolicyAction.block h = refl
same_action→eq a b h = ground arith

-- `status.value`
abbrev pub status_text : ExecutionStatus → String
status_text ExecutionStatus.created = "CREATED"
status_text ExecutionStatus.running = "RUNNING"
status_text ExecutionStatus.waiting_approval = "WAITING_APPROVAL"
status_text ExecutionStatus.completed = "COMPLETED"
status_text ExecutionStatus.failed = "FAILED"
status_text ExecutionStatus.blocked = "BLOCKED"
status_text ExecutionStatus.cancelled = "CANCELLED"

abbrev pub level_text : RiskLevel → String
level_text RiskLevel.low = "LOW"
level_text RiskLevel.medium = "MEDIUM"
level_text RiskLevel.high = "HIGH"
level_text RiskLevel.critical = "CRITICAL"

pub data IntegrationType : Type 0 where
  generic mcp : IntegrationType

abbrev pub integration_text : IntegrationType → String
integration_text generic = "GENERIC"
integration_text mcp = "MCP"

pub data ExternalActionStatus : Type 0 where
  received validated processing waiting_approval executed blocked failed : ExternalActionStatus

abbrev pub external_text : ExternalActionStatus → String
external_text ExternalActionStatus.received = "RECEIVED"
external_text ExternalActionStatus.validated = "VALIDATED"
external_text ExternalActionStatus.processing = "PROCESSING"
external_text ExternalActionStatus.waiting_approval = "WAITING_APPROVAL"
external_text ExternalActionStatus.executed = "EXECUTED"
external_text ExternalActionStatus.blocked = "BLOCKED"
external_text ExternalActionStatus.failed = "FAILED"
