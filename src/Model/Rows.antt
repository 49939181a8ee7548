-- ===== src/Model/Rows.antt =====
-- The rows of the database (apps/api/app/models/): the columns that the modelled services read or
-- write. Columns that only the database fills and nothing reads back are left out.
use safeops.Prelude.{ℕ, String, Bool, Option, List}
use safeops.Prelude.Int.{ℤ}
use safeops.Json.{Json, Fields}
use safeops.Model.Uuid.{Uuid}
use safeops.Model.Enums.{
  RiskLevel, ExecutionStatus, ApprovalStatus, PermissionType, PolicyAction, ToolRequestStatus,
  IncidentType, IncidentStatus, AuditEventType, StepType, StepStatus, IntegrationType,
  ExternalActionStatus,
}

pub record Agent : Type 0 where
  pub id : Uuid
  pub name : String
  pub kind : String

pub record Tool : Type 0 where
  pub id : Uuid
  pub name : String
  pub risk_category : RiskLevel

pub record Policy : Type 0 where
  pub id : Uuid
  pub policy_key : String
  pub agent_type : Option String
  pub agent_id : Option Uuid
  pub tool_id : Option Uuid
  pub priority : ℤ
  pub enabled : Bool
  pub action : PolicyAction
  pub conditions : Option Json

pub record AgentToolPermission : Type 0 where
  pub agent_id : Uuid
  pub tool_id : Uuid
  pub permission : PermissionType

-- The lease of a step is `stepping` with its claim and the time of the claim.
pub record Execution : Type 0 where
  pub id : Uuid
  pub agent_id : Uuid
  pub objective : String
  pub status : ExecutionStatus
  pub initial_context : Option Json
  pub stepping : Bool
  pub stepping_claim_id : Option Uuid
  pub stepping_claimed_at : Option ℕ
  pub completed_at : Option ℕ

-- `{"code": ..., "message": ...}`
pub record ToolError : Type 0 where
  pub code : String
  pub message : String

pub record ToolRequest : Type 0 where
  pub id : Uuid
  pub execution_id : Uuid
  pub agent_id : Uuid
  pub tool_id : Option Uuid
  pub tool_name : String
  pub arguments : Fields
  pub status : ToolRequestStatus
  pub completed_at : Option ℕ
  pub result : Option Fields
  pub error : Option ToolError

pub record PolicyDecision : Type 0 where
  pub id : Uuid
  pub execution_id : Uuid
  pub agent_id : Uuid
  pub tool_id : Uuid
  pub tool_request_id : Uuid
  pub decision : PolicyAction
  pub matched_policy_id : Option Uuid
  pub matched_policy_key : Option String
  pub reason : String
  pub evaluated_context : Fields

pub record RiskAssessment : Type 0 where
  pub id : Uuid
  pub execution_id : Uuid
  pub agent_id : Uuid
  pub tool_request_id : Uuid
  pub tool_id : Uuid
  pub policy_decision_id : Uuid
  pub risk_score : ℕ
  pub risk_level : RiskLevel
  pub signals : List IncidentType
  pub reason_codes : List String
  pub recommended_action : PolicyAction

pub record SecurityIncident : Type 0 where
  pub id : Uuid
  pub execution_id : Uuid
  pub agent_id : Uuid
  pub tool_request_id : Uuid
  pub risk_assessment_id : Uuid
  pub incident_type : IncidentType
  pub severity : RiskLevel
  pub indicators : List String
  pub status : IncidentStatus

pub record ApprovalRequest : Type 0 where
  pub id : Uuid
  pub execution_id : Uuid
  pub agent_id : Uuid
  pub tool_request_id : Uuid
  pub policy_decision_id : Uuid
  pub tool_name : String
  pub approved_arguments : Fields
  pub risk_level : RiskLevel
  pub reason : String
  pub status : ApprovalStatus
  pub expires_at : ℕ
  pub resolved_at : Option ℕ
  pub resolved_by : Option String
  pub executed_at : Option ℕ

pub record AuditEvent : Type 0 where
  pub execution_id : Uuid
  pub sequence : ℕ
  pub event_type : AuditEventType
  pub actor : String
  pub event_metadata : Fields

pub record ExecutionStep : Type 0 where
  pub id : Uuid
  pub execution_id : Uuid
  pub sequence : ℕ
  pub step_type : StepType
  pub tool_request_id : Option Uuid
  pub status : StepStatus
  pub input : Fields
  pub output : Option Fields
  pub completed_at : Option ℕ

pub record IntegrationAgentMapping : Type 0 where
  pub operator_id : Uuid
  pub agent_id : Uuid

pub record ExternalActionRequest : Type 0 where
  pub id : Uuid
  pub operator_id : Uuid
  pub integration_type : IntegrationType
  pub external_request_id : String
  pub external_agent_id : Option String
  pub safeops_agent_id : Uuid
  pub execution_id : Uuid
  pub tool_name : String
  pub tool_request_id : Option Uuid
  pub approval_request_id : Option Uuid
  pub payload_hash : String
  pub status : ExternalActionStatus
  pub result_summary : Option Json
  pub error_code : Option String
  pub completed_at : Option ℕ
