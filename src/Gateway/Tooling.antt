-- ===== src/Gateway/Tooling.antt =====
-- What the gateway is given and gives back: the tools of the registry (apps/api/app/tools/), a call
-- with all that its handlers pass on, and `GatewayResult`; and the rows that the handlers share.
use safeops.Prelude.{ℕ, String, Option, none, some, List}
use safeops.Json.{Json, Fields, str, num, obj, end, field}
use safeops.Json.Decimal.{of_ℕ}
use safeops.Model.Uuid.{Uuid}
use safeops.Model.Enums.{RiskLevel, IncidentType, ToolRequestStatus, AuditEventType}
use safeops.Model.Rows.{Agent, Tool, Execution, ToolRequest, ToolError}
use safeops.Model.Db.{Row, audit_event}
use safeops.Audit.{Builder}

-- `BaseTool.execute`: an unexpected exception, whose transaction the gateway rolls back, or a
-- `ToolResult`.
pub data ToolRun : Type 0 where
  crashed : ToolRun
  success : Fields → ToolRun
  failure : Option ToolError → ToolRun

-- A registered tool. `validate` gives the message of a ValidationError; `run` takes the tables of the
-- tools to what they are after the call, and after the rollback if it crashed.
pub record ToolImpl (W : Type 0) : Type 0 where
  pub validate : Fields → Option String
  pub run : Fields → W → ToolRun × W

-- `tool_registry.get`; `none` is a ToolNotFoundError.
abbrev pub Registry : Type 0 → Type 0
Registry W = String → Option (ToolImpl W)

pub record Call (W : Type 0) : Type 0 where
  pub agent : Agent
  pub execution : Execution
  pub tool : ToolImpl W
  pub tool_row : Tool
  pub tool_name : String
  pub arguments : Fields
  pub context : Option Json

pub data GatewayStatus : Type 0 where
  executed blocked requires_approval failed : GatewayStatus

pub record RiskSummary : Type 0 where
  pub risk_score : ℕ
  pub risk_level : RiskLevel
  pub risk_signals : List IncidentType

pub record GatewayResult : Type 0 where
  pub status : GatewayStatus
  pub tool_name : String
  pub tool_result : Option Fields
  pub decision : Option String
  pub reason : Option String
  pub matched_policy : Option String
  pub policy_id : Option Uuid
  pub approval_request_id : Option Uuid
  pub risk : Option RiskSummary

-- `GatewayResult(status=..., tool_name=..., decision=..., reason=...)`
abbrev pub plain_result : GatewayStatus → String → Option String → String → GatewayResult
plain_result status tool_name decision reason = record {
  status = status;
  tool_name = tool_name;
  tool_result = none;
  decision = decision;
  reason = some reason;
  matched_policy = none;
  policy_id = none;
  approval_request_id = none;
  risk = none;
}

abbrev pub event_row : Uuid → ℕ → AuditEventType → String → Fields → Row
event_row execution_id seq event_type actor metadata = audit_event (record {
  execution_id = execution_id;
  sequence = seq;
  event_type = event_type;
  actor = actor;
  event_metadata = metadata;
})

-- `{"tool_name": tool_name, ...}`
abbrev pub about_tool : String → Fields → Fields
about_tool tool_name rest = field "tool_name" (str tool_name) rest

abbrev pub error_json : ToolError → Json
error_json e = obj (field "code" (str e.code) (field "message" (str e.message) end))

abbrev pub number_json : ℕ → Json
number_json n = num (of_ℕ n)

-- A builder that issues no update of its own.
abbrev pub rows_only : {W : Type 0} → (ℕ → List Row) → Builder W
rows_only rows seq db = some (rows seq, db)

-- `ToolRequest(...)` as the gateway creates it.
abbrev pub new_request :
    Uuid → Uuid → Uuid → Option Uuid → String → Fields → ToolRequestStatus → ToolRequest
new_request id execution_id agent_id tool_id tool_name arguments status = record {
  id = id;
  execution_id = execution_id;
  agent_id = agent_id;
  tool_id = tool_id;
  tool_name = tool_name;
  arguments = arguments;
  status = status;
  completed_at = none;
  result = none;
  error = none;
}
