-- ===== src/Tests/Fixtures.antt =====
-- A support agent that may refund up to 100 on its own, one execution of it, and a refund tool.
use safeops.Prelude.{ℕ, suc, String, true, false, none, some, List, [], ◌∷◌, str_eq, if◌then◌else◌}
use safeops.Prelude.Int.{pos}
use safeops.Json.{Json, Fields, str, num, obj, end, field, has}
use safeops.Json.Decimal.{of_ℕ}
use safeops.Model.Enums.{
  RiskLevel, ExecutionStatus, ApprovalStatus, ToolRequestStatus, PermissionType, PolicyAction,
  AuditEventType,
}
use safeops.Model.Rows.{Agent, Tool, Policy, Execution, AuditEvent, ToolRequest, ApprovalRequest}
use safeops.Model.Db.{Db, Rival}
use safeops.Approval.Entry.{Operator}
use safeops.Gateway.Tooling.{ToolImpl, Registry, success}

abbrev pub agent : Agent
agent = record { id = 1; name = "helper"; kind = "support" }

abbrev pub tool : Tool
tool = record { id = 2; name = "issue_refund"; risk_category = RiskLevel.high }

abbrev pub leaf : String → String → Json → Json
leaf name operator value =
    obj (field "field" (str name) (field "operator" (str operator) (field "value" value end)))

abbrev pub up_to_100 : Json
up_to_100 = leaf "arguments.amount" "lte" (num (of_ℕ 100))

abbrev pub small_refunds : Policy
small_refunds = record {
  id = 21;
  policy_key = "small-refunds";
  agent_type = some "support";
  agent_id = none;
  tool_id = some 2;
  priority = pos 10;
  enabled = true;
  action = PolicyAction.allow;
  conditions = some up_to_100;
}

abbrev pub no_refunds : Policy
no_refunds = record small_refunds {
  id = 22;
  policy_key = "no-refunds";
  agent_type = none;
  priority = pos 90;
  action = PolicyAction.block;
  conditions = none;
}

abbrev pub policies : List Policy
policies = no_refunds ∷ small_refunds ∷ []

abbrev pub refund_of : ℕ → Fields
refund_of n = field "amount" (num (of_ℕ n)) end

abbrev pub running : Execution
running = record {
  id = 3;
  agent_id = 1;
  objective = "Refund order 77";
  status = ExecutionStatus.running;
  initial_context = none;
  stepping = false;
  stepping_claim_id = none;
  stepping_claimed_at = none;
  completed_at = none;
}

-- What the tool changes is the number of refunds paid.
abbrev pub refund_tool : ToolImpl ℕ
refund_tool = record {
  validate = λ args. if has "amount" args then none else some "amount: field required";
  run = λ args paid. (success end, suc paid);
}

abbrev pub registry : Registry ℕ
registry name = if str_eq name "issue_refund" then some refund_tool else none

abbrev pub started : AuditEvent
started = record {
  execution_id = 3;
  sequence = 1;
  event_type = AuditEventType.execution_started;
  actor = "helper";
  event_metadata = end;
}

-- Another writer takes the next sequence number first.
abbrev pub rival : Rival
rival = record {
  events = record started { sequence = 2 } ∷ [];
  moves = none;
  resolves = none;
  steps = [];
  leases = none;
  externals = [];
}

abbrev pub store : Db ℕ
store = record {
  agents = agent ∷ [];
  tools = tool ∷ [];
  permissions = record { agent_id = 1; tool_id = 2; permission = PermissionType.conditional } ∷ [];
  policies = policies;
  executions = running ∷ [];
  tool_requests = [];
  policy_decisions = [];
  risk_assessments = [];
  incidents = [];
  approvals = [];
  steps = [];
  mappings = [];
  externals = [];
  events = started ∷ [];
  world = 0;
  clock = 1000;
  next_id = 100;
  rivals = rival ∷ [];
}

-- The refund of 250 that a human has to approve, with a quarter of an hour to do so.
abbrev pub parked : ApprovalRequest
parked = record {
  id = 40;
  execution_id = 3;
  agent_id = 1;
  tool_request_id = 41;
  policy_decision_id = 42;
  tool_name = "issue_refund";
  approved_arguments = refund_of 250;
  risk_level = RiskLevel.high;
  reason = "Refund above 100";
  status = ApprovalStatus.pending;
  expires_at = 1900;
  resolved_at = none;
  resolved_by = none;
  executed_at = none;
}

abbrev pub parked_request : ToolRequest
parked_request = record {
  id = 41;
  execution_id = 3;
  agent_id = 1;
  tool_id = some 2;
  tool_name = "issue_refund";
  arguments = refund_of 250;
  status = ToolRequestStatus.requires_approval;
  completed_at = some 1000;
  result = none;
  error = none;
}

abbrev pub waiting_store : Db ℕ
waiting_store = record store {
  executions = record running { status = ExecutionStatus.waiting_approval } ∷ [];
  tool_requests = parked_request ∷ [];
  approvals = parked ∷ [];
  rivals = [];
}

abbrev pub operator : Operator
operator = record { id = 9; username = "alice" }
