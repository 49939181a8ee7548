-- ===== src/Gateway/Entry.antt =====
-- `execute`: the guards of a call and the lookup of its permission.
--
-- The arguments are JSON already, so that `_json_safe` is the identity on them.
use safeops.Prelude.{
  ℕ, suc, String, not, ◌&&◌, Option, none, some, List, [], ◌∷◌, ◌++◌, ◌==◌, str_eq, if◌then◌else◌,
  find, append_text,
}
use safeops.Json.{Json, Fields, str, obj, end, field}
use safeops.Model.Uuid.{Uuid}
use safeops.Model.Enums.{
  PermissionType, ExecutionStatus, status_text, ToolRequestStatus, AuditEventType,
}
use safeops.Model.Rows.{Agent, Tool, AgentToolPermission, Execution, ToolError}
use safeops.Model.Db.{Row, tool_request}
use safeops.Exec.{Exec, pure, gets, now, fresh, ◌>>=◌, ◌>>◌}
use safeops.Audit.{commit_chunk}
use safeops.Gateway.Tooling.{
  ToolImpl, Registry, Call, GatewayResult, blocked, failed, plain_result, event_row, about_tool,
  rows_only, new_request,
}
use safeops.Gateway.Permit.{handle_conditional, handle_direct_allow}

-- Why an execution of this status takes no call; `none` lets the call pass.
abbrev pub status_refusal : ExecutionStatus → Option String
status_refusal ExecutionStatus.created = none
status_refusal ExecutionStatus.running = none
status_refusal ExecutionStatus.waiting_approval =
    some "Execution is waiting for approval and cannot accept new tool calls"
status_refusal status = some (
    append_text "Execution is "
      (append_text (status_text status) " and cannot accept new tool calls"))

-- The permission of an agent for a tool. A tool with no row in the database has none, and no
-- permission means DENY.
pub data Grant : Type 0 where
  denied : Option Tool → Grant
  conditional allowed : Tool → Grant

abbrev pub grant_of : Tool → Option AgentToolPermission → Grant
grant_of t none = denied (some t)
grant_of t (some p) = elim p.permission [
  | PermissionType.allow ↦ allowed t
  | PermissionType.deny ↦ denied (some t)
  | PermissionType.conditional ↦ conditional t
]

abbrev pub find_permission : Agent → Tool → List AgentToolPermission → Option AgentToolPermission
find_permission agent t = find (λ p. p.agent_id == agent.id && p.tool_id == t.id)

abbrev pub lookup_grant : Agent → Option Tool → List AgentToolPermission → Grant
lookup_grant agent none permissions = denied none
lookup_grant agent (some t) permissions = grant_of t (find_permission agent t permissions)

abbrev pub id_of : Option Tool → Option Uuid
id_of none = none
id_of (some t) = some t.id

abbrev pub tool_failed_because : Agent → Execution → String → ℕ → List Row
tool_failed_because agent ex reason seq =
    event_row ex.id seq AuditEventType.tool_failed agent.name (field "reason" (str reason) end) ∷ []

module _ {W : Type 0} (agent : Agent) (ex : Execution) (tool_name : String)
    (arguments : Fields) where
  -- A request that ends at once, with its error, behind the events of its refusal.
  unfoldable pub refuse :
      (ℕ → List Row)
      → Option Uuid
      → ToolRequestStatus
      → ToolError
      → GatewayResult
      → Exec W GatewayResult
  refuse events tool_id status error result = do
    request_id ← fresh
    completed_at ← now
    commit_chunk ex.id (
        rows_only λ seq.
          events seq
          ++ tool_request
              (record (new_request request_id ex.id agent.id tool_id tool_name arguments status) {
                completed_at = some completed_at;
                error = some error;
              })
            ∷ [])
    pure result

  unfoldable pub refuse_unknown : Exec W GatewayResult
  refuse_unknown =
      refuse (tool_failed_because agent ex "unknown tool") none ToolRequestStatus.failed
        (record {
          code = "TOOL_NOT_FOUND";
          message = append_text "No tool named '" (append_text tool_name "'");
        })
        (plain_result failed tool_name none "Unknown tool")

  unfoldable pub refuse_arguments : Option Tool → String → Exec W GatewayResult
  refuse_arguments row message =
      refuse (tool_failed_because agent ex "invalid arguments") (id_of row) ToolRequestStatus.failed
        (record { code = "INVALID_ARGUMENTS"; message = message })
        (plain_result failed tool_name none "Invalid arguments")

  unfoldable pub refuse_denied : Option Tool → Exec W GatewayResult
  refuse_denied row =
      refuse
        (λ seq.
          event_row ex.id seq AuditEventType.permission_checked agent.name
            (about_tool tool_name (field "permission" (str "DENY") end))
          ∷ event_row ex.id (suc seq) AuditEventType.action_denied agent.name
              (about_tool tool_name end)
          ∷ [])
        (id_of row) ToolRequestStatus.denied
        (record { code = "PERMISSION_DENIED"; message = "Agent does not have permission" })
        (plain_result blocked tool_name (some "DENY") "Agent does not have permission")

  abbrev pub call_of : ToolImpl W → Tool → Option Json → Call W
  call_of tool row context = record {
    agent = agent;
    execution = ex;
    tool = tool;
    tool_row = row;
    tool_name = tool_name;
    arguments = arguments;
    context = context;
  }

  unfoldable pub with_grant : ToolImpl W → Option Json → Grant → Exec W GatewayResult
  with_grant tool context (denied row) = refuse_denied row
  with_grant tool context (conditional row) = handle_conditional (call_of tool row context)
  with_grant tool context (allowed row) = handle_direct_allow (call_of tool row context)

  -- `tool.input_schema.model_validate(arguments)`
  unfoldable pub with_validation :
      ToolImpl W → Option Json → Option Tool → Option String → Exec W GatewayResult
  with_validation tool context row (some message) = refuse_arguments row message
  with_validation tool context row none = do
    grant ← gets (λ db. lookup_grant agent row db.permissions)
    with_grant tool context grant

  unfoldable pub with_tool : Option (ToolImpl W) → Option Json → Exec W GatewayResult
  with_tool none context = refuse_unknown
  with_tool (some tool) context = do
    row ← gets (λ db. find (λ t. str_eq t.name tool_name) db.tools)
    with_validation tool context row (tool.validate arguments)

  unfoldable pub request_tool : Registry W → Option Json → Exec W GatewayResult
  request_tool registry context = do
    commit_chunk ex.id (
        rows_only λ seq.
          event_row ex.id seq AuditEventType.tool_requested agent.name
            (about_tool tool_name (field "arguments" (obj arguments) end))
          ∷ [])
    with_tool (registry tool_name) context

module _ {W : Type 0} (registry : Registry W) (tool_name : String) (arguments : Fields) where
  unfoldable pub with_status :
      Agent → Execution → Option Json → Option String → Exec W GatewayResult
  with_status agent ex context (some refusal) = pure (plain_result failed tool_name none refusal)
  with_status agent ex context none = request_tool agent ex tool_name arguments registry context

  unfoldable pub with_execution : Agent → Option Execution → Option Json → Exec W GatewayResult
  with_execution agent none context =
      pure (plain_result failed tool_name none "Execution not found")
  with_execution agent (some ex) context =
      if not (ex.agent_id == agent.id)
      then pure (plain_result failed tool_name none "Execution does not belong to this agent")
      else with_status agent ex context (status_refusal ex.status)

  unfoldable pub with_agent : Option Agent → Uuid → Option Json → Exec W GatewayResult
  with_agent none execution_id context = pure (plain_result failed tool_name none "Agent not found")
  with_agent (some agent) execution_id context = do
    ex ← gets (λ db. find (λ x. x.id == execution_id) db.executions)
    with_execution agent ex context

-- `ToolGateway.execute`
unfoldable pub execute :
    {W : Type 0} → Registry W → Uuid → Uuid → String → Fields → Option Json → Exec W GatewayResult
execute registry agent_id execution_id tool_name arguments context = do
  agent ← gets (λ db. find (λ a. a.id == agent_id) db.agents)
  with_agent registry tool_name arguments agent execution_id context
