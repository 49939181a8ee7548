-- ===== src/Gateway/LogEntry.antt =====
-- `execute` under invariants of the services, the growth of the audit log among them.
use safeops.Prelude.{String, Option, none, some, ◌==◌, Bool-cases, inl, inr}
use safeops.Json.{Json, Fields}
use safeops.Model.Uuid.{Uuid}
use safeops.Model.Rows.{Agent, Tool, Execution}
use safeops.Model.Db.{Db}
use safeops.Exec.Keeps.{Keeps}
use safeops.Audit.Invariant.{IsInvariant, IgnoresWorld}
use safeops.Gateway.Tooling.{ToolImpl, Registry}
use safeops.Gateway.Entry.{
  Grant, denied, conditional, allowed, refuse, refuse_unknown, refuse_arguments, refuse_denied,
  with_grant, with_validation, with_tool, request_tool, with_status, with_execution, with_agent,
  execute,
}
use safeops.Gateway.Log.{log_rules, handle_conditional-Keeps, handle_direct_allow-Keeps}

module _ {W : Type 0} {P : Db W → Type 0} (inv : IsInvariant P) (w : IgnoresWorld P) (agent : Agent)
    (ex : Execution) (name : String) (args : Fields) where
  with_grant-Keeps :
      (tool : ToolImpl W) (context : Option Json) (g : Grant)
      → Keeps P (with_grant agent ex name args tool context g)
  unfolding with_grant refuse_denied refuse
  with_grant-Keeps tool context (denied row) = search log_rules
  with_grant-Keeps tool context (conditional row) = search handle_conditional-Keeps
  with_grant-Keeps tool context (allowed row) = search handle_direct_allow-Keeps

  with_validation-Keeps :
      (tool : ToolImpl W) (context : Option Json) (row : Option Tool) (message : Option String)
      → Keeps P (with_validation agent ex name args tool context row message)
  unfolding with_validation refuse_arguments refuse
  with_validation-Keeps tool context row (some message) = search log_rules
  with_validation-Keeps tool context row none = search (log_rules, with_grant-Keeps)

  with_tool-Keeps :
      (tool : Option (ToolImpl W)) (context : Option Json)
      → Keeps P (with_tool agent ex name args tool context)
  unfolding with_tool refuse_unknown refuse
  with_tool-Keeps none context = search log_rules
  with_tool-Keeps (some tool) context = search (log_rules, with_validation-Keeps)

  request_tool-Keeps :
      (registry : Registry W) (context : Option Json)
      → Keeps P (request_tool agent ex name args registry context)
  unfolding request_tool
  request_tool-Keeps registry context = search (log_rules, with_tool-Keeps)

module _ {W : Type 0} {P : Db W → Type 0} (inv : IsInvariant P) (w : IgnoresWorld P)
    (registry : Registry W) (name : String) (args : Fields) where
  with_status-Keeps :
      (agent : Agent) (ex : Execution) (context : Option Json) (refusal : Option String)
      → Keeps P (with_status registry name args agent ex context refusal)
  unfolding with_status
  with_status-Keeps agent ex context (some refusal) = search log_rules
  with_status-Keeps agent ex context none = search (request_tool-Keeps)

  with_execution-Keeps :
      (agent : Agent) (ex : Option Execution) (context : Option Json)
      → Keeps P (with_execution registry name args agent ex context)
  unfolding with_execution
  with_execution-Keeps agent none context = search log_rules
  with_execution-Keeps agent (some ex) context = elim (Bool-cases (ex.agent_id == agent.id)) [
    | inl own ↦ rw own (search with_status-Keeps)
    | inr foreign ↦ rw foreign (search log_rules)
  ]

  with_agent-Keeps :
      (agent : Option Agent) (id : Uuid) (context : Option Json)
      → Keeps P (with_agent registry name args agent id context)
  unfolding with_agent
  with_agent-Keeps none id context = search log_rules
  with_agent-Keeps (some agent) id context = search (log_rules, with_execution-Keeps)

  pub execute-Keeps :
      (agent_id execution_id : Uuid) (context : Option Json)
      → Keeps P (execute registry agent_id execution_id name args context)
  unfolding execute
  execute-Keeps agent_id execution_id context = search (log_rules, with_agent-Keeps)
