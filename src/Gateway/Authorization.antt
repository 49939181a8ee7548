-- ===== src/Gateway/Authorization.antt =====
-- `execute` as a whole: no effect of a tool, and no result EXECUTED, without every authorization.
use safeops.Prelude.{
  String, ◌≡◌, refl, inl, inr, ◌⊎◌, Option, none, some, find, str_eq, ◌==◌, ==_iff, Bool-cases,
  Option-cases,
}
use safeops.Json.{Json, Fields}
use safeops.Model.Uuid.{Uuid}
use safeops.Model.Enums.{PolicyAction}
use safeops.Model.Rows.{Agent, Tool, Execution}
use safeops.Model.Db.{Db}
use safeops.Exec.{◌>>=◌}
use safeops.Audit.Tables.{Same, Same-refl}
use safeops.Gateway.Tooling.{ToolImpl, Registry}
use safeops.Gateway.Permit.{policy_result}
use safeops.Gateway.Entry.{
  Grant, denied, conditional, allowed, lookup_grant, status_refusal, call_of, refuse,
  refuse_unknown, refuse_arguments, refuse_denied, with_grant, with_validation, with_tool,
  request_tool, with_status, with_execution, with_agent, execute,
}
use safeops.Gateway.Only.{Only, NotExecuted, Only-pure, Only-bind, Only-read, Only-weaken}
use safeops.Gateway.Guard.{
  RiskAllows, same_rules, handle_conditional-Only, handle_direct_allow-Only,
}

module _ {W : Type 0} (a : Db W) (agent : Agent) (ex : Execution) (name : String)
    (args : Fields) where
  -- What a grant needs besides: nothing helps a DENY, a CONDITIONAL needs a policy that allows, and
  -- both need the risk engine's ALLOW.
  abbrev pub GrantAllows : ToolImpl W → Option Json → Grant → Type 0
  GrantAllows tool context (denied row) = ⊥
  GrantAllows tool context (conditional row) =
      ((policy_result (call_of agent ex name args tool row context) a).decision
        ≡ PolicyAction.allow)
      × RiskAllows a (call_of agent ex name args tool row context)
  GrantAllows tool context (allowed row) =
      RiskAllows a (call_of agent ex name args tool row context)

  -- The arguments are valid, and the grant that the agent has for the tool's row allows the call.
  abbrev pub ToolAllows : ToolImpl W → Option Json → Type 0
  ToolAllows tool context =
      (tool.validate args ≡ none)
      × GrantAllows tool context
          (lookup_grant agent (find (λ t. str_eq t.name name) a.tools) a.permissions)

  with_grant-Only :
      (tool : ToolImpl W) (context : Option Json) (g : Grant)
      → Only (Same a) (GrantAllows tool context g) (with_grant agent ex name args tool context g)
  unfolding with_grant refuse_denied refuse
  with_grant-Only tool context (denied row) = Only-bind _ _ (search same_rules) λ id.
      Only-bind _ _ (search same_rules)
        λ t. Only-bind _ _ (search same_rules) λ done. Only-pure _ (λ e. cc)
  with_grant-Only tool context (conditional row) = handle_conditional-Only a _
  with_grant-Only tool context (allowed row) = handle_direct_allow-Only a _

  with_validation-Only :
      (tool : ToolImpl W) (context : Option Json) (row : Option Tool) (message : Option String)
      → Only
          (Same a)
          ((message ≡ none) × GrantAllows tool context (lookup_grant agent row a.permissions))
          (with_validation agent ex name args tool context row message)
  unfolding with_validation refuse_arguments refuse
  with_validation-Only tool context row (some message) = Only-bind _ _ (search same_rules) λ id.
      Only-bind _ _ (search same_rules)
        λ t. Only-bind _ _ (search same_rules) λ done. Only-pure _ (λ e. cc)
  with_validation-Only tool context row none =
      Only-read (λ db. lookup_grant agent row db.permissions) _
        λ db same. rw same.permissions (
          Only-weaken _ (λ g. (refl, g))
            (with_grant-Only tool context (lookup_grant agent row a.permissions)))

  with_tool-Only :
      (tool : Option (ToolImpl W)) (context : Option Json)
      → Only
          (Same a)
          ((t : ToolImpl W) × (tool ≡ some t) × ToolAllows t context)
          (with_tool agent ex name args tool context)
  unfolding with_tool refuse_unknown refuse
  with_tool-Only none context = Only-bind _ _ (search same_rules) λ id.
      Only-bind _ _ (search same_rules)
        λ t. Only-bind _ _ (search same_rules) λ done. Only-pure _ (λ e. cc)
  with_tool-Only (some tool) context =
      Only-read (λ db. find (λ t. str_eq t.name name) db.tools) _
        λ db same. rw same.tools (
          Only-weaken _ (λ g. (tool, refl, g))
            (with_validation-Only tool context (find (λ t. str_eq t.name name) a.tools)
              (tool.validate args)))

  pub request_tool-Only :
      (registry : Registry W) (context : Option Json)
      → Only
          (Same a)
          ((t : ToolImpl W) × (registry name ≡ some t) × ToolAllows t context)
          (request_tool agent ex name args registry context)
  unfolding request_tool
  request_tool-Only registry context =
      Only-bind _ _ (search same_rules) λ done. with_tool-Only (registry name) context

-- Everything that a call needs: the agent and the execution exist, the execution is the agent's and
-- takes calls, the tool is registered, its arguments are valid, and the permission, the policy where
-- the permission is conditional, and the risk assessment all allow it.
abbrev pub Authorized :
    {W : Type 0} → Db W → Registry W → Uuid → Uuid → String → Fields → Option Json → Type 0
Authorized {W} db registry agent_id execution_id name args context =
    (agent : Agent) × (ex : Execution) × (tool : ToolImpl W) × (find
        (λ (x : Agent). x.id == agent_id) db.agents
      ≡ some agent)
    × (find (λ (x : Execution). x.id == execution_id) db.executions ≡ some ex)
    × (ex.agent_id ≡ agent.id)
    × (status_refusal ex.status ≡ none)
    × (registry name ≡ some tool)
    × ToolAllows db agent ex name args tool context

-- Either a call leaves the tools' tables and the authorizing tables as they were and does not report
-- EXECUTED, or every authorization was given: an existing agent, its own execution in a status
-- that takes calls, a registered tool, valid arguments, a permission that is not DENY, an ALLOW of
-- the policy engine where the permission is CONDITIONAL, and an ALLOW of the risk engine. This
-- holds whatever the tools do and whatever other writers commit in between.
pub execute-Authorized :
    {W : Type 0} (registry : Registry W) (agent_id execution_id : Uuid) (name : String)
    (args : Fields) (context : Option Json) (db : Db W)
    → (Same db (execute registry agent_id execution_id name args context db).1
        × NotExecuted (execute registry agent_id execution_id name args context db).0)
      ⊎ Authorized db registry agent_id execution_id name args context
unfolding execute with_agent with_execution with_status ◌>>=◌
execute-Authorized registry agent_id execution_id name args context db =
    elim (Option-cases (find (λ x. x.id == agent_id) db.agents)) [
      | inl no_agent ↦ rw no_agent (inl (Same-refl db, λ e. cc))
      | inr (agent, ea) ↦ elim (Option-cases (find (λ x. x.id == execution_id) db.executions)) [
        | inl no_execution ↦ rw (ea, no_execution) (inl (Same-refl db, λ e. cc))
        | inr (ex, ee) ↦ elim (Bool-cases (ex.agent_id == agent.id)) [
          | inr foreign ↦ rw (ea, ee, foreign) (inl (Same-refl db, λ e. cc))
          | inl own ↦ elim (Option-cases (status_refusal ex.status)) [
            | inr (text, refused) ↦ rw (ea, ee, own, refused) (inl (Same-refl db, λ e. cc))
            | inl accepted ↦
                rw (ea, ee, own, accepted)
                  (elim ((request_tool-Only db agent ex name args registry context).at db
                    (Same-refl db)) [
                      | inl same ↦ inl same
                      | inr (tool, et, allows) ↦ inr (
                        agent,
                        ex,
                        tool,
                        refl,
                        refl,
                        (==_iff ex.agent_id agent.id).0 own,
                        accepted,
                        et,
                        allows,
                      )
                    ])
          ]
        ]
      ]
    ]
