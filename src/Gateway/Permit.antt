-- ===== src/Gateway/Permit.antt =====
-- `_handle_direct_allow` and `_handle_conditional`: a call that the permission lets through, with the
-- policy's decision on it.
use safeops.Prelude.{ℕ, suc, String, Option, none, some, List, [], ◌∷◌, str_eq, if◌then◌else◌}
use safeops.Json.{Fields, str, end, field}
use safeops.Model.Uuid.{Uuid}
use safeops.Model.Enums.{PolicyAction, ToolRequestStatus, AuditEventType}
use safeops.Model.Rows.{ToolRequest}
use safeops.Model.Db.{Db, Row, tool_request, policy_decision}
use safeops.Exec.{Exec, pure, gets, now, fresh, ◌>>=◌, ◌>>◌}
use safeops.Audit.{commit_chunk}
use safeops.Policy.Conditions.{Result, ok, raised}
use safeops.Policy.Engine.{PolicyEvaluationResult, evaluate, evaluation_context, blocked_because}
use safeops.Gateway.Tooling.{
  Call, GatewayResult, blocked, event_row, about_tool, rows_only, new_request,
}
use safeops.Gateway.Assess.{Settled, assess_risk_and_finalize}

abbrev pub policy_error : String
policy_error = "POLICY_EVALUATION_ERROR: policy evaluation failed"

-- An exception of the policy engine is a BLOCK.
abbrev pub or_policy_error : Result PolicyEvaluationResult → Fields → PolicyEvaluationResult
or_policy_error (ok r) context = r
or_policy_error (raised e) context = blocked_because policy_error context

abbrev pub terminal_event : PolicyAction → AuditEventType
terminal_event PolicyAction.allow = AuditEventType.policy_allowed
terminal_event PolicyAction.require_approval = AuditEventType.policy_approval_required
terminal_event PolicyAction.block = AuditEventType.policy_blocked

abbrev pub settled_by : Uuid → PolicyEvaluationResult → Settled
settled_by decision_id r = record {
  decision_id = decision_id;
  action = r.decision;
  reason = r.reason;
  matched_policy = r.matched_policy;
  policy_id = r.policy_id;
  extra_rows = [];
}

module _ {W : Type 0} where
  -- `PolicyDecision(...)` of a policy's result.
  abbrev pub decision_row : Call W → Uuid → Uuid → PolicyEvaluationResult → Row
  decision_row c request_id decision_id r = policy_decision (record {
    id = decision_id;
    execution_id = c.execution.id;
    agent_id = c.agent.id;
    tool_id = c.tool_row.id;
    tool_request_id = request_id;
    decision = r.decision;
    matched_policy_id = r.policy_id;
    matched_policy_key = r.matched_policy;
    reason = r.reason;
    evaluated_context = r.context;
  })

  abbrev pub outcome_tail : Call W → ToolRequest → Uuid → PolicyEvaluationResult → ℕ → List Row
  outcome_tail c request decision_id r seq =
      event_row c.execution.id seq (terminal_event r.decision) c.agent.name
        (about_tool c.tool_name (field "reason" (str r.reason) end))
      ∷ decision_row c request.id decision_id r
      ∷ tool_request request
      ∷ []

  -- `_policy_outcome_rows`. A policy without a key counts as none.
  abbrev pub matched_rows :
      Call W → ToolRequest → Uuid → PolicyEvaluationResult → Option String → ℕ → List Row
  matched_rows c request decision_id r none seq = outcome_tail c request decision_id r seq
  matched_rows c request decision_id r (some key) seq =
      if str_eq key ""
      then outcome_tail c request decision_id r seq
      else event_row c.execution.id seq AuditEventType.policy_matched c.agent.name
          (about_tool c.tool_name (field "matched_policy" (str key) end))
        ∷ outcome_tail c request decision_id r (suc seq)

  abbrev pub policy_outcome_rows :
      Call W → ToolRequest → Uuid → PolicyEvaluationResult → ℕ → List Row
  policy_outcome_rows c request decision_id r =
      matched_rows c request decision_id r r.matched_policy

  -- A BLOCK of the policy ends the call.
  unfoldable pub policy_block : Call W → ToolRequest → PolicyEvaluationResult → Exec W GatewayResult
  policy_block c request r = do
    decision_id ← fresh
    completed_at ← now
    commit_chunk c.execution.id (
        rows_only (
          policy_outcome_rows c
            (record request {
              status = ToolRequestStatus.denied;
              completed_at = some completed_at;
              error = some (record { code = "POLICY_BLOCKED"; message = r.reason });
            })
            decision_id r))
    pure (record {
      status = blocked;
      tool_name = c.tool_name;
      tool_result = none;
      decision = some "BLOCK";
      reason = some r.reason;
      matched_policy = r.matched_policy;
      policy_id = r.policy_id;
      approval_request_id = none;
      risk = none;
    })

  -- Any other decision of the policy is recorded, and the risk assessment follows.
  unfoldable pub policy_pass : Call W → ToolRequest → PolicyEvaluationResult → Exec W GatewayResult
  policy_pass c request r = do
    decision_id ← fresh
    commit_chunk c.execution.id (rows_only (policy_outcome_rows c request decision_id r))
    assess_risk_and_finalize c request (settled_by decision_id r)

  unfoldable pub after_policy :
      Call W → ToolRequest → PolicyEvaluationResult → PolicyAction → Exec W GatewayResult
  after_policy c request r PolicyAction.block = policy_block c request r
  after_policy c request r PolicyAction.allow = policy_pass c request r
  after_policy c request r PolicyAction.require_approval = policy_pass c request r

  abbrev pub pending : Call W → Uuid → ToolRequest
  pending c id =
      new_request id c.execution.id c.agent.id (some c.tool_row.id) c.tool_name c.arguments
        ToolRequestStatus.requested

  abbrev pub permission_event : Call W → String → ℕ → Row
  permission_event c permission seq =
      event_row c.execution.id seq AuditEventType.permission_checked c.agent.name
        (about_tool c.tool_name (field "permission" (str permission) end))

  -- `policy_engine.evaluate(...)` on the rows of this moment.
  abbrev pub policy_result : Call W → Db W → PolicyEvaluationResult
  policy_result c db =
      or_policy_error (evaluate c.agent c.tool_row c.arguments c.execution.id db.policies)
        (evaluation_context c.agent c.tool_row c.execution.id c.arguments)

  unfoldable pub handle_conditional : Call W → Exec W GatewayResult
  handle_conditional c = do
    request_id ← fresh
    commit_chunk c.execution.id (
        rows_only λ seq.
          permission_event c "CONDITIONAL" seq
          ∷ event_row c.execution.id (suc seq) AuditEventType.policy_evaluation_started c.agent.name
              (about_tool c.tool_name end)
          ∷ tool_request (pending c request_id)
          ∷ [])
    r ← gets (policy_result c)
    after_policy c (pending c request_id) r r.decision

  -- No policy stands behind a direct ALLOW: the decision that it refers to is synthesized.
  unfoldable pub handle_direct_allow : Call W → Exec W GatewayResult
  handle_direct_allow c = do
    request_id ← fresh
    commit_chunk c.execution.id
        (rows_only λ seq. permission_event c "ALLOW" seq ∷ tool_request (pending c request_id) ∷ [])
    decision_id ← fresh
    assess_risk_and_finalize c (pending c request_id) (record {
      decision_id = decision_id;
      action = PolicyAction.allow;
      reason = "Direct permission ALLOW";
      matched_policy = none;
      policy_id = none;
      extra_rows =
          decision_row c request_id decision_id (record {
            decision = PolicyAction.allow;
            reason = "Direct permission ALLOW";
            matched_policy = none;
            policy_id = none;
            context = end;
          })
          ∷ [];
    })
