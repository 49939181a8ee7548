-- ===== src/External/Entry.antt =====
-- `submit` and `get_status` of the ExternalActionService.
use safeops.Prelude.{
  String, Bool, true, false, ◌&&◌, Option, none, some, List, [], ◌∷◌, ◌++◌, ◌==◌, str_eq,
  if◌then◌else◌, find, any, append_text,
}
use safeops.Json.{Json, Fields, str, obj, end, field}
use safeops.Model.Uuid.{Uuid}
use safeops.Model.Enums.{
  ApprovalStatus, IntegrationType, integration_text, ExternalActionStatus, AuditEventType,
}
use safeops.Model.Rows.{
  Agent, Execution, ExecutionStep, ApprovalRequest, IntegrationAgentMapping, ExternalActionRequest,
}
use safeops.Model.Db.{same_request, interfere}
use safeops.Exec.{
  Exec, Error, integrity_error, external_action_error, returned, pure, gets, throw, fresh, ◌>>=◌,
  ◌>>◌,
}
use safeops.Gateway.Tooling.{Registry}
use safeops.Approval.Expire.{find_approval}
use safeops.Planner.{Planner, Source, ToolAction}
use safeops.Runtime.Results.{
  RuntimeStatus, RuntimeResult, call_executed, call_waiting, call_blocked, ended_failed,
}
use safeops.Runtime.Lease.{find_execution}
use safeops.Runtime.Advance.{Settings}
use safeops.Runtime.Entry.{start_execution, submit_external_action, reconcile_external_step}
use safeops.External.Request.{
  SubmitActionRequest, Digest, normalize_sources, canonical_payload, objective_of, text_or_null,
  ActionResponse, to_action_response, find_existing,
}
use safeops.External.Outcome.{
  find_matching_step, or_old, applied, update_external, refreshed, emit_audit, about_request,
  write_back, sync_from_step,
}

abbrev pub unknown_agent : Error
unknown_agent = external_action_error 404 "UNKNOWN_AGENT"

abbrev pub mapping_denied : Error
mapping_denied = external_action_error 403 "AGENT_MAPPING_DENIED"

abbrev pub idempotency_conflict : Error
idempotency_conflict = external_action_error 409 "IDEMPOTENCY_CONFLICT"

abbrev pub unknown_execution : Error
unknown_execution = external_action_error 404 "UNKNOWN_EXECUTION"

abbrev pub processing_conflict : Error
processing_conflict = external_action_error 503 "ACTION_PROCESSING_CONFLICT"

abbrev pub unknown_action : Error
unknown_action = external_action_error 404 "UNKNOWN_ACTION"

-- What else is an internal error: the new execution has gone.
abbrev pub internal_error : Error
internal_error = external_action_error 500 "INTERNAL_ERROR"

abbrev pub is_mapped : Uuid → Uuid → List IntegrationAgentMapping → Bool
is_mapped operator_id agent_id = any (λ m. m.operator_id == operator_id && m.agent_id == agent_id)

-- The status of the request, by that of the runtime's result; `none` where the execution is busy.
abbrev pub with_result :
    RuntimeResult → RuntimeStatus → Option (ExternalActionRequest → ExternalActionRequest)
with_result r call_executed = some (λ e. record e { status = ExternalActionStatus.executed })
with_result r call_waiting = some (λ e. record e {
  status = ExternalActionStatus.waiting_approval;
  approval_request_id = or_old r.approval_request_id e.approval_request_id;
})
with_result r call_blocked =
    some
      (λ e. record e { status = ExternalActionStatus.blocked; error_code = some "ACTION_BLOCKED" })
with_result r ended_failed = some (λ e. record e {
  status = ExternalActionStatus.failed;
  error_code = some "TOOL_EXECUTION_FAILED";
})
with_result r status = none

abbrev pub is_resolved : Option ApprovalRequest → Bool
is_resolved none = false
is_resolved (some p) = elim p.status [ ApprovalStatus.pending ↦ false | _ ↦ true ]

abbrev pub approval_named : Option Uuid → List ApprovalRequest → Option ApprovalRequest
approval_named none approvals = none
approval_named (some id) approvals = find_approval id approvals

abbrev pub begun : ExternalActionRequest → ExternalActionRequest
begun e = record e { status = ExternalActionStatus.processing }

-- `f"External action via {ext_request.integration_type.value} integration"`
abbrev pub action_reason : IntegrationType → String
action_reason t =
    append_text "External action via " (append_text (integration_text t) " integration")

abbrev pub action_of : ExternalActionRequest → Fields → List Source → ToolAction
action_of e arguments sources = record {
  tool_name = e.tool_name;
  arguments = arguments;
  reason = action_reason e.integration_type;
  sources = sources;
}

abbrev pub new_request :
    Uuid → Uuid → SubmitActionRequest → Uuid → Uuid → String → ExternalActionRequest
new_request id operator_id r agent_id execution_id payload_hash = record {
  id = id;
  operator_id = operator_id;
  integration_type = r.integration_type;
  external_request_id = r.external_request_id;
  external_agent_id = r.external_agent_id;
  safeops_agent_id = agent_id;
  execution_id = execution_id;
  tool_name = r.tool_name;
  tool_request_id = none;
  approval_request_id = none;
  payload_hash = payload_hash;
  status = ExternalActionStatus.received;
  result_summary = none;
  error_code = none;
  completed_at = none;
}

abbrev pub start_context : SubmitActionRequest → Json
start_context r = obj (
    field "integration_type" (str (integration_text r.integration_type))
      (field "external_agent_id" (text_or_null r.external_agent_id) end))

module _ {W : Type 0} where
  abbrev pub if_mapped : Agent → Bool → Exec W Agent
  if_mapped agent false = throw mapping_denied
  if_mapped agent true = pure agent

  abbrev pub check_mapping : Uuid → Uuid → Option Agent → Exec W Agent
  check_mapping operator_id agent_id none = throw unknown_agent
  check_mapping operator_id agent_id (some agent) = do
    mapped ← gets (λ db. is_mapped operator_id agent_id db.mappings)
    if_mapped agent mapped

  unfoldable pub require_agent_mapping : Uuid → Uuid → Exec W Agent
  require_agent_mapping operator_id agent_id = do
    agent ← gets (λ db. find (λ a. a.id == agent_id) db.agents)
    check_mapping operator_id agent_id agent

  abbrev pub unless_conflict : Bool → Exec W Unit
  unless_conflict true = pure tt
  unless_conflict false = throw idempotency_conflict

  unfoldable pub check_hash_or_conflict : ExternalActionRequest → String → Exec W Unit
  check_hash_or_conflict e payload_hash = unless_conflict (str_eq e.payload_hash payload_hash)

  -- An execution that is named must be one of the agent's.
  abbrev pub own_execution : Agent → Option Execution → Exec W Execution
  own_execution agent none = throw unknown_execution
  own_execution agent (some x) = if x.agent_id == agent.id then pure x else throw unknown_execution

  abbrev pub or_internal : Option Execution → Exec W Execution
  or_internal none = throw internal_error
  or_internal (some x) = pure x

  abbrev pub started : Option Uuid → Exec W Execution
  started none = throw internal_error
  started (some id) = do x ← gets (λ db. find_execution id db.executions); or_internal x

  abbrev pub execution_for : Agent → SubmitActionRequest → Option Uuid → Exec W Execution
  execution_for agent r (some id) = do
    x ← gets (λ db. find_execution id db.executions)
    own_execution agent x
  execution_for agent r none = do
    result ← start_execution agent.id (objective_of r) (some (start_context r))
    started result.execution_id

  abbrev pub place_external : ExternalActionRequest → Bool → Exec W Bool
  place_external e true db = (returned false, db)
  place_external e false db = (returned true, record db { externals = db.externals ++ e ∷ [] })

  abbrev pub commit_external : ExternalActionRequest → Exec W Bool
  commit_external e db = place_external e (any (same_request e) db.externals) db

  -- The insertion; `false` is the collision with a request that another writer added.
  unfoldable pub add_external : ExternalActionRequest → Exec W Bool
  unfolding interfere
  add_external e db = commit_external e (interfere db)

module _ {W : Type 0} (registry : Registry W) (planner : Planner) (settings : Settings) where
  abbrev pub after_result :
      ExternalActionRequest
      → Option (ExternalActionRequest → ExternalActionRequest)
      → Exec W ActionResponse
  after_result e none = throw processing_conflict
  after_result e (some result) = do
    step ← gets (λ db. find_matching_step e db.steps)
    e' ← write_back e (λ x. applied step (result x))
    pure (to_action_response e')

  unfoldable pub invoke_and_apply :
      ExternalActionRequest → Fields → List Source → Exec W ActionResponse
  invoke_and_apply e arguments sources = do
    update_external e.id begun
    r ←
        submit_external_action registry planner settings e.execution_id
          (action_of e arguments sources)
    after_result e (with_result r r.status)

  abbrev pub reconcile_when : Bool → ExternalActionRequest → Exec W ExternalActionRequest
  reconcile_when false e = gets (refreshed e)
  reconcile_when true e = do
    reconcile_external_step registry planner settings e.execution_id
    step ← gets (λ db. find_matching_step e db.steps)
    sync_from_step e step

  unfoldable pub reconcile_if_resolved : ExternalActionRequest → Exec W ExternalActionRequest
  reconcile_if_resolved e = do
    p ← gets (λ db. approval_named e.approval_request_id db.approvals)
    reconcile_when (is_resolved p) e

  -- A request that has not come to an end: its step may have been taken before.
  abbrev pub resolve_open :
      ExternalActionRequest → Fields → List Source → Option ExecutionStep → Exec W ActionResponse
  resolve_open e arguments sources none = invoke_and_apply e arguments sources
  resolve_open e arguments sources (some step) = do
    e' ← sync_from_step e (some step)
    pure (to_action_response e')

  abbrev pub resolve_status :
      ExternalActionRequest → Fields → List Source → ExternalActionStatus → Exec W ActionResponse
  resolve_status e arguments sources ExternalActionStatus.executed = pure (to_action_response e)
  resolve_status e arguments sources ExternalActionStatus.blocked = pure (to_action_response e)
  resolve_status e arguments sources ExternalActionStatus.failed = pure (to_action_response e)
  resolve_status e arguments sources ExternalActionStatus.waiting_approval = do
    e' ← reconcile_if_resolved e
    pure (to_action_response e')
  resolve_status e arguments sources status = do
    step ← gets (λ db. find_matching_step e db.steps)
    resolve_open e arguments sources step

  unfoldable pub resolve_existing :
      ExternalActionRequest → Fields → List Source → Exec W ActionResponse
  resolve_existing e arguments sources = resolve_status e arguments sources e.status

  -- A stored request answers only the payload that it was made with.
  unfoldable pub replay :
      String → SubmitActionRequest → ExternalActionRequest → Exec W ActionResponse
  replay payload_hash r e = do
    check_hash_or_conflict e payload_hash
    resolve_existing e r.arguments (normalize_sources r.sources)

  abbrev pub replay_or_raise :
      String → SubmitActionRequest → Option ExternalActionRequest → Exec W ActionResponse
  replay_or_raise payload_hash r none = throw integrity_error
  replay_or_raise payload_hash r (some e) = replay payload_hash r e

  abbrev pub after_insert :
      Uuid → String → SubmitActionRequest → ExternalActionRequest → Bool → Exec W ActionResponse
  after_insert operator_id payload_hash r e false = do
    existing ← gets (λ db. find_existing operator_id r.external_request_id db.externals)
    replay_or_raise payload_hash r existing
  after_insert operator_id payload_hash r e true = do
    emit_audit e.execution_id AuditEventType.external_request_received (about_request e end)
    invoke_and_apply e r.arguments (normalize_sources r.sources)

  abbrev pub submit_new : Uuid → String → SubmitActionRequest → Agent → Exec W ActionResponse
  submit_new operator_id payload_hash r agent = do
    x ← execution_for agent r r.execution_id
    id ← fresh
    let e = new_request id operator_id r agent.id x.id payload_hash
    inserted ← add_external e
    after_insert operator_id payload_hash r e inserted

  abbrev pub submit_or_replay :
      Uuid
      → String
      → SubmitActionRequest
      → Agent
      → Option ExternalActionRequest
      → Exec W ActionResponse
  submit_or_replay operator_id payload_hash r agent none =
      submit_new operator_id payload_hash r agent
  submit_or_replay operator_id payload_hash r agent (some e) = replay payload_hash r e

  -- The operator is authenticated by the caller.
  unfoldable pub submit : Digest → Uuid → SubmitActionRequest → Exec W ActionResponse
  submit digest operator_id r = do
    agent ← require_agent_mapping operator_id r.safeops_agent_id
    existing ← gets (λ db. find_existing operator_id r.external_request_id db.externals)
    submit_or_replay operator_id (digest (canonical_payload r)) r agent existing

  abbrev pub reconciled :
      ExternalActionRequest → ExternalActionStatus → Exec W ExternalActionRequest
  reconciled e ExternalActionStatus.waiting_approval = reconcile_if_resolved e
  reconciled e status = pure e

  abbrev pub status_found : Option ExternalActionRequest → Exec W ExternalActionRequest
  status_found none = throw unknown_action
  status_found (some e) = reconciled e e.status

  -- The response has the columns of the request.
  unfoldable pub get_status : Uuid → String → Exec W ExternalActionRequest
  get_status operator_id external_request_id = do
    existing ← gets (λ db. find_existing operator_id external_request_id db.externals)
    status_found existing
