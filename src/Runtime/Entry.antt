-- ===== src/Runtime/Entry.antt =====
-- The public operations: `start_execution`, `step`, `resume`, `cancel`, `submit_external_action` and
-- `reconcile_external_step`.
use safeops.Prelude.{
  ℕ, String, Bool, true, false, Option, none, some, [], ◌∷◌, ◌++◌, ◌==◌, if◌then◌else◌, find,
  append_text,
}
use safeops.Json.{Json, str, obj, end, field}
use safeops.Model.Uuid.{Uuid}
use safeops.Model.Enums.{ExecutionStatus, status_text, AuditEventType}
use safeops.Model.Rows.{Agent, Execution, ExecutionStep}
use safeops.Model.Db.{amend, interfere}
use safeops.Exec.{Exec, returned, pure, gets, now, fresh, ◌>>=◌, ◌>>◌}
use safeops.Audit.{Builder, commit_chunk}
use safeops.Gateway.Tooling.{Registry, event_row, number_json, rows_only}
use safeops.Planner.{Planner, ToolAction}
use safeops.Runtime.Results.{
  RuntimeStatus, RuntimeResult, created, noop, cancelled, bare_result, missing, noop_result,
  status_reason,
}
use safeops.Runtime.Lease.{find_execution, update_where, reloaded, locked}
use safeops.Runtime.Steps.{runtime_event}
use safeops.Runtime.Call.{run_action}
use safeops.Runtime.Advance.{Settings, bounded, advance}
use safeops.Runtime.Pending.{ResolvedApprovalOutcome, pending_step, resolve_pending_step}

-- `context if isinstance(context, dict) else {}`
abbrev pub dict_or_empty : Option Json → Json
dict_or_empty (some (obj fs)) = obj fs
dict_or_empty _ = obj end

abbrev pub is_created : ExecutionStatus → Bool
is_created ExecutionStatus.created = true
is_created _ = false

abbrev pub start_if_created : Execution → Execution
start_if_created x =
    if is_created x.status then record x { status = ExecutionStatus.running } else x

abbrev pub may_cancel : Execution → Bool
may_cancel x = elim x.status [
  | ExecutionStatus.running ↦ true
  | ExecutionStatus.waiting_approval ↦ true
  | _ ↦ false
]

abbrev pub cancel_at : ℕ → Execution → Execution
cancel_at t x = record x { status = ExecutionStatus.cancelled; completed_at = some t }

-- `f"Cannot cancel execution in status {execution.status.value}"`
abbrev pub cancel_refusal : ExecutionStatus → String
cancel_refusal status = append_text "Cannot cancel execution in status " (status_text status)

-- An outcome of a pending step as a result of the runtime.
abbrev pub outcome_result : ResolvedApprovalOutcome → Execution → ExecutionStep → RuntimeResult
outcome_result o x step = record {
  status = o.status;
  execution_status = some x.status;
  execution_id = none;
  reason = o.reason;
  tool_name = none;
  approval_request_id = none;
  step_sequence = some step.sequence;
}

abbrev pub is_noop : RuntimeStatus → Bool
is_noop noop = true
is_noop _ = false

abbrev pub cannot_step : ExecutionStatus → String
cannot_step status = status_reason status "cannot step"

abbrev pub cannot_resume : ExecutionStatus → String
cannot_resume status = status_reason status "cannot resume"

abbrev pub cannot_act : ExecutionStatus → String
cannot_act status = status_reason status "cannot accept action"

-- `resume` says of a waiting execution that it still waits.
abbrev pub resume_refusal : ExecutionStatus → String
resume_refusal ExecutionStatus.waiting_approval = "Still waiting for approval"
resume_refusal status = cannot_resume status

abbrev pub reconcile_refusal : ExecutionStatus → Option String
reconcile_refusal ExecutionStatus.running = none
reconcile_refusal ExecutionStatus.waiting_approval = none
reconcile_refusal status = some (status_reason status "nothing to reconcile")

abbrev pub unless_running : (ExecutionStatus → String) → ExecutionStatus → Option String
unless_running refusal ExecutionStatus.running = none
unless_running refusal status = some (refusal status)

abbrev pub new_execution : Uuid → Agent → String → Option Json → Execution
new_execution id agent objective context = record {
  id = id;
  agent_id = agent.id;
  objective = objective;
  status = ExecutionStatus.created;
  initial_context = some (dict_or_empty context);
  stepping = false;
  stepping_claim_id = none;
  stepping_claimed_at = none;
  completed_at = none;
}

abbrev pub created_result : Execution → RuntimeResult
created_result x = record (bare_result created (some x.status) none) { execution_id = some x.id }

module _ {W : Type 0} where
  abbrev pub started_builder : Execution → String → Builder W
  started_builder x actor seq db = some (
    event_row x.id seq AuditEventType.execution_started actor
          (field "objective" (str x.objective) end)
        ∷ [],
    record db { executions = amend (λ y. y.id) x.id start_if_created db.executions },
  )

  -- The commit of the new row.
  unfoldable pub add_execution : Execution → Exec W Unit
  unfolding interfere
  add_execution x db =
      let db' = interfere db in (returned tt, record db' { executions = db'.executions ++ x ∷ [] })

  unfoldable pub start_for : String → Option Json → Option Agent → Exec W RuntimeResult
  start_for objective context none = pure (missing "Agent not found")
  start_for objective context (some agent) = do
    id ← fresh
    let x = new_execution id agent objective context
    add_execution x
    commit_chunk id (started_builder x agent.name)
    x' ← gets (reloaded x)
    pure (created_result x')

  unfoldable pub start_execution : Uuid → String → Option Json → Exec W RuntimeResult
  start_execution agent_id objective context = do
    agent ← gets (λ db. find (λ a. a.id == agent_id) db.agents)
    start_for objective context agent

  -- A test of the execution before `body`; `none` passes.
  abbrev pub unless_refused :
      Execution → Option String → Exec W RuntimeResult → Exec W RuntimeResult
  unless_refused x (some reason) body = pure (noop_result x reason)
  unless_refused x none body = body

  -- An operation on an execution that exists.
  abbrev pub on_found : (Execution → Exec W RuntimeResult) → Option Execution → Exec W RuntimeResult
  on_found body none = pure (missing "Execution not found")
  on_found body (some x) = body x

  unfoldable pub on_execution : Uuid → (Execution → Exec W RuntimeResult) → Exec W RuntimeResult
  on_execution id body = do x ← gets (λ db. find_execution id db.executions); on_found body x

  -- The status is tested before the claim and again under it.
  abbrev pub when_running :
      (ExecutionStatus → String)
      → (Execution → Exec W RuntimeResult)
      → Execution
      → Exec W RuntimeResult
  when_running refusal body x = unless_refused x (unless_running refusal x.status) (body x)

  -- An operation on a running execution, alone under its lease.
  unfoldable pub exclusively :
      (ExecutionStatus → String)
      → (ExecutionStatus → String)
      → ℕ
      → Uuid
      → (Execution → Exec W RuntimeResult)
      → Exec W RuntimeResult
  exclusively before under ttl id body =
      on_execution id (when_running before λ x. locked ttl x (when_running under body))

  abbrev pub after_cancel : Execution → Bool → Exec W RuntimeResult
  after_cancel x false = do x' ← gets (reloaded x); pure (noop_result x' (cancel_refusal x'.status))
  after_cancel x true = do
    commit_chunk x.id
        (rows_only λ seq. runtime_event x seq AuditEventType.execution_cancelled end ∷ [])
    x' ← gets (reloaded x)
    pure (bare_result cancelled (some x'.status) none)

  abbrev pub cancel_found : Execution → Exec W RuntimeResult
  cancel_found x = do
    t ← now
    transitioned ← update_where x.id may_cancel (cancel_at t)
    after_cancel x transitioned

  unfoldable pub cancel : Uuid → Exec W RuntimeResult
  cancel id = on_execution id cancel_found

  -- EXECUTION_RESUMED, unless nothing was resolved.
  abbrev pub emit_resumed : Execution → ExecutionStep → Bool → Exec W Unit
  emit_resumed x step true = pure tt
  emit_resumed x step false = commit_chunk x.id (
      rows_only λ seq.
        runtime_event x seq AuditEventType.execution_resumed
          (field "step_sequence" (number_json step.sequence) end)
        ∷ [])

  -- The pending step is settled, and what follows is given its outcome.
  abbrev pub with_pending :
      Execution
      → String
      → (ExecutionStep → ResolvedApprovalOutcome → Exec W RuntimeResult)
      → Option ExecutionStep
      → Exec W RuntimeResult
  with_pending x nothing next none = pure (noop_result x nothing)
  with_pending x nothing next (some step) = do
    o ← resolve_pending_step x step
    emit_resumed x step (is_noop o.status)
    next step o

  unfoldable pub settle_pending :
      Execution
      → String
      → (ExecutionStep → ResolvedApprovalOutcome → Exec W RuntimeResult)
      → Exec W RuntimeResult
  settle_pending x nothing next = do
    step ← gets (λ db. pending_step x.id db.steps)
    with_pending x nothing next step

  abbrev pub report_outcome :
      Execution → ExecutionStep → ResolvedApprovalOutcome → Exec W RuntimeResult
  report_outcome x step o = do x' ← gets (reloaded x); pure (outcome_result o x' step)

module _ {W : Type 0} (registry : Registry W) (planner : Planner) (settings : Settings) where
  unfoldable pub step : Uuid → Exec W RuntimeResult
  step id =
      exclusively cannot_step cannot_step settings.lease_ttl id (advance registry planner settings)

  -- After an outcome that lets the execution go on, the planner is asked again.
  abbrev pub continue_if :
      Execution → ExecutionStep → ResolvedApprovalOutcome → Bool → Exec W RuntimeResult
  continue_if x step o true = advance registry planner settings x
  continue_if x step o false = report_outcome x step o

  abbrev pub resume_pending : Execution → Exec W RuntimeResult
  resume_pending x =
      settle_pending x "No pending approval step to resume from"
        (λ step o. continue_if x step o o.should_continue)

  unfoldable pub resume : Uuid → Exec W RuntimeResult
  resume id = exclusively resume_refusal cannot_resume settings.lease_ttl id resume_pending

  abbrev pub act : ToolAction → Execution → Exec W RuntimeResult
  act action x = bounded settings x (λ history. run_action registry x action)

  unfoldable pub submit_external_action : Uuid → ToolAction → Exec W RuntimeResult
  submit_external_action id action =
      exclusively cannot_act cannot_act settings.lease_ttl id (act action)

  unfoldable pub reconcile_external_step : Uuid → Exec W RuntimeResult
  reconcile_external_step id = on_execution id λ x. unless_refused x (reconcile_refusal x.status) (
      locked settings.lease_ttl x
        λ x'. settle_pending x' "No pending approval step to reconcile" (report_outcome x'))
