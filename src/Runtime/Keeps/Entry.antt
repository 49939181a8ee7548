-- ===== src/Runtime/Keeps/Entry.antt =====
-- The public operations of the runtime under its invariants.
use safeops.Prelude.{ℕ, ◌≡◌, refl, ◌∙◌, List, String, Bool, true, false, Option, none, some}
use safeops.Json.{Json, Fields}
use safeops.Model.Uuid.{Uuid}
use safeops.Model.Enums.{ExecutionStatus, ApprovalStatus}
use safeops.Model.Rows.{Agent, Execution, ExecutionStep, ToolRequest, ApprovalRequest}
use safeops.Model.Db.{Db, interfere}
use safeops.Exec.{Exec, ◌>>=◌}
use safeops.Exec.Keeps.{Keeps}
use safeops.Gateway.Tooling.{Registry}
use safeops.Gateway.Quiet.{rows_only-IsQuiet}
use safeops.Approval.Quiet.{updates-IsQuiet}
use safeops.Audit.Tables.{IsQuiet, Same-refl}
use safeops.Audit.Invariant.{IsInvariant, Same-IsInvariant, invariant_rules}
use safeops.Planner.{
  Planner, ToolAction, PlannerDecision, tool_action, complete, fail, PlannerAnswer, crashed,
  malformed, answered,
}
use safeops.Runtime.Results.{RuntimeStatus, RuntimeResult}
use safeops.Runtime.Steps.{Ending}
use safeops.Runtime.Lease.{find_execution, locked}
use safeops.Runtime.Call.{call_gateway}
use safeops.Runtime.Advance.{
  Settings, planner_context, decision_of, end_with, final_step, if_below, bounded, decide, advance,
}
use safeops.Runtime.Pending.{
  ResolvedApprovalOutcome, settle_executed, settle_approval, settle_found, resolve_pending_step,
}
use safeops.Runtime.Entry.{
  started_builder, add_execution, start_for, start_execution, exclusively, unless_refused,
  unless_running, on_found, on_execution, when_running, after_cancel, cancel_found, cancel,
  emit_resumed, with_pending, settle_pending, step, continue_if, resume_pending, resume,
  submit_external_action, reconcile_external_step,
}
use safeops.Runtime.Keeps.{update_where-Keeps, locked-Keeps, find_execution-id}
use safeops.Runtime.Keeps.Steps.{finalize-Keeps, claim_step-Keeps, run_action-Keeps}

-- The planner, given the execution and its history, asks for this call.
abbrev pub Chosen : Planner → Execution → List ExecutionStep → ToolAction → Type 0
Chosen planner x history a = planner x (planner_context x) history ≡ answered (tool_action a)

decision_of-answered :
    (p : PlannerAnswer) {a : ToolAction}
    → decision_of p ≡ tool_action a
    → p ≡ answered (tool_action a)
decision_of-answered crashed h = absurd (cc)
decision_of-answered malformed h = absurd (cc)
decision_of-answered (answered d) h = cc

started_builder-IsQuiet :
    {W : Type 0} (x : Execution) (actor : String) → IsQuiet {W = W} (started_builder x actor)
started_builder-IsQuiet x actor = updates-IsQuiet _ _ λ db. record {
  same = (Same-IsInvariant db).executions db _ (Same-refl db);
  events = refl;
  places = refl;
}

module _ {W : Type 0} {P : Db W → Type 0} (i : IsInvariant P) where
  end_with-Keeps :
      (x : Execution) (status : RuntimeStatus) (reason : String) (ending : ExecutionStep → Ending)
      (step : Option ExecutionStep)
      → Keeps P (end_with x status reason ending step)
  end_with-Keeps x status reason ending none = search invariant_rules
  end_with-Keeps x status reason ending (some step) = search (invariant_rules, finalize-Keeps)

  pub final_step-Keeps :
      (x : Execution) (status : RuntimeStatus) (reason : String) (input : Fields)
      (ending : ExecutionStep → Ending)
      → Keeps P (final_step x status reason input ending)
  unfolding final_step
  final_step-Keeps x status reason input ending =
      search (invariant_rules, claim_step-Keeps, end_with-Keeps)

  if_below-Keeps :
      (b : Bool) (x : Execution) (body : Exec W RuntimeResult)
      → Keeps P body
      → Keeps P (if_below b x body)
  if_below-Keeps true x body k = k
  if_below-Keeps false x body k = final_step-Keeps x _ _ _ _

  settle_executed-Keeps :
      (x : Execution) (step : ExecutionStep) (r : Option ToolRequest) (b : Bool)
      → Keeps P (settle_executed x step r b)
  settle_executed-Keeps x step r true = search (invariant_rules, finalize-Keeps)
  settle_executed-Keeps x step r false = search (invariant_rules, finalize-Keeps)

  settle_approval-Keeps :
      (x : Execution) (step : ExecutionStep) (p : ApprovalRequest) (s : ApprovalStatus)
      → Keeps P (settle_approval x step p s)
  unfolding settle_approval
  settle_approval-Keeps x step p ApprovalStatus.pending = search invariant_rules
  settle_approval-Keeps x step p ApprovalStatus.approved = search invariant_rules
  settle_approval-Keeps x step p ApprovalStatus.rejected = search (invariant_rules, finalize-Keeps)
  settle_approval-Keeps x step p ApprovalStatus.expired = search (invariant_rules, finalize-Keeps)
  settle_approval-Keeps x step p ApprovalStatus.executed =
      search (invariant_rules, settle_executed-Keeps)

  settle_found-Keeps :
      (x : Execution) (step : ExecutionStep) (p : Option ApprovalRequest)
      → Keeps P (settle_found x step p)
  settle_found-Keeps x step none = search invariant_rules
  settle_found-Keeps x step (some p) = settle_approval-Keeps x step p p.status

  resolve_pending_step-Keeps :
      (x : Execution) (step : ExecutionStep) → Keeps P (resolve_pending_step x step)
  unfolding resolve_pending_step
  resolve_pending_step-Keeps x step = search (invariant_rules, settle_found-Keeps)

  emit_resumed-Keeps :
      (x : Execution) (step : ExecutionStep) (b : Bool) → Keeps P (emit_resumed x step b)
  emit_resumed-Keeps x step true = search invariant_rules
  emit_resumed-Keeps x step false = search (invariant_rules, rows_only-IsQuiet)

  with_pending-Keeps :
      (x : Execution) (nothing : String)
      (next : ExecutionStep → ResolvedApprovalOutcome → Exec W RuntimeResult)
      (step : Option ExecutionStep)
      → ((s : ExecutionStep) (o : ResolvedApprovalOutcome) → Keeps P (next s o))
      → Keeps P (with_pending x nothing next step)
  with_pending-Keeps x nothing next none k = search invariant_rules
  with_pending-Keeps x nothing next (some step) k =
      search (invariant_rules, resolve_pending_step-Keeps, emit_resumed-Keeps, k)

  settle_pending-Keeps :
      (x : Execution) (nothing : String)
      (next : ExecutionStep → ResolvedApprovalOutcome → Exec W RuntimeResult)
      → ((s : ExecutionStep) (o : ResolvedApprovalOutcome) → Keeps P (next s o))
      → Keeps P (settle_pending x nothing next)
  unfolding settle_pending
  settle_pending-Keeps x nothing next k = search (invariant_rules, with_pending-Keeps, k)

  unless_refused-Keeps :
      (x : Execution) (refusal : Option String) (body : Exec W RuntimeResult)
      → Keeps P body
      → Keeps P (unless_refused x refusal body)
  unless_refused-Keeps x none body k = k
  unless_refused-Keeps x (some reason) body k = search invariant_rules

  when_running-Keeps :
      (refusal : ExecutionStatus → String) (body : Execution → Exec W RuntimeResult) (x : Execution)
      → Keeps P (body x)
      → Keeps P (when_running refusal body x)
  when_running-Keeps refusal body x k =
      unless_refused-Keeps x (unless_running refusal x.status) (body x) k

  on_found-Keeps :
      (id : Uuid) (body : Execution → Exec W RuntimeResult) (o : Option Execution)
      → ((x : Execution) → o ≡ some x → x.id ≡ id)
      → ((x : Execution) → x.id ≡ id → Keeps P (body x))
      → Keeps P (on_found body o)
  on_found-Keeps id body none own k = search invariant_rules
  on_found-Keeps id body (some x) own k = k x (own x refl)

  on_execution-Keeps :
      (id : Uuid) (body : Execution → Exec W RuntimeResult)
      → ((x : Execution) → x.id ≡ id → Keeps P (body x))
      → Keeps P (on_execution id body)
  unfolding on_execution ◌>>=◌
  on_execution-Keeps id body k = record {
    at = λ db h.
        (on_found-Keeps id body (find_execution id db.executions)
            (λ x found. find_execution-id id db.executions found) k).at
          db h;
  }

  exclusively-Keeps :
      (before under : ExecutionStatus → String) (ttl : ℕ) (id : Uuid)
      (body : Execution → Exec W RuntimeResult)
      → ((x : Execution) → x.id ≡ id → Keeps P (body x))
      → Keeps P (exclusively before under ttl id body)
  unfolding exclusively
  exclusively-Keeps before under ttl id body k =
      on_execution-Keeps id (when_running before λ x. locked ttl x (when_running under body))
        λ x own.
          when_running-Keeps before (λ y. locked ttl y (when_running under body)) x
            (locked-Keeps i ttl x (when_running under body)
              λ z same. when_running-Keeps under body z (k z (same ∙ own)))

  add_execution-Keeps : (x : Execution) → Keeps P (add_execution x)
  unfolding add_execution
  add_execution-Keeps x = record { at = λ db h. i.executions (interfere db) _ (i.rivals db h) }

  start_for-Keeps :
      (objective : String) (context : Option Json) (agent : Option Agent)
      → Keeps P (start_for objective context agent)
  unfolding start_for
  start_for-Keeps objective context none = search invariant_rules
  start_for-Keeps objective context (some agent) =
      search (invariant_rules, started_builder-IsQuiet, add_execution-Keeps)

  pub start_execution-Keeps :
      (agent_id : Uuid) (objective : String) (context : Option Json)
      → Keeps P (start_execution agent_id objective context)
  unfolding start_execution
  start_execution-Keeps agent_id objective context = search (invariant_rules, start_for-Keeps)

  after_cancel-Keeps : (x : Execution) (b : Bool) → Keeps P (after_cancel x b)
  after_cancel-Keeps x true = search (invariant_rules, rows_only-IsQuiet)
  after_cancel-Keeps x false = search invariant_rules

  cancel_found-Keeps : (x : Execution) → Keeps P (cancel_found x)
  cancel_found-Keeps x = search (invariant_rules, update_where-Keeps, after_cancel-Keeps)

  pub cancel-Keeps : (id : Uuid) → Keeps P (cancel id)
  unfolding cancel
  cancel-Keeps id = on_execution-Keeps id _ λ x own. cancel_found-Keeps x

  pub reconcile_external_step-Keeps :
      (registry : Registry W) (planner : Planner) (settings : Settings) (id : Uuid)
      → Keeps P (reconcile_external_step registry planner settings id)
  unfolding reconcile_external_step
  reconcile_external_step-Keeps registry planner settings id = on_execution-Keeps id _ λ x own.
      unless_refused-Keeps x _ _
        (locked-Keeps i _ x _ λ x' same. settle_pending-Keeps x' _ _ λ s o. search invariant_rules)

  module _ (registry : Registry W) (planner : Planner) (settings : Settings) where
    bounded-Keeps :
        (x : Execution) (body : List ExecutionStep → Exec W RuntimeResult)
        → ((history : List ExecutionStep) → Keeps P (body history))
        → Keeps P (bounded settings x body)
    unfolding bounded
    bounded-Keeps x body k = search (invariant_rules, if_below-Keeps, k)

    pub submit_external_action-Keeps :
        (id : Uuid) (a : ToolAction)
        → ((x : Execution) → x.id ≡ id → Keeps P (call_gateway registry x a))
        → Keeps P (submit_external_action registry planner settings id a)
    unfolding submit_external_action
    submit_external_action-Keeps id a gateway =
        exclusively-Keeps _ _ _ id _
          λ x own. bounded-Keeps x _ λ history. run_action-Keeps i registry x a (gateway x own)

    module _ (id : Uuid)
        (gateway : (x : Execution)
          → x.id ≡ id
          → (a : ToolAction) (history : List ExecutionStep) → Chosen planner x history a
          → Keeps P (call_gateway registry x a)) where
      decide-Keeps :
          (x : Execution) (d : PlannerDecision)
          → ((a : ToolAction) → d ≡ tool_action a → Keeps P (call_gateway registry x a))
          → Keeps P (decide registry planner settings x d)
      unfolding decide
      decide-Keeps x (complete reason) k = final_step-Keeps x _ _ _ _
      decide-Keeps x (fail reason code) k = final_step-Keeps x _ _ _ _
      decide-Keeps x (tool_action a) k = run_action-Keeps i registry x a (k a refl)

      advance-Keeps : (x : Execution) → x.id ≡ id → Keeps P (advance registry planner settings x)
      unfolding advance
      advance-Keeps x own =
          bounded-Keeps x _
            λ history. decide-Keeps x _ λ a e. gateway x own a history (decision_of-answered _ e)

      pub step-Keeps : Keeps P (step registry planner settings id)
      unfolding step
      step-Keeps = exclusively-Keeps _ _ _ id _ advance-Keeps

      continue_if-Keeps :
          (x : Execution) (s : ExecutionStep) (o : ResolvedApprovalOutcome) (b : Bool)
          → x.id ≡ id
          → Keeps P (continue_if registry planner settings x s o b)
      continue_if-Keeps x s o true own = advance-Keeps x own
      continue_if-Keeps x s o false own = search invariant_rules

      resume_pending-Keeps :
          (x : Execution) → x.id ≡ id → Keeps P (resume_pending registry planner settings x)
      resume_pending-Keeps x own = settle_pending-Keeps x _ _ λ s o. continue_if-Keeps x s o _ own

      pub resume-Keeps : Keeps P (resume registry planner settings id)
      unfolding resume
      resume-Keeps = exclusively-Keeps _ _ _ id _ resume_pending-Keeps
