-- ===== src/External/Keeps.antt =====
-- The external action service under invariants of the services.
use safeops.Prelude.{
  String, Bool, List, true, false, ◌==◌, Option, none, some, ◌≡◌, inl, inr, any, Bool-cases,
}
use safeops.Model.Uuid.{Uuid}
use safeops.Model.Enums.{ExternalActionStatus}
use safeops.Model.Rows.{Agent, Execution, ExecutionStep, ExternalActionRequest}
use safeops.Model.Db.{Db, same_request, interfere}
use safeops.Exec.Keeps.{Keeps, Keeps-bind}
use safeops.Audit.Invariant.{IsInvariant, Keeps-chunk, invariant_rules}
use safeops.Gateway.Tooling.{Registry}
use safeops.Gateway.Quiet.{rows_only-IsQuiet}
use safeops.Json.{Fields}
use safeops.Planner.{Planner, Source}
use safeops.Runtime.Call.{call_gateway}
use safeops.Runtime.Advance.{Settings}
use safeops.Runtime.Keeps.Entry.{
  start_execution-Keeps, submit_external_action-Keeps, reconcile_external_step-Keeps,
}
use safeops.External.Request.{SubmitActionRequest, Digest, normalize_sources}
use safeops.External.Outcome.{update_external, emit_if, write_back, sync_from_step}
use safeops.External.Entry.{
  require_agent_mapping, check_mapping, if_mapped, check_hash_or_conflict, unless_conflict,
  execution_for, own_execution, or_internal, started, add_external, action_of, after_result,
  invoke_and_apply, reconcile_when, reconcile_if_resolved, resolve_open, resolve_status,
  resolve_existing, replay, replay_or_raise, after_insert, submit_or_replay, submit, reconciled,
  status_found, get_status,
}

module _ {W : Type 0} {P : Db W → Type 0} (inv : IsInvariant P) where
  update_external-Keeps :
      (id : Uuid) (f : ExternalActionRequest → ExternalActionRequest)
      → Keeps P (update_external id f)
  unfolding update_external
  update_external-Keeps id f = record {
    at = λ db p. inv.externals (interfere db) _ (inv.rivals db p);
  }

  emit_if-Keeps : (b : Bool) (e : ExternalActionRequest) → Keeps P (emit_if b e)
  emit_if-Keeps false e = search invariant_rules
  emit_if-Keeps true e = Keeps-chunk inv _ _ (rows_only-IsQuiet _)

  write_back-Keeps :
      (e : ExternalActionRequest) (f : ExternalActionRequest → ExternalActionRequest)
      → Keeps P (write_back e f)
  unfolding write_back
  write_back-Keeps e f = search (invariant_rules, update_external-Keeps, emit_if-Keeps)

  sync_from_step-Keeps :
      (e : ExternalActionRequest) (s : Option ExecutionStep) → Keeps P (sync_from_step e s)
  sync_from_step-Keeps e none = search invariant_rules
  sync_from_step-Keeps e (some s) = write_back-Keeps e _

  if_mapped-Keeps : (agent : Agent) (b : Bool) → Keeps P (if_mapped agent b)
  if_mapped-Keeps agent true = search invariant_rules
  if_mapped-Keeps agent false = search invariant_rules

  check_mapping-Keeps :
      (operator_id agent_id : Uuid) (agent : Option Agent)
      → Keeps P (check_mapping operator_id agent_id agent)
  check_mapping-Keeps operator_id agent_id none = search invariant_rules
  check_mapping-Keeps operator_id agent_id (some agent) = search (invariant_rules, if_mapped-Keeps)

  require_agent_mapping-Keeps :
      (operator_id agent_id : Uuid) → Keeps P (require_agent_mapping operator_id agent_id)
  unfolding require_agent_mapping
  require_agent_mapping-Keeps operator_id agent_id = search (invariant_rules, check_mapping-Keeps)

  check_hash_or_conflict-Keeps :
      (e : ExternalActionRequest) (h : String) → Keeps P (check_hash_or_conflict e h)
  unfolding check_hash_or_conflict
  check_hash_or_conflict-Keeps e h = go _
    where
      go : (b : Bool) → Keeps P (unless_conflict b)
      go true = search invariant_rules
      go false = search invariant_rules

  own_execution-Keeps : (agent : Agent) (x : Option Execution) → Keeps P (own_execution agent x)
  own_execution-Keeps agent none = search invariant_rules
  own_execution-Keeps agent (some x) = elim (Bool-cases (x.agent_id == agent.id)) [
    | inl own ↦ rw own (search invariant_rules)
    | inr foreign ↦ rw foreign (search invariant_rules)
  ]

  or_internal-Keeps : (x : Option Execution) → Keeps P (or_internal x)
  or_internal-Keeps none = search invariant_rules
  or_internal-Keeps (some x) = search invariant_rules

  started-Keeps : (id : Option Uuid) → Keeps P (started id)
  started-Keeps none = search invariant_rules
  started-Keeps (some id) = search (invariant_rules, or_internal-Keeps)

  pub execution_for-Keeps :
      (agent : Agent) (r : SubmitActionRequest) (id : Option Uuid)
      → Keeps P (execution_for agent r id)
  execution_for-Keeps agent r (some id) = search (invariant_rules, own_execution-Keeps)
  execution_for-Keeps agent r none =
      Keeps-bind _ _ (start_execution-Keeps inv _ _ _) λ result. started-Keeps _

  pub add_external-Keeps : (e : ExternalActionRequest) → Keeps P (add_external e)
  unfolding add_external
  add_external-Keeps e = record {
    at = λ db p. elim (Bool-cases (any (same_request e) (interfere db).externals)) [
      | inl taken ↦ rw taken (inv.rivals db p)
      | inr free ↦ rw free (inv.externals (interfere db) _ (inv.rivals db p))
    ];
  }

  module _ (registry : Registry W) (planner : Planner) (settings : Settings) where
    after_result-Keeps :
        (e : ExternalActionRequest) (f : Option (ExternalActionRequest → ExternalActionRequest))
        → Keeps P (after_result registry planner settings e f)
    after_result-Keeps e none = search invariant_rules
    after_result-Keeps e (some f) = search (invariant_rules, write_back-Keeps)

    reconcile_when-Keeps :
        (b : Bool) (e : ExternalActionRequest)
        → Keeps P (reconcile_when registry planner settings b e)
    reconcile_when-Keeps false e = search invariant_rules
    reconcile_when-Keeps true e =
        Keeps-bind _ _ (reconcile_external_step-Keeps inv registry planner settings _)
          λ done. search (invariant_rules, sync_from_step-Keeps)

    reconcile_if_resolved-Keeps :
        (e : ExternalActionRequest) → Keeps P (reconcile_if_resolved registry planner settings e)
    unfolding reconcile_if_resolved
    reconcile_if_resolved-Keeps e = search (invariant_rules, reconcile_when-Keeps)

    reconciled-Keeps :
        (e : ExternalActionRequest) (s : ExternalActionStatus)
        → Keeps P (reconciled registry planner settings e s)
    reconciled-Keeps e ExternalActionStatus.waiting_approval = reconcile_if_resolved-Keeps e
    reconciled-Keeps e s = search invariant_rules

    status_found-Keeps :
        (e : Option ExternalActionRequest) → Keeps P (status_found registry planner settings e)
    status_found-Keeps none = search invariant_rules
    status_found-Keeps (some e) = reconciled-Keeps e e.status

    pub get_status-Keeps :
        (operator_id : Uuid) (external_request_id : String)
        → Keeps P (get_status registry planner settings operator_id external_request_id)
    unfolding get_status
    get_status-Keeps operator_id external_request_id = search (invariant_rules, status_found-Keeps)

    -- What is done for one request depends on the call of its own action alone.
    module _ (e : ExternalActionRequest) (args : Fields) (sources : List Source)
        (gateway : (x : Execution)
          → x.id ≡ e.execution_id
          → Keeps P (call_gateway registry x (action_of e args sources))) where
      pub invoke_and_apply-Keeps :
          Keeps P (invoke_and_apply registry planner settings e args sources)
      unfolding invoke_and_apply
      invoke_and_apply-Keeps = Keeps-bind _ _ (update_external-Keeps _ _) λ done.
          Keeps-bind _ _ (submit_external_action-Keeps inv registry planner settings _ _ gateway)
            λ result. after_result-Keeps e _

      resolve_open-Keeps :
          (s : Option ExecutionStep)
          → Keeps P (resolve_open registry planner settings e args sources s)
      resolve_open-Keeps none = invoke_and_apply-Keeps
      resolve_open-Keeps (some s) = search (invariant_rules, write_back-Keeps)

      resolve_status-Keeps :
          (s : ExternalActionStatus)
          → Keeps P (resolve_status registry planner settings e args sources s)
      resolve_status-Keeps ExternalActionStatus.executed = search invariant_rules
      resolve_status-Keeps ExternalActionStatus.blocked = search invariant_rules
      resolve_status-Keeps ExternalActionStatus.failed = search invariant_rules
      resolve_status-Keeps ExternalActionStatus.waiting_approval =
          search (invariant_rules, reconcile_if_resolved-Keeps)
      resolve_status-Keeps s = search (invariant_rules, resolve_open-Keeps)

      pub resolve_existing-Keeps :
          Keeps P (resolve_existing registry planner settings e args sources)
      unfolding resolve_existing
      resolve_existing-Keeps = resolve_status-Keeps e.status

    module _ (r : SubmitActionRequest)
        (gateway : (e : ExternalActionRequest) (x : Execution)
          → x.id ≡ e.execution_id
          → Keeps P (
              call_gateway registry x
                (action_of e r.arguments (normalize_sources r.sources)))) where
      replay-Keeps :
          (h : String) (e : ExternalActionRequest)
          → Keeps P (replay registry planner settings h r e)
      unfolding replay
      replay-Keeps h e =
          Keeps-bind _ _ (check_hash_or_conflict-Keeps e h)
            λ done. resolve_existing-Keeps e r.arguments (normalize_sources r.sources) (gateway e)

      replay_or_raise-Keeps :
          (h : String) (e : Option ExternalActionRequest)
          → Keeps P (replay_or_raise registry planner settings h r e)
      replay_or_raise-Keeps h none = search invariant_rules
      replay_or_raise-Keeps h (some e) = replay-Keeps h e

      after_insert-Keeps :
          (operator_id : Uuid) (h : String) (e : ExternalActionRequest) (b : Bool)
          → Keeps P (after_insert registry planner settings operator_id h r e b)
      after_insert-Keeps operator_id h e false = search (invariant_rules, replay_or_raise-Keeps)
      after_insert-Keeps operator_id h e true =
          Keeps-bind _ _ (Keeps-chunk inv _ _ (rows_only-IsQuiet _))
            λ done. invoke_and_apply-Keeps e r.arguments (normalize_sources r.sources) (gateway e)

      submit_or_replay-Keeps :
          (operator_id : Uuid) (h : String) (agent : Agent) (e : Option ExternalActionRequest)
          → Keeps P (submit_or_replay registry planner settings operator_id h r agent e)
      submit_or_replay-Keeps operator_id h agent (some e) = replay-Keeps h e
      submit_or_replay-Keeps operator_id h agent none =
          search (invariant_rules, execution_for-Keeps, add_external-Keeps, after_insert-Keeps)

      pub submit-Keeps :
          (digest : Digest) (operator_id : Uuid)
          → Keeps P (submit registry planner settings digest operator_id r)
      unfolding submit
      submit-Keeps digest operator_id =
          search (invariant_rules, require_agent_mapping-Keeps, submit_or_replay-Keeps)
