-- ===== src/Runtime/Keeps/Steps.antt =====
-- The steps of an execution and the calls made in them, under invariants of the runtime.
use safeops.Prelude.{
  ℕ, ◌≡◌, refl, inl, inr, Bool, true, false, Option, none, some, List, [], ◌∷◌, ◌==◌, any,
  Bool-cases,
}
use safeops.Json.{Fields}
use safeops.Model.Uuid.{Uuid}
use safeops.Model.Enums.{ExecutionStatus, StepType, StepStatus}
use safeops.Model.Rows.{Execution, ExecutionStep}
use safeops.Model.Db.{Db, Row, amend, same_place, interfere}
use safeops.Exec.Keeps.{Keeps, Keeps-bind}
use safeops.Audit.Tables.{Same-refl, Quietly, places, IsQuiet}
use safeops.Audit.Invariant.{IsInvariant, Same-IsInvariant, Keeps-chunk, invariant_rules}
use safeops.Gateway.Tooling.{Registry, GatewayResult}
use safeops.Gateway.Escalate.{has_running}
use safeops.Gateway.Quiet.{rows_only-IsQuiet}
use safeops.Planner.{ToolAction}
use safeops.Runtime.Steps.{
  Ending, close_if, finalize_builder, finalize, end_step, persist_step_only, add_step, claim_step,
  record_step,
}
use safeops.Runtime.Call.{
  call_gateway, end_call, retry_on, retry, run_last, end_or_retry, run_tool_call_step, start_call,
  with_step, run_action,
}

-- The end of a step leaves it in its place.
places-end_step :
    (id : Uuid) (status : StepStatus) (output : Fields) (request_id : Option Uuid) (t : ℕ)
    (ss : List ExecutionStep)
    → places (amend (λ s. s.id) id (end_step status output request_id t) ss) ≡ places ss
places-end_step id status output request_id t [] = refl
places-end_step id status output request_id t (s ∷ ss) = elim (Bool-cases (s.id == id)) [
  | inl here ↦ rw (here, places-end_step id status output request_id t ss) refl
  | inr there ↦ rw (there, places-end_step id status output request_id t ss) refl
]

module _ {W : Type 0} where
  quiet_of : {p q : List Row × Db W} {a : Db W} → Quietly a p.1 → some p ≡ some q → Quietly a q.1
  quiet_of {p} {q} s e = let eq : p ≡ q = cc in rw (← eq) s

  close_if-Quietly :
      (x : Execution) (e : Ending) (terminal : Option ExecutionStatus) (t seq : ℕ) (a db : Db W)
      {rows : List Row} {db' : Db W}
      → Quietly a db
      → close_if x e terminal t seq db ≡ some (rows, db')
      → Quietly a db'
  close_if-Quietly x e none t seq a db s h = quiet_of s h
  close_if-Quietly x e (some status) t seq a db s h =
      elim (Bool-cases (has_running x.id db.executions)) [
        | inl running ↦
            quiet_of
              (record {
                same = (Same-IsInvariant a).executions db _ s.same;
                events = s.events;
                places = s.places;
              })
              (rw running at h)
        | inr ended ↦ quiet_of s (rw ended at h)
      ]

  finalize_builder-IsQuiet :
      (x : Execution) (step : ExecutionStep) (e : Ending) (t : ℕ)
      → IsQuiet {W = W} (finalize_builder x step e t)
  finalize_builder-IsQuiet x step e t = record {
    quiet = λ seq db rows db' h.
        let kept = places-end_step step.id e.status e.output e.tool_request_id t db.steps in
        close_if-Quietly x e e.terminal t seq db
          (record_step step (end_step e.status e.output e.tool_request_id t) db)
          (record {
            same = (Same-IsInvariant db).steps db _ kept (Same-refl db);
            events = refl;
            places = kept;
          })
          h;
  }

module _ {W : Type 0} {P : Db W → Type 0} (i : IsInvariant P) where
  pub finalize-Keeps :
      (x : Execution) (step : ExecutionStep) (e : Ending) → Keeps P (finalize x step e)
  unfolding finalize
  finalize-Keeps x step e = search (invariant_rules, finalize_builder-IsQuiet)

  persist_step_only-Keeps :
      (step : ExecutionStep) (status : StepStatus) (output : Fields) (request_id : Option Uuid)
      → Keeps P (persist_step_only step status output request_id)
  unfolding persist_step_only
  persist_step_only-Keeps step status output request_id = record {
    at = λ db h.
        i.steps (interfere db) _
          (places-end_step step.id status output request_id db.clock (interfere db).steps)
          (i.rivals db h);
  }

  add_step-Keeps : (step : ExecutionStep) → Keeps P (add_step step)
  unfolding add_step
  add_step-Keeps step = record {
    at = λ db h. elim (Bool-cases (any (same_place step) (interfere db).steps)) [
      | inl taken ↦ rw taken (i.rivals db h)
      | inr free ↦ rw free (i.placed (interfere db) step free (i.rivals db h))
    ];
  }

  pub claim_step-Keeps :
      (id : Uuid) (step_type : StepType) (input : Fields) → Keeps P (claim_step id step_type input)
  unfolding claim_step
  claim_step-Keeps id step_type input = search (invariant_rules, add_step-Keeps)

  module _ (registry : Registry W) (x : Execution) (a : ToolAction) where
    pub end_call-Keeps :
        (step : ExecutionStep) (r : GatewayResult) (request_id : Option Uuid)
        → Keeps P (end_call registry x a step r request_id)
    unfolding end_call
    end_call-Keeps step r request_id = search (invariant_rules, finalize-Keeps)

    module _ (gateway : Keeps P (call_gateway registry x a)) where
      run_last-Keeps : (step : ExecutionStep) → Keeps P (run_last registry x a step)
      unfolding run_last
      run_last-Keeps step = Keeps-bind _ _ gateway λ r. search (invariant_rules, end_call-Keeps)

      retry_on-Keeps :
          (step : ExecutionStep) (r : GatewayResult) (request_id : Option Uuid)
          (again : Option ExecutionStep)
          → Keeps P (retry_on registry x a step r request_id again)
      retry_on-Keeps step r request_id none = end_call-Keeps step r request_id
      retry_on-Keeps step r request_id (some again) = run_last-Keeps again

      end_or_retry-Keeps :
          (step : ExecutionStep) (r : GatewayResult) (request_id : Option Uuid) (b : Bool)
          → Keeps P (end_or_retry registry x a step r request_id b)
      unfolding retry
      end_or_retry-Keeps step r request_id false = end_call-Keeps step r request_id
      end_or_retry-Keeps step r request_id true =
          search (invariant_rules, persist_step_only-Keeps, claim_step-Keeps, retry_on-Keeps)

      with_step-Keeps : (step : Option ExecutionStep) → Keeps P (with_step registry x a step)
      unfolding start_call run_tool_call_step
      with_step-Keeps none = search invariant_rules
      with_step-Keeps (some step) =
          Keeps-bind _ _ (Keeps-chunk i _ _ (rows_only-IsQuiet _))
            λ done. Keeps-bind _ _ gateway λ r. search (invariant_rules, end_or_retry-Keeps)

      pub run_action-Keeps : Keeps P (run_action registry x a)
      unfolding run_action
      run_action-Keeps = search (invariant_rules, claim_step-Keeps, with_step-Keeps)
