-- ===== src/Tests/Steps.antt =====
-- An execution of the refund, step by step.
use safeops.Prelude.{ℕ, ◌≡◌, refl, ◌<◌, none, some, true, List, [], ◌∷◌, arith}
use safeops.Json.{end}
use safeops.Model.Uuid.{Uuid}
use safeops.Model.Enums.{StepType, StepStatus}
use safeops.Gateway.Tooling.{Registry}
use safeops.Model.Rows.{ExecutionStep}
use safeops.Model.Db.{Db}
use safeops.Exec.{returned, ◌>>=◌}
use safeops.Audit.Tables.{Same, Grows}
use safeops.Planner.{Planner, ToolAction, PlannerDecision, tool_action, complete, answered}
use safeops.Runtime.Lease.{claim_stepping, release_stepping, may_step, take_lease, update_where}
use safeops.Runtime.Steps.{load_history, claim_step}
use safeops.Runtime.Advance.{Settings}
use safeops.Runtime.Entry.{
  step, submit_external_action, start_execution, cancel, reconcile_external_step,
}
use safeops.Runtime.Numbers.{IsNext, Claimed, claim_step-Claimed}
use safeops.Runtime.Authorized.{bookkeeping-Same}
use safeops.Runtime.Capped.{step-capped}
use safeops.Runtime.Exclusive.{Turns, claims, releases, claim-exclusive, claim-available}
use safeops.System.{stepping, Reaches, served}
use safeops.System.Invariants.{Reaches-Grows}
use safeops.Tests.Fixtures.{store, registry, refund_of, running}

abbrev refund : ToolAction
refund = record {
  tool_name = "issue_refund";
  arguments = refund_of 40;
  reason = "Order 77";
  sources = [];
}

-- One refund, and the end.
abbrev decision : List ExecutionStep → PlannerDecision
decision [] = tool_action refund
decision (s ∷ ss) = complete "Refund issued"

abbrev pub planner : Planner
planner x context history = answered (decision history)

abbrev pub settings : Settings
settings = record { max_execution_steps = 1; lease_ttl = 300 }

-- One step is taken, one more is tried at the bound, and a stored request is approved.
abbrev pub second : Db ℕ
second = (step registry planner settings 3 store).1

abbrev path : Reaches registry planner settings store (step registry planner settings 3 second).1
path =
    Reaches.then (served (stepping 3) store)
      (Reaches.then (served (stepping 3) second) Reaches.here)

Reaches-Grows_example : Grows store (step registry planner settings 3 second).1
Reaches-Grows_example = Reaches-Grows registry planner settings path

claim_step-Claimed_example :
    (n : ℕ) × IsNext 3 store.steps n
    × Claimed 3 StepType.plan end store n (claim_step 3 StepType.plan end store)
claim_step-Claimed_example = claim_step-Claimed 3 StepType.plan end store

bookkeeping-Same_example :
    Same store (start_execution 1 "Refund order 78" none store).1
    × Same store (cancel 1 store).1
    × Same store (reconcile_external_step registry planner settings 1 store).1
bookkeeping-Same_example = bookkeeping-Same registry planner settings 1 "Refund order 78" none store

abbrev taken : ExecutionStep
taken = record {
  id = 60;
  execution_id = 3;
  sequence = 1;
  step_type = StepType.tool_call;
  tool_request_id = none;
  status = StepStatus.completed;
  input = end;
  output = none;
  completed_at = some 990;
}

-- The one step that the settings allow is taken.
abbrev full : Db ℕ
full = record store { steps = taken ∷ [] }

abbrev nothing : Planner
nothing x context history = answered (complete "Nothing to do")

abbrev no_tools : Registry ℕ
no_tools name = none

step-capped_example :
    (step registry planner settings 3 full ≡ step no_tools nothing settings 3 full)
    × (submit_external_action registry planner settings 3 refund full
        ≡ submit_external_action no_tools nothing settings 3 refund full)
    × Same full (step registry planner settings 3 full).1
    × Same full (submit_external_action registry planner settings 3 refund full).1
unfolding load_history
step-capped_example =
    step-capped settings 3 registry no_tools planner nothing refund full (ground arith)

-- Nobody commits behind the workers' backs.
abbrev quiet_store : Db ℕ
quiet_store = record store { rivals = [] }

abbrev claimed : Db ℕ
claimed = (claim_stepping 300 3 quiet_store).1

-- Another worker tries the claim, and a third one releases a claim that it does not have.
abbrev tried : Db ℕ
tried = (release_stepping 3 7 (claim_stepping 300 3 claimed).1).1

claim_of_3 : (claim_stepping 300 3 quiet_store).0 ≡ returned (some 100)
unfolding claim_stepping ◌>>=◌ may_step take_lease update_where
claim_of_3 = refl

claim-exclusive_example : (claim_stepping 300 3 tried).0 ≡ returned none
claim-exclusive_example = claim-exclusive 300 3 quiet_store 100 tried refl claim_of_3 (
    Turns.then (claims 3 claimed)
      (Turns.then (releases 3 7 (claim_stepping 300 3 claimed).1 (λ e f. ground arith)) Turns.here))

abbrev leased : Db ℕ
leased = record quiet_store {
  executions =
      record running { stepping = true; stepping_claim_id = some 7; stepping_claimed_at = some 600 }
      ∷ [];
}

claim-available_example :
    ((next : Uuid) × ((claim_stepping 300 3 (release_stepping 3 7 leased).1).0
        ≡ returned (some next)))
    × (900 < 1000 → (next : Uuid) × ((claim_stepping 300 3 leased).0 ≡ returned (some next)))
claim-available_example = claim-available 300 3 7 600 leased refl (_, refl, refl)
