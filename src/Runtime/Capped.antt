-- ===== src/Runtime/Capped.antt =====
-- The operations at MAX_EXECUTION_STEPS: they do not depend on the planner and on the tools.
use safeops.Prelude.{
  ℕ, ◌≡◌, ◌≤◌, refl, sym, ap, ◌∙◌, subst, inl, inr, String, false, Option, none, some, List, length,
  ltb, arith,
}
use safeops.Model.Uuid.{Uuid}
use safeops.Model.Enums.{ExecutionStatus}
use safeops.Model.Rows.{Execution, ExecutionStep}
use safeops.Model.Db.{Db}
use safeops.Exec.{Exec}
use safeops.Exec.Agree.{Agrees, Agrees-refl, Agrees-bind, Agrees-read}
use safeops.Audit.Tables.{Same}
use safeops.Audit.Invariant.{IsInvariant}
use safeops.Gateway.Tooling.{Registry}
use safeops.Planner.{Planner, ToolAction, crashed}
use safeops.Runtime.Results.{RuntimeResult}
use safeops.Runtime.Lease.{
  find_execution, reloaded, release_stepping, finally_release, under_claim, locked,
}
use safeops.Runtime.Steps.{load_history}
use safeops.Runtime.Advance.{Settings, bounded, advance}
use safeops.Runtime.Entry.{
  unless_refused, unless_running, when_running, on_found, on_execution, exclusively, step,
  submit_external_action,
}
use safeops.Runtime.Keeps.{claim_stepping-Keeps, find_execution-id, reloaded-id}
use safeops.Runtime.Places.{PlacesAre, PlacesAre-IsInvariant}
use safeops.Runtime.Bound.{count_of, count_of-snoc, length-load_history}
use safeops.Runtime.Authorized.{advance-Authorized, submit-Authorized}

-- A planner that never answers, and no tools.
abbrev mute : Planner
mute x context history = crashed

abbrev empty : {W : Type 0} → Registry W
empty name = none

-- The execution has at least `n` steps.
abbrev pub HasSteps : {W : Type 0} → ℕ → Uuid → Db W → Type 0
HasSteps n id = PlacesAre (λ ps. n ≤ count_of id ps)

module _ {W : Type 0} {P : Db W → Type 0} (i : IsInvariant P) (id : Uuid) where
  -- Bodies that do the same for this execution.
  abbrev pub Alike :
      (Execution → Exec W RuntimeResult) → (Execution → Exec W RuntimeResult) → Type 0
  Alike f g = (x : Execution) → x.id ≡ id → Agrees P (f x) (g x)

  finally_release-Agrees :
      {A : Type 0} (x claim : Uuid) (m n : Exec W A)
      → Agrees P m n
      → Agrees P (finally_release x claim m) (finally_release x claim n)
  unfolding finally_release
  finally_release-Agrees x claim m n k = record {
    at = λ db p. ap (λ (r : _). (r.0, (release_stepping x claim r.1).1)) (k.at db p);
  }

  under_claim-Agrees :
      (x : Execution) (f g : Execution → Exec W RuntimeResult) (claim : Option Uuid)
      → x.id ≡ id
      → Alike f g
      → Agrees P (under_claim x f claim) (under_claim x g claim)
  under_claim-Agrees x f g none own k = Agrees-refl _
  under_claim-Agrees x f g (some claim) own k =
      finally_release-Agrees x.id claim _ _
        (Agrees-read (reloaded x) f g λ db p. (k (reloaded x db) (reloaded-id x db ∙ own)).at db p)

  locked-Agrees :
      (ttl : ℕ) (x : Execution) (f g : Execution → Exec W RuntimeResult)
      → x.id ≡ id
      → Alike f g
      → Agrees P (locked ttl x f) (locked ttl x g)
  unfolding locked
  locked-Agrees ttl x f g own k =
      Agrees-bind _ _ _ (claim_stepping-Keeps i ttl x.id)
        (λ claim. under_claim-Agrees x f g claim own k)

  when_running-Agrees :
      (refusal : ExecutionStatus → String) (f g : Execution → Exec W RuntimeResult) (x : Execution)
      → Agrees P (f x) (g x)
      → Agrees P (when_running refusal f x) (when_running refusal g x)
  when_running-Agrees refusal f g x k = go (unless_running refusal x.status)
    where
      go : (o : Option String) → Agrees P (unless_refused x o (f x)) (unless_refused x o (g x))
      go none = k
      go (some reason) = Agrees-refl _

  on_found-Agrees :
      (f g : Execution → Exec W RuntimeResult) (o : Option Execution)
      → ((x : Execution) → o ≡ some x → x.id ≡ id)
      → Alike f g
      → Agrees P (on_found f o) (on_found g o)
  on_found-Agrees f g none own k = Agrees-refl _
  on_found-Agrees f g (some x) own k = k x (own x refl)

  pub exclusively-Agrees :
      (before under : ExecutionStatus → String) (ttl : ℕ) (f g : Execution → Exec W RuntimeResult)
      → Alike f g
      → Agrees P (exclusively before under ttl id f) (exclusively before under ttl id g)
  unfolding exclusively on_execution
  exclusively-Agrees before under ttl f g k =
      let inside : (h : Execution → Exec W RuntimeResult) → Execution → Exec W RuntimeResult =
        λ h. when_running before λ x. locked ttl x (when_running under h) in
      Agrees-read (λ db. find_execution id db.executions) (on_found (inside f))
        (on_found (inside g))
        λ db p.
          (on_found-Agrees (inside f) (inside g) (find_execution id db.executions)
              (λ x found. find_execution-id id db.executions found)
              (λ x own.
                when_running-Agrees before (λ y. locked ttl y (when_running under f))
                  (λ y. locked ttl y (when_running under g)) x
                  (locked-Agrees ttl x (when_running under f) (when_running under g) own
                    (λ y same. when_running-Agrees under f g y (k y same))))).at
            db p

module _ {W : Type 0} (settings : Settings) (id : Uuid) where
  HasSteps-IsInvariant : (n : ℕ) → IsInvariant (HasSteps {W = W} n id)
  HasSteps-IsInvariant n =
      PlacesAre-IsInvariant (λ ps. n ≤ count_of id ps)
        (λ s ss free h. ground (arith, count_of-snoc id s ss))

  bounded-Agrees :
      (x : Execution) (f g : List ExecutionStep → Exec W RuntimeResult)
      → x.id ≡ id
      → Agrees
          (HasSteps settings.max_execution_steps id)
          (bounded settings x f)
          (bounded settings x g)
  unfolding bounded
  bounded-Agrees x f g own =
      Agrees-read (λ db. load_history x.id db.steps) _ _
        λ db p.
          let full : ltb (length (load_history x.id db.steps)) settings.max_execution_steps
              ≡ false =
            rw (length-load_history x.id db.steps, own) (ground (arith, p.holds)) in
          rw full refl

  step_independent :
      (registry other : Registry W) (planner rival : Planner)
      → Agrees
          (HasSteps settings.max_execution_steps id)
          (step registry planner settings id)
          (step other rival settings id)
  unfolding step advance
  step_independent registry other planner rival =
      exclusively-Agrees (HasSteps-IsInvariant settings.max_execution_steps) id _ _ _ _ _
        λ x own. bounded-Agrees x _ _ own

  submit_independent :
      (registry other : Registry W) (planner rival : Planner) (action : ToolAction)
      → Agrees
          (HasSteps settings.max_execution_steps id)
          (submit_external_action registry planner settings id action)
          (submit_external_action other rival settings id action)
  unfolding submit_external_action
  submit_independent registry other planner rival action =
      exclusively-Agrees (HasSteps-IsInvariant settings.max_execution_steps) id _ _ _ _ _
        λ x own. bounded-Agrees x _ _ own

  mute-step-Same : (db : Db W) → Same db (step empty mute settings id db).1
  mute-step-Same db = elim (advance-Authorized empty mute settings id db).0 [
    | inl same ↦ same
    | inr (x, act, history, own, chosen, reason) ↦ absurd (cc)
  ]

  empty-submit-Same :
      (action : ToolAction) (db : Db W)
      → Same db (submit_external_action empty mute settings id action db).1
  empty-submit-Same action db = elim (submit-Authorized empty mute settings id action db) [
    | inl same ↦ same
    | inr (x, own, (moment, same, (agent, ex, tool, a, e, o, s, registered, rest))) ↦ absurd (cc)
  ]

  -- An execution that has MAX_EXECUTION_STEPS steps or more, whoever adds more of them meanwhile:
  -- what a step and a submitted action do with it depends neither on the planner nor on the tools, and
  -- they leave the tools' tables and the tables that authorize a call as they were.
  pub step-capped :
      (registry other : Registry W) (planner rival : Planner) (action : ToolAction) (db : Db W)
      → settings.max_execution_steps ≤ length (load_history id db.steps)
      → (step registry planner settings id db ≡ step other rival settings id db)
        × (submit_external_action registry planner settings id action db
            ≡ submit_external_action other rival settings id action db)
        × Same db (step registry planner settings id db).1
        × Same db (submit_external_action registry planner settings id action db).1
  step-capped registry other planner rival action db h =
      let full : HasSteps settings.max_execution_steps id db = record {
        holds = subst (λ n. settings.max_execution_steps ≤ n) (length-load_history id db.steps) h;
      } in
      let stepped = (step_independent registry empty planner mute).at db full in
      let submitted = (submit_independent registry empty planner mute action).at db full in
      (
        (step_independent registry other planner rival).at db full,
        (submit_independent registry other planner rival action).at db full,
        subst (λ r. Same db r.1) (sym stepped) (mute-step-Same db),
        subst (λ r. Same db r.1) (sym submitted) (empty-submit-Same action db),
      )
