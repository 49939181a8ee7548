-- ===== src/Approval/Runs.antt =====
-- When a decision on a request runs the tool.
use safeops.Prelude.{
  ℕ, ◌≡◌, refl, sym, ◌∙◌, ap, subst, ◌⊎◌, ◌<◌, inl, inr, String, true, ◌&&◌, Option, none, some,
  List, ltb, Bool-cases, arith,
}
use safeops.Model.Uuid.{Uuid}
use safeops.Model.Enums.{ApprovalStatus}
use safeops.Model.Rows.{ApprovalRequest}
use safeops.Model.Db.{Db, amend}
use safeops.Exec.{Exec, Outcome, returned, raised, continue, gets, ◌>>=◌}
use safeops.Exec.Keeps.{Keeps, keeps_rules}
use safeops.Audit.Tables.{Same, Same-refl, Same-ids, commit_chunk-Same}
use safeops.Gateway.Tooling.{ToolImpl, Registry}
use safeops.Gateway.Quiet.{rows_only-IsQuiet}
use safeops.Approval.Expire.{is_pending, find_approval, claim_found, refreshed}
use safeops.Approval.Run.{
  ActionOutcome, finalize_execution_outcome, run_approved, run_registered, execute_approved_action,
}
use safeops.Approval.Entry.{
  Operator, Verdict, approval, rejection, carry_out, after_claim, may_claim, claimed_by,
}
use safeops.Approval.Quiet.{outcome_builder-IsQuiet, rejection_builder-IsQuiet}
use safeops.Approval.Kin.{Alike, Kin, find-amend_found, find_approval-id}

ruleset same_rules = (
  keeps_rules, commit_chunk-Same, Same-ids, rows_only-IsQuiet, outcome_builder-IsQuiet,
  rejection_builder-IsQuiet,
)

-- The registered tool has run once, on the arguments of the request.
abbrev pub HasRun : {W : Type 0} → Registry W → ApprovalRequest → W → W → Type 0
HasRun {W} registry p before after =
    (tool : ToolImpl W) × (registry p.tool_name ≡ some tool)
    × (after ≡ (tool.run p.approved_arguments before).1)

module _ {W : Type 0} (a : Db W) where
  finalize_execution_outcome-Same :
      (p : ApprovalRequest) (name : String) (o : ActionOutcome)
      → Keeps (Same a) (finalize_execution_outcome p name o)
  unfolding finalize_execution_outcome
  finalize_execution_outcome-Same p name o = search same_rules

module _ {W : Type 0} where
  run_registered-world :
      (o : Option (ToolImpl W)) (p : ApprovalRequest) (name : String) (a db : Db W)
      → Same a db
      → ((run_registered o p name db).1.world ≡ a.world)
        ⊎ ((tool : ToolImpl W) × (o ≡ some tool)
            × ((run_registered o p name db).1.world ≡ (tool.run p.approved_arguments a.world).1))
  unfolding run_registered ◌>>=◌ run_approved
  run_registered-world none p name a db s =
      inl ((finalize_execution_outcome-Same a p name _).at db s).world
  run_registered-world (some tool) p name a db s =
      let (r, w) = tool.run p.approved_arguments db.world in
      let after : Db W = record db { world = (tool.run p.approved_arguments db.world).1 } in
      inr (
        tool,
        refl,
        ((finalize_execution_outcome-Same after p name _).at after (Same-refl after)).world
            ∙ ap (λ x. (tool.run p.approved_arguments x).1) s.world,
      )

HasRun-Alike :
    {W : Type 0} (registry : Registry W) (p q : ApprovalRequest) {before after : W}
    → Alike p q
    → HasRun registry q before after
    → HasRun registry p before after
HasRun-Alike registry p q {before} {after} (name, args, deadline) (tool, found, ran) = (
  tool,
  subst (λ n. registry n ≡ some tool) name found,
  subst (λ xs. after ≡ (tool.run xs before).1) args ran,
)

pub may_claim-pending :
    (t : ℕ) (q : ApprovalRequest)
    → may_claim t q ≡ true
    → (q.status ≡ ApprovalStatus.pending) × (t < q.expires_at)
may_claim-pending t q h = go q.status refl h
  where
    go :
        (s : ApprovalStatus)
        → q.status ≡ s
        → is_pending s && ltb t q.expires_at ≡ true
        → (q.status ≡ ApprovalStatus.pending) × (t < q.expires_at)
    go ApprovalStatus.pending e f = (e, ground arith)
    go ApprovalStatus.approved e f = cc
    go ApprovalStatus.rejected e f = cc
    go ApprovalStatus.expired e f = cc
    go ApprovalStatus.executed e f = cc

-- From a database that satisfies `P`, the call ends in one that satisfies `Q`.
pub record Leads {W A : Type 0} (P Q : Db W → Type 0) (m : Exec W A) : Type 0 where
  pub at : (db : Db W) → P db → Q (m db).1

module _ {W : Type 0} {P Q : Db W → Type 0} (stop : (db : Db W) → P db → Q db) where
  Leads-continue :
      {A B : Type 0} (r : Outcome A) (f : A → Exec W B)
      → ((x : A) → r ≡ returned x → Leads P Q (f x))
      → Leads P Q (continue r f)
  Leads-continue (returned x) f k = record { at = λ db p. (k x refl).at db p }
  Leads-continue (raised e) f k = record { at = stop }

  -- What was returned may be used.
  pub Leads-returned :
      {A B : Type 0} (m : Exec W A) (f : A → Exec W B)
      → Keeps P m
      → ((x : A) (db : Db W) → (m db).0 ≡ returned x → Leads P Q (f x))
      → Leads P Q (m >>= f)
  unfolding ◌>>=◌
  Leads-returned m f km kf = record {
    at = λ db p. (Leads-continue (m db).0 f (λ x e. kf x db e)).at (m db).1 (km.at db p);
  }

  pub Leads-bind :
      {A B : Type 0} (m : Exec W A) (f : A → Exec W B)
      → Keeps P m
      → ((x : A) → Leads P Q (f x))
      → Leads P Q (m >>= f)
  Leads-bind m f km kf = Leads-returned m f km (λ x db e. kf x)

  pub Leads-Keeps : {A : Type 0} (m : Exec W A) → Keeps P m → Leads P Q m
  Leads-Keeps m km = record { at = λ db p. stop (m db).1 (km.at db p) }

module _ {W : Type 0} (registry : Registry W) (operator : Operator) (a : Db W) where
  Ended : Verdict → ApprovalRequest → Db W → Type 0
  Ended v p db = (db.world ≡ a.world) ⊎ ((v ≡ approval) × HasRun registry p a.world db.world)

  carry_out-Ended :
      (v : Verdict) (p : ApprovalRequest) (t : ℕ)
      → Leads (Same a) (Ended v p) (carry_out registry operator v p t)
  unfolding carry_out execute_approved_action Ended
  carry_out-Ended (rejection reason) p t = Leads-Keeps (λ db s. inl s.world) _ (search same_rules)
  carry_out-Ended approval p t =
      let stop : (db : Db W) → Same a db → Ended approval p db = λ db s. inl s.world in
      Leads-bind stop _ _ (search same_rules) λ agent.
        Leads-bind stop _ _ (commit_chunk-Same a _ _ (rows_only-IsQuiet _)) λ approved.
          Leads-bind stop _ _ (commit_chunk-Same a _ _ (rows_only-IsQuiet _)) λ started. record {
            at = λ db s. elim (run_registered-world (registry p.tool_name) p _ a db s) [
              | inl idle ↦ inl idle
              | inr (tool, found, ran) ↦ inr (refl, (tool, found, ran))
            ];
          }

  -- What a resolution may come to: nothing was run, or the request was approved in time, as it is
  -- stored in `a`, and its call has run.
  abbrev pub Resolved : Uuid → Verdict → Db W → Type 0
  Resolved id v db =
      (db.world ≡ a.world)
      ⊎ ((p : ApprovalRequest) × (find_approval id a.approvals ≡ some p)
          × (v ≡ approval)
          × (a.clock < p.expires_at)
          × HasRun registry p a.world db.world)

  pub unresolved : (id : Uuid) (v : Verdict) (db : Db W) → Kin id a db → Resolved id v db
  unresolved id v db k = inl k.same.world

  Same-requests :
      {db : Db W} {xs : List ApprovalRequest} → Same a db → Same a (record db { approvals = xs })
  Same-requests s = record {
    world = s.world;
    agents = s.agents;
    tools = s.tools;
    permissions = s.permissions;
    policies = s.policies;
    clock = s.clock;
  }

  claimed-Resolved :
      (v : Verdict) (p q : ApprovalRequest) (db : Db W)
      → Kin p.id a db
      → find_approval p.id db.approvals ≡ some q
      → may_claim a.clock q ≡ true
      → (db' : Db W) → Same a db'
      → Resolved p.id v
          (carry_out registry operator v (claimed_by operator v a.clock q) a.clock db').1
  unfolding Ended
  claimed-Resolved v p q db k e free db' s =
      let (stored, at_start, alike) = k.kin q e in
      let in_time = (may_claim-pending a.clock q free).1 in
      elim ((carry_out-Ended v (claimed_by operator v a.clock q) a.clock).at db' s) [
        | inl idle ↦ inl idle
        | inr (approved, ran) ↦ inr (
          stored,
          at_start,
          approved,
          subst (λ d. a.clock < d) alike.2 in_time,
          HasRun-Alike registry stored (claimed_by operator v a.clock q) alike ran,
        )
      ]

  -- After the claim: on a request that was found free, the verdict is carried out.
  pub after_claim-Resolved :
      (v : Verdict) (p : ApprovalRequest) (o : Option ApprovalRequest) (db : Db W)
      → Kin p.id a db
      → find_approval p.id db.approvals ≡ o
      → Resolved p.id v
          (continue
            (claim_found (may_claim a.clock) (claimed_by operator v a.clock) o db).0
            (λ claimed.
              gets (refreshed p) >>= λ p'. after_claim registry operator v a.clock p' claimed)
            (claim_found (may_claim a.clock) (claimed_by operator v a.clock) o db).1).1
  unfolding ◌>>=◌
  after_claim-Resolved v p none db k e = unresolved p.id v db k
  after_claim-Resolved v p (some q) db k e = elim (Bool-cases (may_claim a.clock q)) [
    | inr late ↦ rw late (unresolved p.id v db k)
    | inl free ↦
        let change = claimed_by operator v a.clock in
        let found : find_approval p.id (amend (λ x. x.id) q.id change db.approvals)
            ≡ some (change q) =
          subst
            (λ i. find_approval p.id (amend (λ x. x.id) i change db.approvals) ≡ some (change q))
            (sym (find_approval-id p.id db.approvals q e))
            (find-amend_found p.id change (λ x. refl) db.approvals q e) in
        let claimed : Db W = record db { approvals = amend (λ x. x.id) q.id change db.approvals } in
        rw (free, found) (claimed-Resolved v p q db k e free claimed (Same-requests k.same))
  ]
