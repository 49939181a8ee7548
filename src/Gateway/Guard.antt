-- ===== src/Gateway/Guard.antt =====
-- The inner handlers of the gateway: the tool is run only where policy and risk both allow it.
use safeops.Prelude.{String, ◌≡◌, ◌≢◌, refl, inl, Bool, Option}
use safeops.Model.Uuid.{Uuid}
use safeops.Model.Enums.{PolicyAction}
use safeops.Model.Rows.{ToolRequest}
use safeops.Model.Db.{Db}
use safeops.Exec.{Exec, Outcome, returned, raised, approval_state_conflict}
use safeops.Exec.Keeps.{Keeps, keeps_rules}
use safeops.Audit.Tables.{Same, Same-ids, commit_chunk-Same}
use safeops.Risk.Engine.{RiskAssessmentResult, combine_decisions}
use safeops.Risk.Engine.Decisions.{combine_decisions-allow}
use safeops.Policy.Engine.{PolicyEvaluationResult}
use safeops.Gateway.Tooling.{Call, GatewayResult, RiskSummary, executed}
use safeops.Gateway.Escalate.{
  finalize_risk_block, create_approval_and_commit, catch_conflict, on_conflict,
}
use safeops.Gateway.Assess.{Settled, finalize, assess_risk_and_finalize, assess_call}
use safeops.Gateway.Permit.{
  policy_block, policy_pass, after_policy, handle_conditional, handle_direct_allow, policy_result,
}
use safeops.Gateway.Quiet.{rows_only-IsQuiet, approval_builder-IsQuiet, Keeps-catch_conflict}
use safeops.Gateway.Only.{Only, NotExecuted, Only-pure, Only-of, Only-bind, Only-read, Only-weaken}

pub ruleset same_rules =
    (keeps_rules, commit_chunk-Same, Same-ids, rows_only-IsQuiet, approval_builder-IsQuiet)

-- A handled conflict ends in one of two results, neither of them EXECUTED.
Only-catch_conflict :
    {W : Type 0} {P : Db W → Type 0} {A : Type 0} (m : Exec W Unit)
    (created conflict : GatewayResult)
    → Keeps P m
    → created.status ≢ executed
    → conflict.status ≢ executed
    → Only P A (catch_conflict m created conflict)
unfolding catch_conflict
Only-catch_conflict {P} m created conflict k nc nf = record {
  at = λ db p. let (r, db') = m db in inl (go r db' (k.at db p));
}
  where
    go :
        (r : Outcome Unit) (db : Db _)
        → P db
        → P (on_conflict (r, db) created conflict).1
          × NotExecuted (on_conflict (r, db) created conflict).0
    go (returned done) db p = (p, nc)
    go (raised approval_state_conflict) db p = (p, nf)
    go (raised e) db p = (p, tt)

module _ {W : Type 0} (a : Db W) where
  -- At some moment of the call, on the tables of its start, the risk engine recommends ALLOW.
  abbrev pub RiskAllows : Call W → Type 0
  RiskAllows c =
      (db : Db W) × Same a db × ((assess_call c db).recommended_action ≡ PolicyAction.allow)

  finalize_risk_block-Only :
      {A : Type 0} (c : Call W) (request : ToolRequest) (risk : RiskAssessmentResult) (id : Uuid)
      (b : Bool) (p : Option String) (i : Option Uuid) (r : RiskSummary)
      → Only (Same a) A (finalize_risk_block c request risk id b p i r)
  unfolding finalize_risk_block
  finalize_risk_block-Only c request risk id b p i r = Only-bind _ _ (search same_rules) λ n.
      Only-bind _ _ (search same_rules)
        λ t. Only-bind _ _ (search same_rules) λ done. Only-pure _ (cc)

  create_approval_and_commit-Only :
      {A : Type 0} (c : Call W) (request : ToolRequest) (id : Uuid) (reason : String) (b : Bool)
      (p : Option String) (i : Option Uuid) (r : RiskSummary)
      → Only (Same a) A (create_approval_and_commit c request id reason b p i r)
  unfolding create_approval_and_commit
  create_approval_and_commit-Only c request id reason b p i r =
      Only-bind _ _ (search same_rules) λ t.
        Only-bind _ _ (search same_rules)
          λ n. Only-catch_conflict _ _ _ (search same_rules) (λ e. cc) (λ e. cc)

  finalize-Only :
      (c : Call W) (request : ToolRequest) (s : Settled) (risk : RiskAssessmentResult) (id : Uuid)
      (d : PolicyAction)
      → Only (Same a) (d ≡ PolicyAction.allow) (finalize c request s risk id d)
  unfolding finalize
  finalize-Only c request s risk id PolicyAction.block =
      finalize_risk_block-Only c request risk id _ _ _ _
  finalize-Only c request s risk id PolicyAction.require_approval =
      create_approval_and_commit-Only c request _ _ _ _ _ _
  finalize-Only c request s risk id PolicyAction.allow = Only-of _ refl

  pub assess-Only :
      (c : Call W) (request : ToolRequest) (s : Settled)
      → Only
          (Same a)
          ((s.action ≡ PolicyAction.allow) × RiskAllows c)
          (assess_risk_and_finalize c request s)
  unfolding assess_risk_and_finalize
  assess-Only c request s = Only-read (assess_call c) _ λ db same.
      Only-bind _ _ (search same_rules) λ id. Only-bind _ _ (search same_rules) λ done.
        Only-weaken _
          (λ e.
            let (policy, risk) =
              combine_decisions-allow s.action (assess_call c db).recommended_action e in
            (policy, (db, same, risk)))
          (finalize-Only c request s (assess_call c db) id
            (combine_decisions s.action (assess_call c db).recommended_action))

  policy_pass-Only :
      (c : Call W) (request : ToolRequest) (r : PolicyEvaluationResult)
      → Only (Same a) ((r.decision ≡ PolicyAction.allow) × RiskAllows c) (policy_pass c request r)
  unfolding policy_pass
  policy_pass-Only c request r =
      Only-bind _ _ (search same_rules)
        λ id. Only-bind _ _ (search same_rules) λ done. assess-Only c request _

  after_policy-Only :
      (c : Call W) (request : ToolRequest) (r : PolicyEvaluationResult) (d : PolicyAction)
      → Only
          (Same a)
          ((r.decision ≡ PolicyAction.allow) × RiskAllows c)
          (after_policy c request r d)
  unfolding after_policy policy_block
  after_policy-Only c request r PolicyAction.block = Only-bind _ _ (search same_rules) λ id.
      Only-bind _ _ (search same_rules)
        λ t. Only-bind _ _ (search same_rules) λ done. Only-pure _ (cc)
  after_policy-Only c request r PolicyAction.allow = policy_pass-Only c request r
  after_policy-Only c request r PolicyAction.require_approval = policy_pass-Only c request r

  pub handle_conditional-Only :
      (c : Call W)
      → Only
          (Same a)
          (((policy_result c a).decision ≡ PolicyAction.allow) × RiskAllows c)
          (handle_conditional c)
  unfolding handle_conditional
  handle_conditional-Only c = Only-bind _ _ (search same_rules) λ id.
      Only-bind _ _ (search same_rules) λ done. Only-read (policy_result c) _ λ db same.
        rw same.policies (after_policy-Only c _ (policy_result c a) (policy_result c a).decision)

  pub handle_direct_allow-Only : (c : Call W) → Only (Same a) (RiskAllows c) (handle_direct_allow c)
  unfolding handle_direct_allow
  handle_direct_allow-Only c = Only-bind _ _ (search same_rules) λ id.
      Only-bind _ _ (search same_rules) λ done.
        Only-bind _ _ (search same_rules) λ id'. Only-weaken _ (λ e. e.1) (assess-Only c _ _)
