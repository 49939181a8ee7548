-- ===== src/Gateway/Log.antt =====
-- The inner handlers of the gateway under invariants of the services.
use safeops.Prelude.{String, Bool, Option}
use safeops.Model.Uuid.{Uuid}
use safeops.Model.Enums.{PolicyAction}
use safeops.Model.Rows.{ToolRequest, ToolError}
use safeops.Model.Db.{Db}
use safeops.Exec.Keeps.{Keeps}
use safeops.Audit.Invariant.{IsInvariant, IgnoresWorld, invariant_rules}
use safeops.Risk.Engine.{RiskAssessmentResult}
use safeops.Policy.Engine.{PolicyEvaluationResult}
use safeops.Gateway.Tooling.{ToolRun, crashed, success, failure, Call, RiskSummary}
use safeops.Gateway.Record.{record_failure, record_run, execute_and_record}
use safeops.Gateway.Escalate.{finalize_risk_block, create_approval_and_commit}
use safeops.Gateway.Assess.{Settled, finalize, assess_risk_and_finalize}
use safeops.Gateway.Permit.{
  policy_block, policy_pass, after_policy, handle_conditional, handle_direct_allow,
}
use safeops.Gateway.Quiet.{
  rows_only-IsQuiet, approval_builder-IsQuiet, Keeps-catch_conflict, run_tool-Keeps,
}

pub ruleset log_rules = (
  invariant_rules, rows_only-IsQuiet, approval_builder-IsQuiet, Keeps-catch_conflict,
  run_tool-Keeps,
)

module _ {W : Type 0} {P : Db W → Type 0} (inv : IsInvariant P) (w : IgnoresWorld P) where
  record_failure-Keeps :
      (c : Call W) (request : ToolRequest) (e : ToolError) (p : Option String) (i : Option Uuid)
      (r : RiskSummary)
      → Keeps P (record_failure c request e p i r)
  unfolding record_failure
  record_failure-Keeps c request e p i r = search log_rules

  record_run-Keeps :
      (c : Call W) (request : ToolRequest) (p : Option String) (i : Option Uuid) (r : RiskSummary)
      (run : ToolRun)
      → Keeps P (record_run c request p i r run)
  unfolding record_run
  record_run-Keeps c request p i r crashed = search record_failure-Keeps
  record_run-Keeps c request p i r (failure e) = search record_failure-Keeps
  record_run-Keeps c request p i r (success output) = search log_rules

  execute_and_record-Keeps :
      (c : Call W) (request : ToolRequest) (p : Option String) (i : Option Uuid) (r : RiskSummary)
      → Keeps P (execute_and_record c request p i r)
  unfolding execute_and_record
  execute_and_record-Keeps c request p i r = search (log_rules, record_run-Keeps)

  finalize_risk_block-Keeps :
      (c : Call W) (request : ToolRequest) (risk : RiskAssessmentResult) (id : Uuid) (b : Bool)
      (p : Option String) (i : Option Uuid) (r : RiskSummary)
      → Keeps P (finalize_risk_block c request risk id b p i r)
  unfolding finalize_risk_block
  finalize_risk_block-Keeps c request risk id b p i r = search log_rules

  create_approval_and_commit-Keeps :
      (c : Call W) (request : ToolRequest) (id : Uuid) (reason : String) (b : Bool)
      (p : Option String) (i : Option Uuid) (r : RiskSummary)
      → Keeps P (create_approval_and_commit c request id reason b p i r)
  unfolding create_approval_and_commit
  create_approval_and_commit-Keeps c request id reason b p i r = search log_rules

  finalize-Keeps :
      (c : Call W) (request : ToolRequest) (s : Settled) (risk : RiskAssessmentResult) (id : Uuid)
      (d : PolicyAction)
      → Keeps P (finalize c request s risk id d)
  unfolding finalize
  finalize-Keeps c request s risk id PolicyAction.block = search finalize_risk_block-Keeps
  finalize-Keeps c request s risk id PolicyAction.require_approval =
      search create_approval_and_commit-Keeps
  finalize-Keeps c request s risk id PolicyAction.allow =
      search (log_rules, execute_and_record-Keeps)

  assess_risk_and_finalize-Keeps :
      (c : Call W) (request : ToolRequest) (s : Settled)
      → Keeps P (assess_risk_and_finalize c request s)
  unfolding assess_risk_and_finalize
  assess_risk_and_finalize-Keeps c request s = search (log_rules, finalize-Keeps)

  after_policy-Keeps :
      (c : Call W) (request : ToolRequest) (r : PolicyEvaluationResult) (d : PolicyAction)
      → Keeps P (after_policy c request r d)
  unfolding after_policy policy_block policy_pass
  after_policy-Keeps c request r PolicyAction.block = search log_rules
  after_policy-Keeps c request r PolicyAction.allow =
      search (log_rules, assess_risk_and_finalize-Keeps)
  after_policy-Keeps c request r PolicyAction.require_approval =
      search (log_rules, assess_risk_and_finalize-Keeps)

  pub handle_conditional-Keeps : (c : Call W) → Keeps P (handle_conditional c)
  unfolding handle_conditional
  handle_conditional-Keeps c = search (log_rules, after_policy-Keeps)

  pub handle_direct_allow-Keeps : (c : Call W) → Keeps P (handle_direct_allow c)
  unfolding handle_direct_allow
  handle_direct_allow-Keeps c = search (log_rules, assess_risk_and_finalize-Keeps)
