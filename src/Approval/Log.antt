-- ===== src/Approval/Log.antt =====
-- Decisions on requests under invariants of the services, the growth of the audit log among them.
use safeops.Prelude.{ℕ, String, Bool, true, false, Option, none, some}
use safeops.Model.Uuid.{Uuid}
use safeops.Model.Rows.{ApprovalRequest}
use safeops.Model.Db.{Db}
use safeops.Exec.Keeps.{Keeps}
use safeops.Audit.Invariant.{IsInvariant, IgnoresWorld, invariant_rules}
use safeops.Gateway.Tooling.{ToolImpl, Registry}
use safeops.Gateway.Quiet.{rows_only-IsQuiet}
use safeops.Approval.Expire.{record_expiry, expire, expire_if, lazy_expire}
use safeops.Approval.Run.{
  ActionOutcome, finalize_execution_outcome, run_approved, run_registered, execute_approved_action,
}
use safeops.Approval.Entry.{
  Operator, Verdict, approval, rejection, carry_out, after_claim, decide, if_approvable, if_pending,
  with_approval, resolve,
}
use safeops.Approval.Quiet.{
  Keeps-claim, IsInvariant-approvals, expiry_builder-IsQuiet, outcome_builder-IsQuiet,
  rejection_builder-IsQuiet,
}

ruleset log_rules = (
  invariant_rules, rows_only-IsQuiet, expiry_builder-IsQuiet, outcome_builder-IsQuiet,
  rejection_builder-IsQuiet, Keeps-claim, IsInvariant-approvals,
)

module _ {W : Type 0} {P : Db W → Type 0} (inv : IsInvariant P) (w : IgnoresWorld P) where
  record_expiry-Keeps : (p : ApprovalRequest) (t : ℕ) (b : Bool) → Keeps P (record_expiry p t b)
  record_expiry-Keeps p t false = search log_rules
  record_expiry-Keeps p t true = search log_rules

  expire_if-Keeps : (b : Bool) (p : ApprovalRequest) (t : ℕ) → Keeps P (expire_if b p t)
  unfolding expire
  expire_if-Keeps false p t = search log_rules
  expire_if-Keeps true p t = search (log_rules, record_expiry-Keeps)

  lazy_expire-Keeps : (p : ApprovalRequest) (t : ℕ) → Keeps P (lazy_expire p t)
  unfolding lazy_expire
  lazy_expire-Keeps p t = search expire_if-Keeps

  finalize_execution_outcome-Keeps :
      (p : ApprovalRequest) (name : String) (o : ActionOutcome)
      → Keeps P (finalize_execution_outcome p name o)
  unfolding finalize_execution_outcome
  finalize_execution_outcome-Keeps p name o = search log_rules

  run_approved-Keeps : (tool : ToolImpl W) (args : _) → Keeps P (run_approved tool args)
  unfolding run_approved
  run_approved-Keeps tool args = record { at = λ db p. w.world db _ p }

  run_registered-Keeps :
      (o : Option (ToolImpl W)) (p : ApprovalRequest) (name : String)
      → Keeps P (run_registered o p name)
  unfolding run_registered
  run_registered-Keeps none p name = search finalize_execution_outcome-Keeps
  run_registered-Keeps (some tool) p name =
      search (log_rules, run_approved-Keeps, finalize_execution_outcome-Keeps)

module _ {W : Type 0} {P : Db W → Type 0} (inv : IsInvariant P) (w : IgnoresWorld P)
    (registry : Registry W) (operator : Operator) where
  execute_approved_action-Keeps :
      (p : ApprovalRequest) (name : String) → Keeps P (execute_approved_action registry p name)
  unfolding execute_approved_action
  execute_approved_action-Keeps p name = search (log_rules, run_registered-Keeps)

  after_claim-Keeps :
      (v : Verdict) (t : ℕ) (p : ApprovalRequest) (b : Bool)
      → Keeps P (after_claim registry operator v t p b)
  unfolding carry_out
  after_claim-Keeps v t p false = search log_rules
  after_claim-Keeps approval t p true = search (log_rules, execute_approved_action-Keeps)
  after_claim-Keeps (rejection reason) t p true = search log_rules

  if_approvable-Keeps :
      (v : Verdict) (p : ApprovalRequest) (t : ℕ) (b : Bool)
      → Keeps P (if_approvable registry operator v p t b)
  unfolding decide
  if_approvable-Keeps v p t false = search log_rules
  if_approvable-Keeps v p t true = search (log_rules, after_claim-Keeps)

  if_pending-Keeps :
      (v : Verdict) (p : ApprovalRequest) (t : ℕ) (b : Bool)
      → Keeps P (if_pending registry operator v p t b)
  if_pending-Keeps v p t false = search log_rules
  if_pending-Keeps v p t true = search (log_rules, if_approvable-Keeps)

  with_approval-Keeps :
      (v : Verdict) (p : Option ApprovalRequest) → Keeps P (with_approval registry operator v p)
  unfolding with_approval
  with_approval-Keeps v none = search log_rules
  with_approval-Keeps v (some p) = search (log_rules, lazy_expire-Keeps, if_pending-Keeps)

  pub resolve-Keeps : (id : Uuid) (v : Verdict) → Keeps P (resolve registry operator id v)
  unfolding resolve
  resolve-Keeps id v = search (log_rules, with_approval-Keeps)
