-- ===== src/Approval/Entry.antt =====
-- `approve` and `reject`, that is `_resolve`.
use safeops.Prelude.{
  ℕ, String, Bool, true, false, ◌&&◌, Option, none, some, [], ◌∷◌, ◌==◌, ltb, if◌then◌else◌, find,
  append_text, str_eq,
}
use safeops.Json.{Fields, str, end, field}
use safeops.Model.Uuid.{Uuid, uuid_text}
use safeops.Model.Enums.{ExecutionStatus, ApprovalStatus, ToolRequestStatus, AuditEventType}
use safeops.Model.Rows.{Agent, Execution, ToolRequest, ApprovalRequest}
use safeops.Model.Db.{Db, amend, set_status}
use safeops.Exec.{Exec, pure, gets, now, ◌>>=◌, ◌>>◌}
use safeops.Audit.{Builder, commit_chunk}
use safeops.Gateway.Tooling.{Registry, event_row, rows_only}
use safeops.Approval.Expire.{
  is_pending, awaits_approval, is_waiting, find_approval, claim, refreshed, lazy_expire,
}
use safeops.Approval.Run.{
  not_found, already_resolved, invalid_state, rejected, ApprovalActionResult,
  execute_approved_action,
}

-- The authenticated operator.
pub record Operator : Type 0 where
  pub id : Uuid
  pub username : String

-- A decision with its arguments: a rejection may carry a reason.
pub data Verdict : Type 0 where
  approval : Verdict
  rejection : Option String → Verdict

abbrev pub new_status : Verdict → ApprovalStatus
new_status approval = ApprovalStatus.approved
new_status (rejection reason) = ApprovalStatus.rejected

abbrev pub approval_text : ApprovalStatus → String
approval_text ApprovalStatus.pending = "PENDING"
approval_text ApprovalStatus.approved = "APPROVED"
approval_text ApprovalStatus.rejected = "REJECTED"
approval_text ApprovalStatus.expired = "EXPIRED"
approval_text ApprovalStatus.executed = "EXECUTED"

abbrev pub no_such_approval : ApprovalActionResult
no_such_approval = record {
  status = not_found;
  approval_id = none;
  approval_status = none;
  tool_result = none;
  reason = some "Approval request not found";
}

abbrev pub resolved_before : ApprovalRequest → ApprovalActionResult
resolved_before p = record {
  status = already_resolved;
  approval_id = some p.id;
  approval_status = some p.status;
  tool_result = none;
  reason = some (append_text "Approval request is already " (approval_text p.status));
}

abbrev pub not_approvable : ApprovalRequest → ApprovalActionResult
not_approvable p = record {
  status = invalid_state;
  approval_id = some p.id;
  approval_status = none;
  tool_result = none;
  reason = some "Execution or tool request is not in an approvable state";
}

abbrev pub rejected_result : ApprovalRequest → ApprovalActionResult
rejected_result p = record {
  status = rejected;
  approval_id = some p.id;
  approval_status = some ApprovalStatus.rejected;
  tool_result = none;
  reason = none;
}

-- The tool request and the execution of a request, as `_resolve` wants them.
abbrev pub approvable : ApprovalRequest → Option ToolRequest → Option Execution → Bool
approvable p none x = false
approvable p (some r) none = false
approvable p (some r) (some x) =
    awaits_approval r.status && is_waiting x.status && r.execution_id == p.execution_id

-- `rejection_reason or "Rejected by approver"`
abbrev pub rejection_text : Option String → String
rejection_text none = "Rejected by approver"
rejection_text (some reason) = if str_eq reason "" then "Rejected by approver" else reason

abbrev pub verdict_metadata : ApprovalRequest → Operator → Fields
verdict_metadata p operator = field "approval_id" (str (uuid_text p.id)) (
    field "tool_name" (str p.tool_name)
      (field "actor_type" (str "operator") (field "actor_id" (str (uuid_text operator.id)) end)))

abbrev pub name_or_unknown : Option Agent → String
name_or_unknown none = "unknown-agent"
name_or_unknown (some a) = a.name

abbrev pub reject_request : ℕ → String → ToolRequest → ToolRequest
reject_request t message r = record r {
  status = ToolRequestStatus.denied;
  completed_at = some t;
  error = some (record { code = "APPROVAL_REJECTED"; message = message });
}

abbrev pub may_claim : ℕ → ApprovalRequest → Bool
may_claim t q = is_pending q.status && ltb t q.expires_at

abbrev pub claimed_by : Operator → Verdict → ℕ → ApprovalRequest → ApprovalRequest
claimed_by operator verdict t q = record q {
  status = new_status verdict;
  resolved_at = some t;
  resolved_by = some operator.username;
}

module _ {W : Type 0} where
  abbrev pub is_approvable : ApprovalRequest → Db W → Bool
  is_approvable p db =
      approvable p (find (λ r. r.id == p.tool_request_id) db.tool_requests)
        (find (λ x. x.id == p.execution_id) db.executions)

  abbrev pub rejection_builder : Operator → ApprovalRequest → ℕ → String → Builder W
  rejection_builder operator p t message seq db = some (
    event_row p.execution_id seq AuditEventType.approval_rejected operator.username
          (verdict_metadata p operator)
        ∷ [],
    record db {
      tool_requests =
          amend (λ r. r.id) p.tool_request_id (reject_request t message) db.tool_requests;
      executions = set_status p.execution_id ExecutionStatus.running db.executions;
    },
  )

  abbrev pub approved_rows : Operator → ApprovalRequest → Builder W
  approved_rows operator p = rows_only λ seq.
      event_row p.execution_id seq AuditEventType.approval_approved operator.username
        (verdict_metadata p operator)
      ∷ []

module _ {W : Type 0} (registry : Registry W) (operator : Operator) where
  -- What follows a claim that succeeded.
  unfoldable pub carry_out : Verdict → ApprovalRequest → ℕ → Exec W ApprovalActionResult
  carry_out (rejection reason) p t = do
    commit_chunk p.execution_id (rejection_builder operator p t (rejection_text reason))
    pure (rejected_result p)
  carry_out approval p t = do
    agent ← gets (λ db. find (λ (a : Agent). a.id == p.agent_id) db.agents)
    commit_chunk p.execution_id (approved_rows operator p)
    execute_approved_action registry p (name_or_unknown agent)

  abbrev pub after_claim : Verdict → ℕ → ApprovalRequest → Bool → Exec W ApprovalActionResult
  after_claim verdict t p false = pure (resolved_before p)
  after_claim verdict t p true = carry_out verdict p t

  unfoldable pub decide : Verdict → ApprovalRequest → ℕ → Exec W ApprovalActionResult
  decide verdict p t = do
    claimed ← claim p.id (may_claim t) (claimed_by operator verdict t)
    p' ← gets (refreshed p)
    after_claim verdict t p' claimed

  abbrev pub if_approvable : Verdict → ApprovalRequest → ℕ → Bool → Exec W ApprovalActionResult
  if_approvable verdict p t false = pure (not_approvable p)
  if_approvable verdict p t true = decide verdict p t

  abbrev pub if_pending : Verdict → ApprovalRequest → ℕ → Bool → Exec W ApprovalActionResult
  if_pending verdict p t false = pure (resolved_before p)
  if_pending verdict p t true = do fit ← gets (is_approvable p); if_approvable verdict p t fit

  unfoldable pub with_approval : Verdict → Option ApprovalRequest → Exec W ApprovalActionResult
  with_approval verdict none = pure no_such_approval
  with_approval verdict (some p) = do
    t ← now
    p' ← lazy_expire p t
    if_pending verdict p' t (is_pending p'.status)

  -- `_resolve`, of which `approve` and `reject` are the two uses.
  unfoldable pub resolve : Uuid → Verdict → Exec W ApprovalActionResult
  resolve id verdict = do p ← gets (λ db. find_approval id db.approvals); with_approval verdict p
