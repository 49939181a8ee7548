-- ===== src/Approval/Expire.antt =====
-- The requests' own state: what `ApprovalEngine` reads of a request, the compare-and-set on it, and
-- `_lazy_expire`.
--
-- A builder's changes of stored rows are updates of the changed columns. What it tests is read in its
-- own transaction. Requests are never deleted, so that a refresh finds its row.
use safeops.Prelude.{
  ℕ, Bool, true, false, ◌&&◌, Option, none, some, List, [], ◌∷◌, ◌==◌, leb, if◌then◌else◌, find,
}
use safeops.Json.{str, end, field}
use safeops.Model.Uuid.{Uuid, uuid_text}
use safeops.Model.Enums.{ExecutionStatus, ApprovalStatus, ToolRequestStatus, AuditEventType}
use safeops.Model.Rows.{ToolRequest, Execution, ApprovalRequest}
use safeops.Model.Db.{Db, amend, interfere}
use safeops.Exec.{Exec, returned, pure, gets, ◌>>=◌, ◌>>◌}
use safeops.Audit.{Builder, commit_chunk}
use safeops.Gateway.Tooling.{event_row, about_tool}

abbrev pub is_pending : ApprovalStatus → Bool
is_pending ApprovalStatus.pending = true
is_pending _ = false

abbrev pub awaits_approval : ToolRequestStatus → Bool
awaits_approval ToolRequestStatus.requires_approval = true
awaits_approval _ = false

abbrev pub is_waiting : ExecutionStatus → Bool
is_waiting ExecutionStatus.waiting_approval = true
is_waiting _ = false

abbrev pub find_approval : Uuid → List ApprovalRequest → Option ApprovalRequest
find_approval id = find (λ p. p.id == id)

-- `not (status != PENDING or expires_at > now)`
abbrev pub is_due : ApprovalRequest → ℕ → Bool
is_due p now = is_pending p.status && leb p.expires_at now

abbrev pub expire_request : Uuid → ℕ → ToolRequest → ToolRequest
expire_request execution_id now r =
    if r.execution_id == execution_id && awaits_approval r.status
    then record r {
      status = ToolRequestStatus.denied;
      completed_at = some now;
      error = some (record { code = "APPROVAL_EXPIRED"; message = "Approval request expired" });
    }
    else r

abbrev pub release : Execution → Execution
release x = if is_waiting x.status then record x { status = ExecutionStatus.running } else x

abbrev pub or_else_old : ApprovalRequest → Option ApprovalRequest → ApprovalRequest
or_else_old p none = p
or_else_old p (some q) = q

module _ {W : Type 0} where
  abbrev pub claim_found :
      (ApprovalRequest → Bool)
      → (ApprovalRequest → ApprovalRequest)
      → Option ApprovalRequest
      → Exec W Bool
  claim_found guard change none db = (returned false, db)
  claim_found guard change (some p) db =
      if guard p
      then (returned true, record db { approvals = amend (λ x. x.id) p.id change db.approvals })
      else (returned false, db)

  -- `update(ApprovalRequest).where(...)` and its commit: whether a row was changed. Another writer
  -- may come first.
  unfoldable pub claim :
      Uuid → (ApprovalRequest → Bool) → (ApprovalRequest → ApprovalRequest) → Exec W Bool
  unfolding interfere
  claim id guard change db =
      claim_found guard change (find_approval id (interfere db).approvals) (interfere db)

  -- `db.refresh(approval)`
  abbrev pub refreshed : ApprovalRequest → Db W → ApprovalRequest
  refreshed p db = or_else_old p (find_approval p.id db.approvals)

  abbrev pub expiry_builder : ApprovalRequest → ℕ → Builder W
  expiry_builder p now seq db = some (
    event_row p.execution_id seq AuditEventType.approval_expired "system"
          (field "approval_id" (str (uuid_text p.id)) (about_tool p.tool_name end))
        ∷ [],
    record db {
      tool_requests =
          amend (λ r. r.id) p.tool_request_id (expire_request p.execution_id now) db.tool_requests;
      executions = amend (λ x. x.id) p.execution_id release db.executions;
    },
  )

  abbrev pub record_expiry : ApprovalRequest → ℕ → Bool → Exec W ApprovalRequest
  record_expiry p now false = pure p
  record_expiry p now true = do commit_chunk p.execution_id (expiry_builder p now); pure p

  unfoldable pub expire : ApprovalRequest → ℕ → Exec W ApprovalRequest
  expire p now = do
    expired ←
        claim p.id (λ q. is_pending q.status)
          (λ q. record q { status = ApprovalStatus.expired; resolved_at = some now })
    p' ← gets (refreshed p)
    record_expiry p' now expired

  abbrev pub expire_if : Bool → ApprovalRequest → ℕ → Exec W ApprovalRequest
  expire_if false p now = pure p
  expire_if true p now = expire p now

  -- `_lazy_expire`, with the request as it is afterwards.
  unfoldable pub lazy_expire : ApprovalRequest → ℕ → Exec W ApprovalRequest
  lazy_expire p now = expire_if (is_due p now) p now
