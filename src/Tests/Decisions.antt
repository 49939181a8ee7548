-- ===== src/Tests/Decisions.antt =====
-- An approval of the parked refund, in time and too late.
use safeops.Prelude.{ℕ, ◌≡◌, refl, ◌⊎◌, ◌<◌, some}
use safeops.Model.Rows.{ApprovalRequest}
use safeops.Model.Db.{Db, commit_rows, interfere}
use safeops.Exec.{Outcome, returned, raised, ◌>>=◌}
use safeops.Audit.{commit_chunk}
use safeops.Approval.Expire.{find_approval, claim, expire, lazy_expire}
use safeops.Approval.Run.{
  ApprovalActionResult, ActionStatus, executed, failed, already_resolved,
  finalize_execution_outcome, run_approved, run_registered, execute_approved_action,
}
use safeops.Approval.Entry.{approval, carry_out, decide, with_approval, resolve}
use safeops.Approval.Runs.{HasRun}
use safeops.Approval.Pending.{IsFoundPending, resolve-IsFoundPending}
use safeops.Tests.Fixtures.{registry, operator, waiting_store}

abbrev approved : Outcome ApprovalActionResult × Db ℕ
approved = resolve registry operator 40 approval waiting_store

abbrev status_of : Outcome ApprovalActionResult → ActionStatus
status_of (returned r) = r.status
status_of (raised e) = failed

-- The approved refund is paid; a second approval finds the request resolved and pays nothing.
approved_once :
    (status_of approved.0 ≡ executed)
    × (approved.1.world ≡ 1)
    × (status_of (resolve registry operator 40 approval approved.1).0 ≡ already_resolved)
    × ((resolve registry operator 40 approval approved.1).1.world ≡ 1)
unfolding resolve with_approval lazy_expire expire claim decide carry_out execute_approved_action
    run_registered run_approved finalize_execution_outcome commit_chunk commit_rows interfere ◌>>=◌
approved_once = (refl, refl, refl, refl)

-- Fifteen minutes later nothing is paid.
too_late :
    (status_of (resolve registry operator 40 approval (record waiting_store { clock = 1900 })).0
      ≡ already_resolved)
    × ((resolve registry operator 40 approval (record waiting_store { clock = 1900 })).1.world ≡ 0)
unfolding resolve with_approval lazy_expire expire claim decide carry_out execute_approved_action
    run_registered run_approved finalize_execution_outcome commit_chunk commit_rows interfere ◌>>=◌
too_late = (refl, refl)

resolve-IsFoundPending_example :
    (approved.1.world ≡ 0)
    ⊎ ((p : ApprovalRequest) × (find_approval 40 waiting_store.approvals ≡ some p)
        × (approval ≡ approval)
        × (1000 < p.expires_at)
        × IsFoundPending 40 waiting_store
        × HasRun registry p 0 approved.1.world)
resolve-IsFoundPending_example = resolve-IsFoundPending registry operator 40 approval waiting_store
