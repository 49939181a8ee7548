-- ===== src/System/Effects.antt =====
-- Every effect on the tools' tables has a reason: the gateway's authorization or a human approval.
use safeops.Prelude.{◌≡◌, ◌<◌, some}
use safeops.Model.Rows.{ApprovalRequest}
use safeops.Model.Db.{Db}
use safeops.Gateway.Tooling.{Registry}
use safeops.Gateway.Authorization.{Authorized}
use safeops.Approval.Expire.{find_approval}
use safeops.Approval.Entry.{approval, resolve}
use safeops.Approval.Runs.{HasRun}
use safeops.Approval.Pending.{IsFoundPending}
use safeops.External.Granted.{IsGranted}
use safeops.Planner.{Planner}
use safeops.Runtime.Advance.{Settings}
use safeops.Runtime.Authorized.{IsPlannedAt, IsAuthorizedAt}
use safeops.System.{
  Operation, starting, stepping, resuming, cancelling, reconciling, submitting, calling, deciding,
  receiving, asking, after, Reaches,
}

-- The tables that authorize a call.
pub record Grants {W : Type 0} (a b : Db W) : Type 0 where
  pub agents : b.agents ≡ a.agents
  pub tools : b.tools ≡ a.tools
  pub permissions : b.permissions ≡ a.permissions
  pub policies : b.policies ≡ a.policies

module _ {W : Type 0} (registry : Registry W) (planner : Planner) (settings : Settings) where
  -- What the effect of an operation on the tools' tables rests on, as the operation finds them.
  abbrev pub Explains : Operation → Db W → Type 0
  Explains (stepping id) m = IsPlannedAt m registry planner id
  Explains (resuming id) m = IsPlannedAt m registry planner id
  Explains (submitting id action) m = IsAuthorizedAt m registry id action
  Explains (calling agent_id execution_id name args context) m =
      Authorized m registry agent_id execution_id name args context
  Explains (deciding operator id v) m =
      (p : ApprovalRequest) × (find_approval id m.approvals ≡ some p)
      × (v ≡ approval)
      × (m.clock < p.expires_at)
      × IsFoundPending id m
      × HasRun registry p m.world (resolve registry operator id v m).1.world
  Explains (receiving digest operator_id r) m = IsGranted registry m digest operator_id r
  Explains (starting agent_id objective context) m = ⊥
  Explains (cancelling id) m = ⊥
  Explains (reconciling id) m = ⊥
  Explains (asking operator_id external_request_id) m = ⊥

  -- An operation on the way from `a` to `b`, up to which the tools' tables are those of `a`, and what
  -- its effect on them rests on.
  abbrev pub HasReason : Db W → Db W → Type 0
  HasReason a b =
      (m : Db W) × (o : Operation) × Reaches registry planner settings a m
      × (m.world ≡ a.world)
      × Explains o m
      × Reaches registry planner settings (after registry planner settings o m) b
