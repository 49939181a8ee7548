-- ===== src/Approval/Pending.antt =====
-- `resolve` as a whole: a tool runs only for the decision that finds the request PENDING.
use safeops.Prelude.{
  ◌≡◌, refl, subst, ◌⊎◌, ◌<◌, inl, inr, Bool, true, false, Option, none, some, arith, Bool-cases,
}
use safeops.Model.Uuid.{Uuid}
use safeops.Model.Enums.{ApprovalStatus}
use safeops.Model.Rows.{ApprovalRequest}
use safeops.Model.Db.{Db, interfere}
use safeops.Exec.{continue, gets, ◌>>=◌}
use safeops.Audit.Tables.{Same-refl, interfere-Same}
use safeops.Gateway.Tooling.{Registry}
use safeops.Approval.Expire.{
  is_due, is_pending, find_approval, claim_found, claim, refreshed, lazy_expire,
}
use safeops.Approval.Entry.{
  Operator, Verdict, approval, is_approvable, if_approvable, if_pending, decide, after_claim,
  may_claim, claimed_by, with_approval, resolve,
}
use safeops.Approval.Kin.{find_approval-id}
use safeops.Approval.Runs.{HasRun, may_claim-pending}
use safeops.Approval.Authorized.{resolve-Resolved}

-- The request as the decision's compare-and-set finds it, after the writer that came in between.
abbrev pub IsFoundPending : {W : Type 0} → Uuid → Db W → Type 0
IsFoundPending id a =
    (q : ApprovalRequest) × (find_approval id (interfere a).approvals ≡ some q)
    × (q.status ≡ ApprovalStatus.pending)

module _ {W : Type 0} (registry : Registry W) (operator : Operator) (a : Db W) where
  abbrev Found : Uuid → Db W → Type 0
  Found id b = (b.world ≡ a.world) ⊎ IsFoundPending id a

  decide-Found :
      (v : Verdict) (p : ApprovalRequest) → Found p.id (decide registry operator v p a.clock a).1
  unfolding decide claim ◌>>=◌
  decide-Found v p = go (find_approval p.id (interfere a).approvals) refl
    where
      idle : (interfere a).world ≡ a.world
      idle = (interfere-Same a a (Same-refl a)).world

      go :
          (o : Option ApprovalRequest)
          → find_approval p.id (interfere a).approvals ≡ o
          → Found p.id
              (continue
                (claim_found (may_claim a.clock) (claimed_by operator v a.clock) o (interfere a)).0
                (λ claimed.
                  gets (refreshed p) >>= λ p'. after_claim registry operator v a.clock p' claimed)
                (claim_found
                  (may_claim a.clock)
                  (claimed_by operator v a.clock)
                  o
                  (interfere a)).1).1
      go none e = inl idle
      go (some q) e = elim (Bool-cases (may_claim a.clock q)) [
        | inr late ↦ rw late (inl idle)
        | inl free ↦ inr (q, e, (may_claim-pending a.clock q free).0)
      ]

  if_approvable-Found :
      (v : Verdict) (p : ApprovalRequest) (b : Bool)
      → Found p.id (if_approvable registry operator v p a.clock b a).1
  unfolding ◌>>=◌
  if_approvable-Found v p false = inl refl
  if_approvable-Found v p true = decide-Found v p

  if_pending-Found :
      (v : Verdict) (p : ApprovalRequest) (b : Bool)
      → Found p.id (if_pending registry operator v p a.clock b a).1
  unfolding ◌>>=◌
  if_pending-Found v p false = inl refl
  if_pending-Found v p true = if_approvable-Found v p (is_approvable p a)

  -- A request that is not due is not touched before the decision.
  resolve-Found :
      (id : Uuid) (v : Verdict) (p : ApprovalRequest)
      → find_approval id a.approvals ≡ some p
      → is_due p a.clock ≡ false
      → Found id (resolve registry operator id v a).1
  unfolding resolve with_approval lazy_expire ◌>>=◌
  resolve-Found id v p found fresh =
      rw (found, fresh)
        (subst (λ i. Found i (if_pending registry operator v p a.clock (is_pending p.status) a).1)
          (find_approval-id id a.approvals p found) (if_pending-Found v p (is_pending p.status)))

-- A decision on a request leaves the tools' tables as they were, unless all of this holds: it is an
-- approval; the request is stored at the start with a deadline that is not reached; the decision's
-- compare-and-set finds it PENDING, after the other writer that came first, if any; and its tool is
-- registered. Then that tool has run once, on the request's stored arguments.
pub resolve-IsFoundPending :
    {W : Type 0} (registry : Registry W) (operator : Operator) (id : Uuid) (v : Verdict) (db : Db W)
    → ((resolve registry operator id v db).1.world ≡ db.world)
      ⊎ ((p : ApprovalRequest) × (find_approval id db.approvals ≡ some p)
          × (v ≡ approval)
          × (db.clock < p.expires_at)
          × IsFoundPending id db
          × HasRun registry p db.world (resolve registry operator id v db).1.world)
resolve-IsFoundPending registry operator id v db =
    elim (resolve-Resolved registry operator id v db) [
      | inl idle ↦ inl idle
      | inr (p, found, approved, in_time, ran) ↦
          let fresh : is_due p db.clock ≡ false = ground (arith, in_time) in
          elim (resolve-Found registry operator db id v p found fresh) [
            | inl idle ↦ inl idle
            | inr pending ↦ inr (p, found, approved, in_time, pending, ran)
          ]
    ]
