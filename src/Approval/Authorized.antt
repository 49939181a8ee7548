-- ===== src/Approval/Authorized.antt =====
-- `resolve` as a whole: no effect of a tool without a stored request, approved in time.
use safeops.Prelude.{◌≡◌, refl, subst, inl, Bool, true, false, Option, none, some}
use safeops.Model.Uuid.{Uuid}
use safeops.Model.Rows.{ApprovalRequest}
use safeops.Model.Db.{Db, interfere}
use safeops.Exec.{◌>>=◌}
use safeops.Exec.Keeps.{keeps_rules}
use safeops.Audit.Tables.{Same-refl}
use safeops.Gateway.Tooling.{Registry}
use safeops.Approval.Expire.{is_pending, find_approval, claim, lazy_expire}
use safeops.Approval.Entry.{
  Operator, Verdict, if_approvable, if_pending, decide, with_approval, resolve,
}
use safeops.Approval.Kin.{Kin, Kin-interfere, find_approval-id}
use safeops.Approval.Expiry.{lazy_expire-Kin, lazy_expire-id}
use safeops.Approval.Runs.{
  Leads, Leads-returned, Leads-bind, Leads-Keeps, Resolved, unresolved, after_claim-Resolved,
}

module _ {W : Type 0} (registry : Registry W) (operator : Operator) (a : Db W) where
  decide-Resolved :
      (v : Verdict) (p : ApprovalRequest)
      → Leads
          (Kin p.id a)
          (Resolved registry operator a p.id v)
          (decide registry operator v p a.clock)
  unfolding decide claim ◌>>=◌
  decide-Resolved v p = record {
    at = λ db k.
        after_claim-Resolved registry operator a v p (find_approval p.id (interfere db).approvals)
          (interfere db) (Kin-interfere p.id a db k) refl;
  }

  if_approvable-Resolved :
      (v : Verdict) (p : ApprovalRequest) (b : Bool)
      → Leads
          (Kin p.id a)
          (Resolved registry operator a p.id v)
          (if_approvable registry operator v p a.clock b)
  if_approvable-Resolved v p false =
      Leads-Keeps (unresolved registry operator a p.id v) _ (search keeps_rules)
  if_approvable-Resolved v p true = decide-Resolved v p

  if_pending-Resolved :
      (v : Verdict) (p : ApprovalRequest) (b : Bool)
      → Leads
          (Kin p.id a)
          (Resolved registry operator a p.id v)
          (if_pending registry operator v p a.clock b)
  if_pending-Resolved v p false =
      Leads-Keeps (unresolved registry operator a p.id v) _ (search keeps_rules)
  if_pending-Resolved v p true =
      Leads-bind (unresolved registry operator a p.id v) _ _ (search keeps_rules)
        (if_approvable-Resolved v p)

  with_request :
      (v : Verdict) (p : ApprovalRequest)
      → Leads (Kin p.id a) (Resolved registry operator a p.id v) (
          lazy_expire p a.clock >>= λ p'.
          if_pending registry operator v p' a.clock (is_pending p'.status))
  with_request v p =
      Leads-returned (unresolved registry operator a p.id v) _ _ (lazy_expire-Kin p.id a p a.clock)
        λ p' db e.
          subst
            (λ i.
              Leads (Kin i a) (Resolved registry operator a i v)
                (if_pending registry operator v p' a.clock (is_pending p'.status)))
            (lazy_expire-id p p' a.clock db e) (if_pending-Resolved v p' (is_pending p'.status))

  with_approval-Resolved :
      (id : Uuid) (v : Verdict) (o : Option ApprovalRequest)
      → find_approval id a.approvals ≡ o
      → Resolved registry operator a id v (with_approval registry operator v o a).1
  unfolding with_approval ◌>>=◌
  with_approval-Resolved id v none missing = inl refl
  with_approval-Resolved id v (some p) found =
      let start : Kin p.id a a = record {
        same = Same-refl a;
        kin = λ q h. (q, h, (refl, refl, refl));
      } in
      let out : Resolved registry operator a p.id v
          (with_approval registry operator v (some p) a).1 =
        (with_request v p).at a start in
      subst (λ i. Resolved registry operator a i v (with_approval registry operator v (some p) a).1)
        (find_approval-id id a.approvals p found) out

pub resolve-Resolved :
    {W : Type 0} (registry : Registry W) (operator : Operator) (id : Uuid) (v : Verdict) (db : Db W)
    → Resolved registry operator db id v (resolve registry operator id v db).1
unfolding resolve ◌>>=◌
resolve-Resolved registry operator id v db =
    with_approval-Resolved registry operator db id v (find_approval id db.approvals) refl
