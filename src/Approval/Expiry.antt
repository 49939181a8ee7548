-- ===== src/Approval/Expiry.antt =====
-- The lazy expiry changes no call and no deadline, and returns the request that it was given.
use safeops.Prelude.{
  ℕ, ◌≡◌, refl, sym, ◌∙◌, ap, inl, inr, Bool, true, false, Option, none, some, [], ◌∷◌, Bool-cases,
  Option-cases,
}
use safeops.Model.Uuid.{Uuid}
use safeops.Model.Rows.{ApprovalRequest, AuditEvent}
use safeops.Model.Db.{Db, audit_event, interfere, commit_rows, insert_events, amend}
use safeops.Exec.{Outcome, returned, raised, continue, pure, gets, ◌>>=◌}
use safeops.Exec.Keeps.{Keeps, Keeps-pure, Keeps-bind, keeps_rules}
use safeops.Audit.{commit_chunk}
use safeops.Audit.Chunk.{Commits, commit_chunk-keeps}
use safeops.Audit.Tables.{Same, Same-trans, commit_rows-some}
use safeops.Approval.Expire.{
  is_due, find_approval, claim_found, claim, or_else_old, refreshed, record_expiry, expire,
  expire_if, lazy_expire,
}
use safeops.Approval.Kin.{Alike, Kin, Kin-amend, Kin-equal, Kin-interfere, find_approval-id}

commit_event-approvals :
    {W : Type 0} (e : AuditEvent) (db db' : Db W)
    → commit_rows (audit_event e ∷ []) db ≡ some db'
    → db'.approvals ≡ db.approvals
unfolding commit_rows
commit_event-approvals {W} e db db' h = elim (Option-cases (insert_events (e ∷ []) db.events)) [
  | inl clash ↦ absurd (cc (rw clash at h))
  | inr (es, inserted) ↦
      (let q : record db { events = es } ≡ db' = cc (rw inserted at h) in
        sym (ap (λ (d : Db W). d.approvals) q))
]

module _ {W : Type 0} (id : Uuid) (a : Db W) where
  -- A chunk of one event whose own updates leave the requests alone.
  commit_chunk-Kin :
      (e : ℕ → AuditEvent) (f : Db W → Db W) (execution_id : Uuid)
      → ((db : Db W) → Same db (f db) × ((f db).approvals ≡ db.approvals))
      → Keeps (Kin id a) (commit_chunk execution_id (λ n db. some (audit_event (e n) ∷ [], f db)))
  commit_chunk-Kin e f execution_id quiet = record {
    at = commit_chunk-keeps (Kin id a) _ (Kin-interfere id a) own execution_id;
  }
    where
      own :
          (db db' : Db W)
          → Kin id a db
          → Commits (λ n d. some (audit_event (e n) ∷ [], f d)) db db'
          → Kin id a db'
      own db db' k (n, rows, between, built, committed) =
          let er : audit_event (e n) ∷ [] ≡ rows = cc in
          let eb : f db ≡ between = cc in
          let done : commit_rows (audit_event (e n) ∷ []) (f db) ≡ some db' =
            rw (← er, ← eb) at committed in
          Kin-equal id a db db'
            (Same-trans a db db' k.same (
              Same-trans db (f db) db' (quiet db).0
                (commit_rows-some (audit_event (e n) ∷ []) (f db) db' done).0))
            (commit_event-approvals (e n) (f db) db' done ∙ (quiet db).1) k

  claim-Kin :
      (k : Uuid) (guard : ApprovalRequest → Bool) (change : ApprovalRequest → ApprovalRequest)
      → ((x : ApprovalRequest) → ((change x).id ≡ x.id) × Alike x (change x))
      → Keeps (Kin id a) (claim k guard change)
  unfolding claim
  claim-Kin k guard change alike = record {
    at = λ db kin.
        claimed (find_approval k (interfere db).approvals) (interfere db)
          (Kin-interfere id a db kin);
  }
    where
      claimed :
          (o : Option ApprovalRequest) (db : Db W)
          → Kin id a db
          → Kin id a (claim_found guard change o db).1
      claimed none db kin = kin
      claimed (some p) db kin = elim (Bool-cases (guard p)) [
        | inr late ↦ rw late kin
        | inl free ↦ rw free (
            Kin-amend id a db (record db { approvals = amend (λ x. x.id) p.id change db.approvals })
              p.id change alike
              (record {
                world = kin.same.world;
                agents = kin.same.agents;
                tools = kin.same.tools;
                permissions = kin.same.permissions;
                policies = kin.same.policies;
                clock = kin.same.clock;
              })
              refl kin)
      ]

  record_expiry-Kin :
      (p : ApprovalRequest) (t : ℕ) (b : Bool) → Keeps (Kin id a) (record_expiry p t b)
  record_expiry-Kin p t false = search keeps_rules
  record_expiry-Kin p t true =
      Keeps-bind _ _
        (commit_chunk-Kin _ _ p.execution_id (λ db. (
          record {
            world = refl;
            agents = refl;
            tools = refl;
            permissions = refl;
            policies = refl;
            clock = refl;
          },
          refl,
        )))
        (λ done. Keeps-pure p)

  expire_if-Kin : (b : Bool) (p : ApprovalRequest) (t : ℕ) → Keeps (Kin id a) (expire_if b p t)
  unfolding expire
  expire_if-Kin false p t = search keeps_rules
  expire_if-Kin true p t =
      Keeps-bind _ _ (claim-Kin p.id _ _ (λ x. (refl, (refl, refl, refl))))
        (λ expired. search (keeps_rules, record_expiry-Kin))

  pub lazy_expire-Kin : (p : ApprovalRequest) (t : ℕ) → Keeps (Kin id a) (lazy_expire p t)
  unfolding lazy_expire
  lazy_expire-Kin p t = search expire_if-Kin

returned-equal : {A : Type 0} (x y : A) → returned x ≡ returned y → x ≡ y
returned-equal x y h = cc

refreshed-id : {W : Type 0} (p : ApprovalRequest) (db : Db W) → (refreshed p db).id ≡ p.id
refreshed-id p db = go (find_approval p.id db.approvals) refl
  where
    go :
        (o : Option ApprovalRequest)
        → find_approval p.id db.approvals ≡ o
        → (or_else_old p o).id ≡ p.id
    go none e = refl
    go (some q) e = find_approval-id p.id db.approvals q e

module _ {W : Type 0} where
  continue-id :
      (r : Outcome Unit) (p q : ApprovalRequest) (db : Db W)
      → (continue r (λ _. pure p) db).0 ≡ returned q
      → q.id ≡ p.id
  unfolding ◌>>=◌
  continue-id (returned done) p q db h =
      ap (λ (x : ApprovalRequest). x.id) (returned-equal q p (sym h))
  continue-id (raised e) p q db h = cc

  record_expiry-id :
      (p q : ApprovalRequest) (t : ℕ) (b : Bool) (db : Db W)
      → (record_expiry p t b db).0 ≡ returned q
      → q.id ≡ p.id
  unfolding ◌>>=◌
  record_expiry-id p q t false db h =
      ap (λ (x : ApprovalRequest). x.id) (returned-equal q p (sym h))
  record_expiry-id p q t true db h = continue-id _ p q _ h

  expire-id :
      (p q : ApprovalRequest) (t : ℕ) (r : Outcome Bool) (db : Db W)
      → (continue r (λ expired. gets (refreshed p) >>= λ p'. record_expiry p' t expired) db).0
        ≡ returned q
      → q.id ≡ p.id
  unfolding ◌>>=◌
  expire-id p q t (returned b) db h =
      record_expiry-id (refreshed p db) q t b db h ∙ refreshed-id p db
  expire-id p q t (raised e) db h = cc

  pub lazy_expire-id :
      (p q : ApprovalRequest) (t : ℕ) (db : Db W)
      → (lazy_expire p t db).0 ≡ returned q
      → q.id ≡ p.id
  unfolding lazy_expire expire ◌>>=◌
  lazy_expire-id p q t db = go (is_due p t)
    where
      go : (b : Bool) → (expire_if b p t db).0 ≡ returned q → q.id ≡ p.id
      go false h = ap (λ (x : ApprovalRequest). x.id) (returned-equal q p (sym h))
      go true h = expire-id p q t _ _ h
