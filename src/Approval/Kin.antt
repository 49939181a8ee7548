-- ===== src/Approval/Kin.antt =====
-- What a request keeps while other writers and the expiry change its status: its call and its
-- deadline.
use safeops.Prelude.{
  ◌≡◌, refl, ◌∙◌, ap, subst, ◌⊎◌, inl, inr, true, false, Option, none, some, List, [], ◌∷◌, ◌==◌,
  ==_iff, Bool-cases,
}
use safeops.Model.Uuid.{Uuid}
use safeops.Model.Rows.{ApprovalRequest, AuditEvent}
use safeops.Model.Enums.{ApprovalStatus}
use safeops.Model.Db.{
  Db, Rival, amend, resolve_status, settle_rival, interfere_with, interfere, insert_events,
}
use safeops.Audit.Tables.{Same, interfere-Same}
use safeops.Approval.Expire.{find_approval}

-- The same call, with the same deadline.
abbrev pub Alike : ApprovalRequest → ApprovalRequest → Type 0
Alike p q =
    (q.tool_name ≡ p.tool_name)
    × (q.approved_arguments ≡ p.approved_arguments)
    × (q.expires_at ≡ p.expires_at)

-- The request is stored in `a` too, alike, and the tables of `Same` are the same.
pub record Kin {W : Type 0} (id : Uuid) (a db : Db W) : Type 0 where
  pub same : Same a db
  pub kin :
      (q : ApprovalRequest)
      → find_approval id db.approvals ≡ some q
      → (p : ApprovalRequest) × (find_approval id a.approvals ≡ some p) × Alike p q

pub find_approval-id :
    (id : Uuid) (xs : List ApprovalRequest) (q : ApprovalRequest)
    → find_approval id xs ≡ some q
    → q.id ≡ id
find_approval-id id [] q h = cc
find_approval-id id (x ∷ xs) q h = elim (Bool-cases (x.id == id)) [
  | inl hit ↦ let e : x ≡ q = cc (rw hit at h) in rw (← e) ((==_iff x.id id).0 hit)
  | inr miss ↦ find_approval-id id xs q (rw miss at h)
]

module _ (id k : Uuid) (f : ApprovalRequest → ApprovalRequest)
    (keeps_id : (x : ApprovalRequest) → (f x).id ≡ x.id) where
  find-amend :
      (xs : List ApprovalRequest) (q : ApprovalRequest)
      → find_approval id (amend (λ x. x.id) k f xs) ≡ some q
      → (x : ApprovalRequest) × (find_approval id xs ≡ some x) × ((x ≡ q) ⊎ (f x ≡ q))
  find-amend [] q h = cc
  find-amend (x ∷ xs) q h = elim (Bool-cases (x.id == k)) [
    | inl changed ↦ elim (Bool-cases (x.id == id)) [
      | inl hit ↦
          let hit' : (f x).id == id ≡ true = ap (λ n. n == id) (keeps_id x) ∙ hit in
          let e : f x ≡ q = cc (rw (changed, hit') at h) in (x, rw hit refl, inr e)
      | inr miss ↦
          let miss' : (f x).id == id ≡ false = ap (λ n. n == id) (keeps_id x) ∙ miss in
          let (y, e, c) = find-amend xs q (rw (changed, miss') at h) in (y, rw miss e, c)
    ]
    | inr kept ↦ elim (Bool-cases (x.id == id)) [
      | inl hit ↦ (x, rw hit refl, inl (cc (rw (kept, hit) at h)))
      | inr miss ↦ let (y, e, c) = find-amend xs q (rw (kept, miss) at h) in (y, rw miss e, c)
    ]
  ]

-- The row that was changed is found again.
pub find-amend_found :
    (id : Uuid) (f : ApprovalRequest → ApprovalRequest)
    → ((x : ApprovalRequest) → (f x).id ≡ x.id)
    → (xs : List ApprovalRequest) (q : ApprovalRequest) → find_approval id xs ≡ some q
    → find_approval id (amend (λ x. x.id) id f xs) ≡ some (f q)
find-amend_found id f keeps_id [] q h = cc
find-amend_found id f keeps_id (x ∷ xs) q h = elim (Bool-cases (x.id == id)) [
  | inl hit ↦
      let hit' : (f x).id == id ≡ true = ap (λ n. n == id) (keeps_id x) ∙ hit in
      let e : x ≡ q = cc (rw hit at h) in rw (hit, hit') (ap (λ y. some (f y)) e)
  | inr miss ↦ rw (miss, miss) (find-amend_found id f keeps_id xs q (rw miss at h))
]

resolve_status-cases :
    (o : Option (Uuid × ApprovalStatus)) (xs : List ApprovalRequest)
    → (resolve_status o xs ≡ xs)
      ⊎ ((k : Uuid) × (status : ApprovalStatus) × (resolve_status o xs
            ≡ amend (λ x. x.id) k (λ x. record x { status = status }) xs))
resolve_status-cases none xs = inl refl
resolve_status-cases (some (k, status)) xs = inr (k, status, refl)

module _ {W : Type 0} (id : Uuid) (a : Db W) where
  -- An update that leaves the call and the deadline alone.
  pub Kin-amend :
      (db db' : Db W) (k : Uuid) (f : ApprovalRequest → ApprovalRequest)
      → ((x : ApprovalRequest) → ((f x).id ≡ x.id) × Alike x (f x))
      → Same a db'
      → db'.approvals ≡ amend (λ x. x.id) k f db.approvals
      → Kin id a db
      → Kin id a db'
  Kin-amend db db' k f alike s e kept = record {
    same = s;
    kin = λ q h.
        let (x, found, c) = find-amend id k f (λ x. (alike x).0) db.approvals q (rw e at h) in
        let (p, stored, old) = kept.kin x found in (p, stored, after x q p c old (alike x).1);
  }
    where
      after :
          (x q p : ApprovalRequest) → (x ≡ q) ⊎ (f x ≡ q) → Alike p x → Alike x (f x) → Alike p q
      after x q p (inl same) old new = subst (λ y. Alike p y) same old
      after x q p (inr changed) (t, g, d) (t', g', d') =
          subst (λ y. Alike p y) changed (t' ∙ t, g' ∙ g, d' ∙ d)

  pub Kin-equal :
      (db db' : Db W) → Same a db' → db'.approvals ≡ db.approvals → Kin id a db → Kin id a db'
  Kin-equal db db' s e kept = record { same = s; kin = λ q h. kept.kin q (rw e at h) }

  interfere-approvals :
      (db : Db W)
      → ((interfere db).approvals ≡ db.approvals)
        ⊎ ((k : Uuid) × (status : ApprovalStatus) × ((interfere db).approvals
              ≡ amend (λ x. x.id) k (λ x. record x { status = status }) db.approvals))
  unfolding interfere
  interfere-approvals db = go db.rivals
    where
      settled :
          (r : Rival) (o : Option (List AuditEvent)) (d : Db W)
          → ((settle_rival r o d).approvals ≡ d.approvals)
            ⊎ ((k : Uuid) × (status : ApprovalStatus) × ((settle_rival r o d).approvals
                  ≡ amend (λ x. x.id) k (λ x. record x { status = status }) d.approvals))
      settled r none d = inl refl
      settled r (some es) d = resolve_status-cases r.resolves d.approvals

      go :
          (rs : List Rival)
          → ((interfere_with rs db).approvals ≡ db.approvals)
            ⊎ ((k : Uuid) × (status : ApprovalStatus) × ((interfere_with rs db).approvals
                  ≡ amend (λ x. x.id) k (λ x. record x { status = status }) db.approvals))
      go [] = inl refl
      go (r ∷ rs) = settled r (insert_events r.events db.events) (record db { rivals = rs })

  pub Kin-interfere : (db : Db W) → Kin id a db → Kin id a (interfere db)
  Kin-interfere db kept = elim (interfere-approvals db) [
    | inl e ↦ Kin-equal db (interfere db) (interfere-Same a db kept.same) e kept
    | inr (k, status, e) ↦
        Kin-amend db (interfere db) k (λ x. record x { status = status })
          (λ x. (refl, (refl, refl, refl))) (interfere-Same a db kept.same) e kept
  ]
