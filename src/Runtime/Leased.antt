-- ===== src/Runtime/Leased.antt =====
-- Executions that are leased, and the updates that leave them so.
use safeops.Prelude.{
  ℕ, ◌≡◌, ◌≢◌, ◌≤◌, refl, sym, ap, ◌∙◌, subst, inl, inr, Bool, true, false, Option, none, some,
  List, [], ◌∷◌, ◌==◌, ==_iff, Bool-cases,
}
use safeops.Model.Uuid.{Uuid}
use safeops.Model.Rows.{Execution}
use safeops.Model.Db.{Db, amend}
use safeops.Audit.Liveness.{interfere-none}
use safeops.Runtime.Lease.{find_execution, update_found, update_where}
use safeops.Runtime.Keeps.{find_execution-id}

-- `stepping`, `stepping_claim_id` and `stepping_claimed_at`.
abbrev pub lease_of : Execution → Bool × Option Uuid × Option ℕ
lease_of x = (x.stepping, x.stepping_claim_id, x.stepping_claimed_at)

-- An update that leaves the identity and the lease of an execution alone.
abbrev pub KeepsLease : (Execution → Execution) → Type 0
KeepsLease f = (x : Execution) → ((f x).id ≡ x.id) × (lease_of (f x) ≡ lease_of x)

-- The stored execution is leased to this claim since this time.
abbrev pub IsLeased : Uuid → Uuid → ℕ → List Execution → Type 0
IsLeased id claim since xs =
    (x : Execution) × (find_execution id xs ≡ some x)
    × (lease_of x ≡ (true, some claim, some since))

pub find-amend_here :
    (id : Uuid) (f : Execution → Execution) (xs : List Execution) {x : Execution}
    → ((y : Execution) → (f y).id ≡ y.id)
    → find_execution id xs ≡ some x
    → find_execution id (amend (λ y. y.id) id f xs) ≡ some (f x)
find-amend_here id f [] same h = absurd (cc)
find-amend_here id f (y ∷ ys) {x} same h = elim (Bool-cases (y.id == id)) [
  | inl hit ↦
      let hit' : (f y).id == id ≡ true = ap (λ n. n == id) (same y) ∙ hit in
      let e : y ≡ x = cc (rw hit at h) in rw (hit, hit') (ap (λ z. some (f z)) e)
  | inr miss ↦ rw (miss, miss) (find-amend_here id f ys same (rw miss at h))
]

find-amend_other :
    (id other : Uuid) (f : Execution → Execution) (xs : List Execution)
    → ((y : Execution) → (f y).id ≡ y.id)
    → other ≢ id
    → find_execution id (amend (λ y. y.id) other f xs) ≡ find_execution id xs
find-amend_other id other f [] same n = refl
find-amend_other id other f (y ∷ ys) same n = elim (Bool-cases (y.id == other)) [
  | inr kept ↦ rw (kept, find-amend_other id other f ys same n) refl
  | inl changed ↦
      let miss : y.id == id ≡ false = elim (Bool-cases (y.id == id)) [
        | inr free ↦ free
        | inl hit ↦ absurd (n (sym ((==_iff y.id other).0 changed) ∙ (==_iff y.id id).0 hit))
      ] in
      let miss' : (f y).id == id ≡ false = ap (λ k. k == id) (same y) ∙ miss in
      rw (changed, miss, miss', find-amend_other id other f ys same n) refl
]

-- An update elsewhere, or one that keeps the lease, leaves the execution leased.
pub IsLeased-amend :
    (id claim other : Uuid) (since : ℕ) (f : Execution → Execution) (xs : List Execution)
    → ((y : Execution) → (f y).id ≡ y.id)
    → (other ≡ id → (y : Execution) → lease_of (f y) ≡ lease_of y)
    → IsLeased id claim since xs
    → IsLeased id claim since (amend (λ y. y.id) other f xs)
IsLeased-amend id claim other since f xs same keeps (x, found, lease) =
    elim (Bool-cases (other == id)) [
      | inr elsewhere ↦ (
        x,
        find-amend_other id other f xs same (λ e. absurd (cc ((==_iff other id).1 e, elsewhere)))
            ∙ found,
        lease,
      )
      | inl here ↦
          let e : other ≡ id = (==_iff other id).0 here in
          (
            f x,
            subst (λ k. find_execution id (amend (λ y. y.id) k f xs) ≡ some (f x)) (sym e)
                (find-amend_here id f xs same found),
            keeps e x ∙ lease,
          )
    ]

module _ {W : Type 0} where
  -- An update where no other writer comes between.
  pub update_where-alone :
      (id : Uuid) (guard : Execution → Bool) (change : Execution → Execution) (db : Db W)
      → db.rivals ≡ []
      → update_where id guard change db
        ≡ update_found guard change (find_execution id db.executions) db
  unfolding update_where
  update_where-alone id guard change db alone = rw (interfere-none db alone) refl

  -- Nobody else commits, the claim has not run out, and it holds the lease.
  pub record Held (id claim : Uuid) (since limit : ℕ) (db : Db W) : Type 0 where
    pub alone : db.rivals ≡ []
    pub in_time : db.clock ≤ limit
    pub leased : IsLeased id claim since db.executions

  -- A conditional update keeps it, unless it is of this execution and changes a leased row.
  pub update_where-Held :
      (id claim other : Uuid) (since limit : ℕ) (guard : Execution → Bool)
      (change : Execution → Execution) (db : Db W)
      → ((y : Execution) → (change y).id ≡ y.id)
      → (other ≡ id
          → (x : Execution) → lease_of x ≡ (true, some claim, some since)
          → guard x ≡ false)
      → Held id claim since limit db
      → Held id claim since limit (update_where other guard change db).1
  update_where-Held id claim other since limit guard change db same held h =
      rw (update_where-alone other guard change db h.alone)
        (go (find_execution other db.executions) refl)
    where
      clash :
          (x : Execution)
          → find_execution other db.executions ≡ some x
          → guard x ≡ true
          → x.id ≡ id
          → IsLeased id claim since db.executions
          → ⊥
      clash x e free own (y, found, lease) =
          let here : other ≡ id = sym (find_execution-id other db.executions e) ∙ own in
          let same_row : some x ≡ some y =
            sym e ∙ ap (λ k. find_execution k db.executions) here ∙ found in
          let one : x ≡ y = cc (same_row) in
          absurd (
            cc (
              free,
              held here x
                  (subst (λ z. lease_of z ≡ (true, some claim, some since)) (sym one) lease),
            ))

      go :
          (o : Option Execution)
          → find_execution other db.executions ≡ o
          → Held id claim since limit (update_found guard change o db).1
      go none e = h
      go (some x) e = elim (Bool-cases (guard x)) [
        | inr refused ↦ rw refused h
        | inl free ↦ rw free (record {
          alone = h.alone;
          in_time = h.in_time;
          leased =
              IsLeased-amend id claim x.id since change db.executions same
                (λ own. absurd (clash x e free own h.leased)) h.leased;
        })
      ]
