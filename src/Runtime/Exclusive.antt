-- ===== src/Runtime/Exclusive.antt =====
-- The lease of an execution: while it lasts, nobody else obtains it.
use safeops.Prelude.{
  ℕ, suc, ◌+◌, ◌≡◌, ◌≢◌, ◌≤◌, ◌<◌, refl, sym, ap, subst, inl, inr, Bool, true, false, Option, none,
  some, [], ◌==◌, ==_iff, arith, Bool-cases,
}
use safeops.Model.Uuid.{Uuid}
use safeops.Model.Rows.{Execution}
use safeops.Model.Db.{Db, amend}
use safeops.Exec.{returned, pure, ◌>>=◌}
use safeops.Exec.Keeps.{Keeps-bind, Keeps-pure}
use safeops.Runtime.Lease.{
  find_execution, may_step, take_lease, holds_claim, free_lease, claim_if, update_found,
  update_where, claim_stepping, release_stepping,
}
use safeops.Runtime.Keeps.{find_execution-id}
use safeops.Runtime.Leased.{
  lease_of, KeepsLease, IsLeased, find-amend_here, IsLeased-amend, update_where-alone, Held,
  update_where-Held,
}

not_held :
    (claim held : Uuid) (since : ℕ) (x : Execution)
    → held ≢ claim
    → lease_of x ≡ (true, some claim, some since)
    → holds_claim held x ≡ false
unfolding holds_claim
not_held claim held since x apart lease =
    let at : x.stepping_claim_id ≡ some claim =
      ap (λ (l : Bool × Option Uuid × Option ℕ). l.1) lease in
    rw at (elim (Bool-cases (claim == held)) [
      | inr free ↦ free
      | inl mine ↦ absurd (apart (sym ((==_iff claim held).0 mine)))
    ])

module _ {W : Type 0} (ttl : ℕ) (id claim : Uuid) (since : ℕ) where
  -- What others do while the claim lasts: they try to claim this or another execution, release what is
  -- not this lease, update executions otherwise, or do anything else while time goes by.
  pub data Turn : Db W → Db W → Type 0 where
    claims : (other : Uuid) (db : Db W) → Turn db (claim_stepping ttl other db).1
    releases :
        (other held : Uuid) (db : Db W)
        → (other ≡ id → held ≢ claim)
        → Turn db (release_stepping other held db).1
    updates :
        (other : Uuid) (f : Execution → Execution) (db : Db W)
        → KeepsLease f
        → Turn db (record db { executions = amend (λ x. x.id) other f db.executions })
    passes :
        (db db' : Db W)
        → db'.executions ≡ db.executions
        → db'.rivals ≡ []
        → db'.clock ≤ since + ttl
        → Turn db db'

  pub data Turns : Db W → Db W → Type 0 where
    here : {db : Db W} → Turns db db
    then : {a b c : Db W} → Turn a b → Turns b c → Turns a c

  refused :
      (db : Db W)
      → db.clock ≤ since + ttl
      → (x : Execution) → lease_of x ≡ (true, some claim, some since)
      → may_step ttl db.clock x ≡ false
  unfolding may_step
  refused db in_time x lease =
      let taken : x.stepping ≡ true = ap (λ (l : Bool × Option Uuid × Option ℕ). l.0) lease in
      let at : x.stepping_claimed_at ≡ some since =
        ap (λ (l : Bool × Option Uuid × Option ℕ). l.2) lease in
      rw (taken, at) (ground (arith, in_time))

  Turn-Held :
      {a b : Db W}
      → Turn a b
      → Held id claim since (since + ttl) a
      → Held id claim since (since + ttl) b
  unfolding claim_stepping release_stepping ◌>>=◌ holds_claim take_lease free_lease
  Turn-Held (claims other db) h =
      (Keeps-bind (update_where other (may_step ttl db.clock) (take_lease db.next_id db.clock))
          (λ claimed. pure (claim_if db.next_id claimed))
          (record {
            at = λ d.
                update_where-Held id claim other since (since + ttl) (may_step ttl db.clock)
                  (take_lease db.next_id db.clock) d (λ y. refl)
                  (λ own x lease. refused db h.in_time x lease);
          })
          (λ claimed. Keeps-pure _)).at
        (record db { next_id = suc db.next_id })
        (record { alone = h.alone; in_time = h.in_time; leased = h.leased })
  Turn-Held (releases other held db apart) h =
      update_where-Held id claim other since (since + ttl) (holds_claim held) free_lease db
        (λ y. refl) (λ own x lease. not_held claim held since x (apart own) lease) h
  Turn-Held (updates other f db keeps) h = record {
    alone = h.alone;
    in_time = h.in_time;
    leased =
        IsLeased-amend id claim other since f db.executions (λ y. (keeps y).0)
          (λ own y. (keeps y).1) h.leased;
  }
  Turn-Held (passes db db' e alone in_time) h = record {
    alone = alone;
    in_time = in_time;
    leased = subst (IsLeased id claim since) (sym e) h.leased;
  }

  Turns-Held :
      {a b : Db W}
      → Turns a b
      → Held id claim since (since + ttl) a
      → Held id claim since (since + ttl) b
  Turns-Held here h = h
  Turns-Held (then t ts) h = Turns-Held ts (Turn-Held t h)

  Held-refuses :
      (db : Db W)
      → Held id claim since (since + ttl) db
      → (claim_stepping ttl id db).0 ≡ returned none
  unfolding claim_stepping ◌>>=◌
  Held-refuses db h =
      let (x, found, lease) = h.leased in
      let db' : Db W = record db { next_id = suc db.next_id } in
      rw
        (
          update_where-alone id (may_step ttl db.clock) (take_lease db.next_id db.clock) db'
              h.alone,
          found,
          refused db h.in_time x lease,
        )
        refl

module _ {W : Type 0} (ttl : ℕ) (id : Uuid) (db : Db W) where
  step_alone :
      db.rivals ≡ []
      → update_where id
          (may_step ttl db.clock)
          (take_lease db.next_id db.clock)
          (record db { next_id = suc db.next_id })
        ≡ update_found
            (may_step ttl db.clock)
            (take_lease db.next_id db.clock)
            (find_execution id db.executions)
            (record db { next_id = suc db.next_id })
  step_alone alone = update_where-alone id _ _ (record db { next_id = suc db.next_id }) alone

  leased :
      (x : Execution) (claim : Uuid)
      → db.next_id ≡ claim
      → find_execution id db.executions ≡ some x
      → IsLeased id claim db.clock
          (amend (λ y. y.id) x.id (take_lease db.next_id db.clock) db.executions)
  unfolding take_lease
  leased x claim own e =
      let f = take_lease db.next_id db.clock in
      (
        f x,
        subst (λ k. find_execution id (amend (λ y. y.id) k f db.executions) ≡ some (f x))
            (sym (find_execution-id id db.executions e))
            (find-amend_here id f db.executions (λ y. refl) e),
        ap (λ c. (true, some c, some db.clock)) own,
      )

  claimed-Held :
      (claim : Uuid)
      → db.rivals ≡ []
      → (claim_stepping ttl id db).0 ≡ returned (some claim)
      → Held id claim db.clock (db.clock + ttl) (claim_stepping ttl id db).1
  unfolding claim_stepping ◌>>=◌ take_lease
  claimed-Held claim alone h = go (find_execution id db.executions) refl
    where
      go :
          (o : Option Execution)
          → find_execution id db.executions ≡ o
          → Held id claim db.clock (db.clock + ttl) (claim_stepping ttl id db).1
      go none e = absurd (cc (rw (step_alone alone, e) at h))
      go (some x) e = elim (Bool-cases (may_step ttl db.clock x)) [
        | inr late ↦ absurd (cc (rw (step_alone alone, e, late) at h))
        | inl free ↦
            let own : db.next_id ≡ claim = cc (rw (step_alone alone, e, free) at h) in
            rw (step_alone alone, e, free)
              (record { alone = alone; in_time = ground arith; leased = leased x claim own e })
      ]

  -- A worker that has claimed an execution, where every other writer is one of the turns: as long as
  -- the lease has not run out and the worker has not released it, whatever the others claim, release
  -- and update in between, no further claim of the execution succeeds.
  pub claim-exclusive :
      (claim : Uuid) (later : Db W)
      → db.rivals ≡ []
      → (claim_stepping ttl id db).0 ≡ returned (some claim)
      → Turns ttl id claim db.clock (claim_stepping ttl id db).1 later
      → (claim_stepping ttl id later).0 ≡ returned none
  claim-exclusive claim later alone h turns =
      Held-refuses ttl id claim db.clock later
        (Turns-Held ttl id claim db.clock turns (claimed-Held claim alone h))

  claim-free :
      (x : Execution)
      → db.rivals ≡ []
      → find_execution id db.executions ≡ some x
      → may_step ttl db.clock x ≡ true
      → (claim_stepping ttl id db).0 ≡ returned (some db.next_id)
  unfolding claim_stepping ◌>>=◌
  claim-free x alone found free = rw (step_alone alone, found, free) refl

  overdue :
      (x : Execution) (claim : Uuid) (since : ℕ)
      → lease_of x ≡ (true, some claim, some since)
      → since + ttl < db.clock
      → may_step ttl db.clock x ≡ true
  unfolding may_step
  overdue x claim since lease late =
      let taken : x.stepping ≡ true = ap (λ (l : Bool × Option Uuid × Option ℕ). l.0) lease in
      let at : x.stepping_claimed_at ≡ some since =
        ap (λ (l : Bool × Option Uuid × Option ℕ). l.2) lease in
      rw (taken, at) (ground (arith, late))

free_lease-may_step : (ttl t : ℕ) (x : Execution) → may_step ttl t (free_lease x) ≡ true
unfolding may_step free_lease
free_lease-may_step ttl t x = refl

module _ {W : Type 0} (ttl : ℕ) (id claim : Uuid) (since : ℕ) (db : Db W) where
  holds : (x : Execution) → lease_of x ≡ (true, some claim, some since) → holds_claim claim x ≡ true
  unfolding holds_claim
  holds x lease =
      let at : x.stepping_claim_id ≡ some claim =
        ap (λ (l : Bool × Option Uuid × Option ℕ). l.1) lease in
      rw at ((==_iff claim claim).1 refl)

  -- The execution is free again after its release.
  release-frees :
      db.rivals ≡ []
      → (x : Execution) → find_execution id db.executions ≡ some x
      → lease_of x ≡ (true, some claim, some since)
      → ((release_stepping id claim db).1.rivals ≡ [])
        × (find_execution id (release_stepping id claim db).1.executions ≡ some (free_lease x))
  unfolding release_stepping free_lease
  release-frees alone x found lease =
      rw (update_where-alone id (holds_claim claim) free_lease db alone, found, holds x lease)
        (
          alone,
          subst
              (λ k.
                find_execution id (amend (λ y. y.id) k free_lease db.executions)
                ≡ some (free_lease x))
              (sym (find_execution-id id db.executions found))
              (find-amend_here id free_lease db.executions (λ y. refl) found),
        )

  -- Where nobody else commits, a lease ends: an execution leased to a claim can be claimed again once
  -- the holder has released it, and also without that when the time of the lease is over.
  pub claim-available :
      db.rivals ≡ []
      → IsLeased id claim since db.executions
      → ((next : Uuid) × ((claim_stepping ttl id (release_stepping id claim db).1).0
            ≡ returned (some next)))
        × (since + ttl < db.clock
            → (next : Uuid) × ((claim_stepping ttl id db).0 ≡ returned (some next)))
  claim-available alone (x, found, lease) =
      let (still, freed) = release-frees alone x found lease in
      (
        (
          (release_stepping id claim db).1.next_id,
          claim-free ttl id (release_stepping id claim db).1 (free_lease x) still freed
              (free_lease-may_step ttl _ x),
        ),
        λ late. (
          db.next_id,
          claim-free ttl id db x alone found (overdue ttl id db x claim since lease late),
        ),
      )
