-- ===== src/Audit/Liveness.antt =====
-- How often `commit_chunk` can fail: each failure is a rival's doing.
use safeops.Prelude.{
  ℕ, zero, suc, ◌+◌, ◌<◌, ◌≤◌, ◌≡◌, refl, inl, inr, false, Option, none, some, List, [], ◌∷◌, ◌++◌,
  length, any, Option-cases, arith,
}
use safeops.Model.Uuid.{Uuid}
use safeops.Model.Rows.{AuditEvent}
use safeops.Model.Db.{
  Db, Rival, Row, clashes, insert_events, events_of, write_rows, commit_rows, settle_rival,
  interfere_with, interfere,
}
use safeops.Exec.{returned}
use safeops.Audit.{last_sequence, attempts, commit_chunk}
use safeops.Gateway.Tooling.{rows_only}

empty_of : {A : Type 0} (xs : List A) → length xs ≤ 0 → xs ≡ []
empty_of [] h = refl
empty_of (x ∷ xs) h = absurd (ground arith)

-- Events of one execution, numbered in a row from `n` on.
abbrev pub AreNumbered : Uuid → ℕ → List AuditEvent → Type 0
AreNumbered id n [] = Unit
AreNumbered id n (e ∷ es) = (e.execution_id ≡ id) × (e.sequence ≡ n) × AreNumbered id (suc n) es

no_clash :
    (id : Uuid) (e : AuditEvent) (table : List AuditEvent)
    → e.execution_id ≡ id
    → last_sequence id table < e.sequence
    → any (clashes e) table ≡ false
unfolding last_sequence
no_clash id e [] own h = refl
no_clash id e (f ∷ fs) own h = ground (arith, no_clash id e fs own)

last_sequence-snoc :
    (id : Uuid) (e : AuditEvent) (table : List AuditEvent) (n : ℕ)
    → e.sequence ≡ n
    → last_sequence id table < n
    → last_sequence id (table ++ e ∷ []) < suc n
unfolding last_sequence
last_sequence-snoc id e [] n own h = ground arith
last_sequence-snoc id e (f ∷ fs) n own h = ground (arith, last_sequence-snoc id e fs n own)

insert_events-some :
    (id : Uuid) (n : ℕ) (es table : List AuditEvent)
    → AreNumbered id n es
    → last_sequence id table < n
    → (after : List AuditEvent) × (insert_events es table ≡ some after)
unfolding insert_events
insert_events-some id n [] table numbered h = (table, refl)
insert_events-some id n (e ∷ es) table (own, seq, rest) h =
    let (after, inserted) =
      insert_events-some id (suc n) es (table ++ e ∷ []) rest
        (last_sequence-snoc id e table n seq h) in
    (after, rw (no_clash id e table own (ground (arith, seq)), inserted) refl)

module _ {W : Type 0} where
  settle_rival-rivals :
      (r : Rival) (o : Option (List AuditEvent)) (db : Db W)
      → (settle_rival r o db).rivals ≡ db.rivals
  settle_rival-rivals r none db = refl
  settle_rival-rivals r (some es) db = refl

  -- One rival fewer is to come.
  interfere-rivals :
      (db : Db W) (m : ℕ) → length db.rivals ≤ suc m → length (interfere db).rivals ≤ m
  unfolding interfere
  interfere-rivals db m h = go db.rivals refl h
    where
      go :
          (rs : List Rival)
          → db.rivals ≡ rs
          → length rs ≤ suc m
          → length (interfere_with rs db).rivals ≤ m
      go [] e few = rw e (ground arith)
      go (r ∷ rs) e few =
          rw (settle_rival-rivals r (insert_events r.events db.events) (record db { rivals = rs }))
            (ground arith)

  pub interfere-none : (db : Db W) → db.rivals ≡ [] → interfere db ≡ db
  unfolding interfere
  interfere-none db e = rw e refl

module _ {W : Type 0} (id : Uuid) (rows : ℕ → List Row)
    (numbered : (n : ℕ) → AreNumbered id n (events_of (rows n))) where
  -- The rows are committed where nobody comes between.
  commit_rows-next :
      (db : Db W)
      → (db' : Db W) × (commit_rows (rows (last_sequence id db.events + 1)) db ≡ some db')
  unfolding commit_rows
  commit_rows-next db =
      let n = last_sequence id db.events + 1 in
      let (after, inserted) =
        insert_events-some id n (events_of (rows n)) db.events (numbered n) (ground arith) in
      (record (write_rows (rows n) db) { events = after }, rw inserted refl)

  attempts-returned :
      (m : ℕ) (db : Db W)
      → length db.rivals ≤ m
      → (attempts (suc m) id (rows_only rows) db).0 ≡ returned tt
  unfolding attempts
  attempts-returned zero db few =
      rw (interfere-none db (empty_of db.rivals few), (commit_rows-next db).1) refl
  attempts-returned (suc m) db few =
      elim (Option-cases (commit_rows (rows (last_sequence id db.events + 1)) (interfere db))) [
        | inl lost ↦ rw lost (attempts-returned m (interfere db) (interfere-rivals db m few))
        | inr (db', kept) ↦ rw kept refl
      ]

-- A chunk of rows without updates of its own, whose events are numbered in a row from the number
-- that it is given, is committed at last if at most four other writers come between.
pub commit_chunk-returned :
    {W : Type 0} (id : Uuid) (rows : ℕ → List Row) (db : Db W)
    → ((n : ℕ) → AreNumbered id n (events_of (rows n)))
    → length db.rivals ≤ 4
    → (commit_chunk id (rows_only rows) db).0 ≡ returned tt
unfolding commit_chunk
commit_chunk-returned id rows db numbered few = attempts-returned id rows numbered 4 db few
