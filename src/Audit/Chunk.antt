-- ===== src/Audit/Chunk.antt =====
-- `commit_chunk` keeps what each of its transactions keeps.
use safeops.Prelude.{ℕ, zero, suc, ◌+◌, ◌≡◌, refl, inl, inr, Option, none, some, List, Option-cases}
use safeops.Model.Uuid.{Uuid}
use safeops.Model.Db.{Db, Row, commit_rows, interfere}
use safeops.Exec.{Outcome}
use safeops.Audit.{
  Builder, Attempt, committed, clash, refused, last_sequence, try_commit, commit_built, attempts,
  on_attempt, commit_chunk,
}

-- The rows of a transaction of `build` that was committed.
abbrev pub Commits : {W : Type 0} → Builder W → Db W → Db W → Type 0
Commits build db db' =
    (n : ℕ) × (rows : List Row) × (between : Db _) × (build n db ≡ some (rows, between))
    × (commit_rows rows between ≡ some db')

commit_built-committed :
    {W : Type 0} (o : Option (Db W)) {db : Db W} → commit_built o ≡ committed db → o ≡ some db
commit_built-committed none h = cc
commit_built-committed (some x) h = cc

try_commit-Commits :
    {W : Type 0} (n : ℕ) (build : Builder W) (db : Db W) {db' : Db W}
    → try_commit n build db ≡ committed db'
    → Commits build db db'
unfolding try_commit
try_commit-Commits n build db h = elim (Option-cases (build n db)) [
  | inl e ↦ absurd (cc (rw e at h))
  | inr (p, e) ↦ (n, p.0, p.1, e, commit_built-committed (commit_rows p.0 p.1) (rw e at h))
]

-- An invariant of rival transactions and of the builder's own is one of `commit_chunk`, whether it
-- returns or raises.
module _ {W : Type 0} (P : Db W → Type 0) (build : Builder W)
    (rival : (db : Db W) → P db → P (interfere db))
    (own : (db db' : Db W) → P db → Commits build db db' → P db') where
  on_attempt-keeps :
      (a : Attempt W) (db : Db W) (again : Outcome Unit × Db W)
      → P db
      → ((db' : Db W) → a ≡ committed db' → P db')
      → P again.1
      → P (on_attempt a db again).1
  on_attempt-keeps (committed db') db again p c r = c db' refl
  on_attempt-keeps clash db again p c r = r
  on_attempt-keeps refused db again p c r = p

  attempts-keeps : (n : ℕ) (id : Uuid) (db : Db W) → P db → P (attempts n id build db).1
  unfolding attempts
  attempts-keeps zero id db p = p
  attempts-keeps (suc n) id db p =
      let p' = rival db p in
      on_attempt-keeps (try_commit (last_sequence id db.events + 1) build (interfere db))
        (interfere db) (attempts n id build (interfere db)) p'
        (λ db' e.
          own (interfere db) db' p'
            (try_commit-Commits (last_sequence id db.events + 1) build (interfere db) e))
        (attempts-keeps n id (interfere db) p')

  pub commit_chunk-keeps : (id : Uuid) (db : Db W) → P db → P (commit_chunk id build db).1
  unfolding commit_chunk
  commit_chunk-keeps id db p = attempts-keeps 5 id db p
