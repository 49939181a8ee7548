-- ===== src/Audit/Tables.antt =====
-- What `commit_chunk` leaves alone and how the log changes under it, for a builder whose own updates
-- touch neither.
use safeops.Prelude.{
  ℕ, ◌≡◌, refl, sym, ◌∙◌, ap, inl, inr, Option, none, some, List, [], ◌∷◌, ◌++◌, append_assoc,
  append-nil, Option-cases,
}
use safeops.Model.Uuid.{Uuid}
use safeops.Model.Rows.{AuditEvent, ExecutionStep}
use safeops.Model.Db.{
  Db, Row, audit_event, Rival, insert_events, events_of, commit_rows, write_row, write_rows,
  interfere, interfere_with, settle_rival,
}
use safeops.Exec.Keeps.{Keeps, IgnoresIds}
use safeops.Audit.{Builder, commit_chunk}
use safeops.Audit.Chunk.{commit_chunk-keeps}
use safeops.Audit.Events.{AreUnique, insert_events-append, insert_events-AreUnique}

-- The tools' own tables, the tables that authorize a call and the clock are the same in both.
pub record Same {W : Type 0} (a b : Db W) : Type 0 where
  pub world : b.world ≡ a.world
  pub agents : b.agents ≡ a.agents
  pub tools : b.tools ≡ a.tools
  pub permissions : b.permissions ≡ a.permissions
  pub policies : b.policies ≡ a.policies
  pub clock : b.clock ≡ a.clock

pub Same-refl : {W : Type 0} (a : Db W) → Same a a
Same-refl a = record {
  world = refl;
  agents = refl;
  tools = refl;
  permissions = refl;
  policies = refl;
  clock = refl;
}

-- The log of `b` is that of `a` with events added, and unique if that was.
pub record Grows {W : Type 0} (a b : Db W) : Type 0 where
  pub added : List AuditEvent
  pub appended : b.events ≡ a.events ++ added
  pub unique : AreUnique a.events → AreUnique b.events

pub Grows-refl : {W : Type 0} (a : Db W) → Grows a a
Grows-refl a = record { added = []; appended = sym (append-nil a.events); unique = λ u. u }

-- The place of each step in its execution.
abbrev pub places : List ExecutionStep → List (Uuid × ℕ)
places [] = []
places (s ∷ ss) = (s.execution_id, s.sequence) ∷ places ss

-- An update that leaves those tables, the log and the places of the steps alone.
pub record Quietly {W : Type 0} (a b : Db W) : Type 0 where
  pub same : Same a b
  pub events : b.events ≡ a.events
  pub places : places b.steps ≡ places a.steps

pub Quietly-refl : {W : Type 0} (a : Db W) → Quietly a a
Quietly-refl a = record { same = Same-refl a; events = refl; places = refl }

-- A builder whose own updates are such.
pub record IsQuiet {W : Type 0} (build : Builder W) : Type 0 where
  pub quiet :
      (n : _) (db : Db W) (rows : List Row) (db' : Db W)
      → build n db ≡ some (rows, db')
      → Quietly db db'

module _ {W : Type 0} where
  pub Same-trans : (a b c : Db W) → Same a b → Same b c → Same a c
  Same-trans a b c p q = record {
    world = q.world ∙ p.world;
    agents = q.agents ∙ p.agents;
    tools = q.tools ∙ p.tools;
    permissions = q.permissions ∙ p.permissions;
    policies = q.policies ∙ p.policies;
    clock = q.clock ∙ p.clock;
  }

  -- Events inserted behind a log that has grown.
  Grows-insert :
      (a b c : Db W) (es : List AuditEvent)
      → Grows a b
      → insert_events es b.events ≡ some c.events
      → Grows a c
  Grows-insert a b c es g h = record {
    added = g.added ++ es;
    appended =
        insert_events-append es b.events h
        ∙ ap (λ l. l ++ es) g.appended
        ∙ append_assoc a.events g.added es;
    unique = λ u. insert_events-AreUnique es b.events (g.unique u) h;
  }

  write_rows-Same : (rows : List Row) (db : Db W) → Same db (write_rows rows db)
  unfolding write_rows
  write_rows-Same [] db = Same-refl db
  write_rows-Same (r ∷ rows) db =
      Same-trans db (write_row r db) (write_rows rows (write_row r db)) (write_row-Same r)
        (write_rows-Same rows (write_row r db))
    where
      write_row-Same : (r : Row) → Same db (write_row r db)
      write_row-Same (audit_event e) = Same-refl db
      write_row-Same r = record {
        world = refl;
        agents = refl;
        tools = refl;
        permissions = refl;
        policies = refl;
        clock = refl;
      }

  -- What a committed transaction did.
  pub commit_rows-some :
      (rows : List Row) (db db' : Db W)
      → commit_rows rows db ≡ some db'
      → Same db db' × (insert_events (events_of rows) db.events ≡ some db'.events)
  unfolding commit_rows
  commit_rows-some rows db db' h = elim (Option-cases (insert_events (events_of rows) db.events)) [
    | inl clash ↦ absurd (cc (rw clash at h))
    | inr (es, e) ↦
        (let q : record (write_rows rows db) { events = es } ≡ db' = cc (rw e at h) in
          let s = write_rows-Same rows db in
          (
            rw (← q) (record {
              world = s.world;
              agents = s.agents;
              tools = s.tools;
              permissions = s.permissions;
              policies = s.policies;
              clock = s.clock;
            }),
            e ∙ ap (λ (x : Db W). some x.events) q,
          ))
  ]

  interfere-some :
      (db : Db W)
      → Same db (interfere db)
        × ((es : List AuditEvent) × (insert_events es db.events ≡ some (interfere db).events))
  unfolding interfere insert_events
  interfere-some db = go db.rivals
    where
      settled :
          (r : Rival) (d : Db W) (o : Option (List AuditEvent))
          → insert_events r.events d.events ≡ o
          → Same d (settle_rival r o d)
            × ((es : List AuditEvent) × (insert_events es d.events
                  ≡ some (settle_rival r o d).events))
      settled r d none e = (Same-refl d, ([], refl))
      settled r d (some es) e = (
        record {
          world = refl;
          agents = refl;
          tools = refl;
          permissions = refl;
          policies = refl;
          clock = refl;
        },
        (r.events, e),
      )

      go :
          (rs : List Rival)
          → Same db (interfere_with rs db)
            × ((es : List AuditEvent) × (insert_events es db.events
                  ≡ some (interfere_with rs db).events))
      go [] = (Same-refl db, ([], refl))
      go (r ∷ rs) =
          let (s, grown) =
            settled r (record db { rivals = rs }) (insert_events r.events db.events) refl in
          (
            record {
              world = s.world;
              agents = s.agents;
              tools = s.tools;
              permissions = s.permissions;
              policies = s.policies;
              clock = s.clock;
            },
            grown,
          )

  pub interfere-Same : (a db : Db W) → Same a db → Same a (interfere db)
  interfere-Same a db p = Same-trans a db (interfere db) p (interfere-some db).0

  pub interfere-Grows : (a db : Db W) → Grows a db → Grows a (interfere db)
  interfere-Grows a db p =
      let (s, (es, e)) = interfere-some db in Grows-insert a db (interfere db) es p e

  pub commit_chunk-Same :
      (a : Db W) (id : Uuid) (build : Builder W)
      → IsQuiet build
      → Keeps (Same a) (commit_chunk id build)
  commit_chunk-Same a id build quiet = record {
    at =
        commit_chunk-keeps (Same a) build (interfere-Same a)
          (λ db db' p done.
            let (n, rows, between, built, committed) = done in
            Same-trans a between db'
              (Same-trans a db between p (quiet.quiet n db rows between built).same)
              (commit_rows-some rows between db' committed).0)
          id;
  }

  pub commit_chunk-Grows :
      (a : Db W) (id : Uuid) (build : Builder W)
      → IsQuiet build
      → Keeps (Grows a) (commit_chunk id build)
  commit_chunk-Grows a id build quiet = record {
    at =
        commit_chunk-keeps (Grows a) build (interfere-Grows a)
          (λ db db' p done.
            let (n, rows, between, built, committed) = done in
            Grows-insert a db db' (events_of rows) p (
              rw (quiet.quiet n db rows between built).events at
                ((commit_rows-some rows between db' committed).1)))
          id;
  }

  pub Same-ids : (a : Db W) → IgnoresIds (Same a)
  Same-ids a = record {
    fresh_id = λ db n p. record {
      world = p.world;
      agents = p.agents;
      tools = p.tools;
      permissions = p.permissions;
      policies = p.policies;
      clock = p.clock;
    };
  }

  pub Grows-ids : (a : Db W) → IgnoresIds (Grows a)
  Grows-ids a = record {
    fresh_id = λ db n p. record { added = p.added; appended = p.appended; unique = p.unique };
  }
