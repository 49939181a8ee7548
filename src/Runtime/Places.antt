-- ===== src/Runtime/Places.antt =====
-- The places of the steps of all executions: what the services and other writers keep of them.
use safeops.Prelude.{
  ℕ, ◌≡◌, refl, sym, ap, ◌∙◌, subst, inl, inr, false, Option, none, some, List, [], ◌∷◌, ◌++◌, any,
  Bool-cases, Option-cases,
}
use safeops.Model.Uuid.{Uuid}
use safeops.Model.Rows.{AuditEvent, ExecutionStep}
use safeops.Model.Db.{
  Db, Rival, Row, audit_event, same_place, add_steps, insert_events, events_of, write_row,
  write_rows, commit_rows, settle_rival, interfere_with, interfere,
}
use safeops.Audit.Chunk.{commit_chunk-keeps}
use safeops.Audit.Tables.{places}
use safeops.Audit.Invariant.{IsInvariant}

-- A predicate of the places in use.
pub record PlacesAre {W : Type 0} (Q : List (Uuid × ℕ) → Type 0) (db : Db W) : Type 0 where
  pub holds : Q (places db.steps)

module _ {W : Type 0} where
  write_rows-steps : (rows : List Row) (db : Db W) → (write_rows rows db).steps ≡ db.steps
  unfolding write_rows
  write_rows-steps [] db = refl
  write_rows-steps (r ∷ rows) db = write_rows-steps rows (write_row r db) ∙ write_row-steps r
    where
      write_row-steps : (r : Row) → (write_row r db).steps ≡ db.steps
      write_row-steps (audit_event e) = refl
      write_row-steps r = refl

  commit_rows-steps :
      (rows : List Row) (db : Db W) {db' : Db W}
      → commit_rows rows db ≡ some db'
      → db'.steps ≡ db.steps
  unfolding commit_rows
  commit_rows-steps rows db {db'} h =
      elim (Option-cases (insert_events (events_of rows) db.events)) [
        | inl clash ↦ absurd (cc (rw clash at h))
        | inr (es, e) ↦
            (let q : record (write_rows rows db) { events = es } ≡ db' = cc (rw e at h) in
              sym (ap (λ (x : Db W). x.steps) q) ∙ write_rows-steps rows db)
      ]

-- A predicate that a step in a free place keeps is an invariant of the services.
module _ (Q : List (Uuid × ℕ) → Type 0)
    (grow : (s : ExecutionStep) (ss : List ExecutionStep)
      → any (same_place s) ss ≡ false
      → Q (places ss)
      → Q (places (ss ++ s ∷ []))) where
  add_steps-holds :
      (ss table : List ExecutionStep) → Q (places table) → Q (places (add_steps ss table))
  add_steps-holds [] table q = q
  add_steps-holds (s ∷ ss) table q = elim (Bool-cases (any (same_place s) table)) [
    | inl taken ↦ rw taken (add_steps-holds ss table q)
    | inr free ↦ rw free (add_steps-holds ss (table ++ s ∷ []) (grow s table free q))
  ]

  module _ {W : Type 0} where
    settle_rival-holds :
        (r : Rival) (o : Option (List AuditEvent)) (db : Db W)
        → Q (places db.steps)
        → Q (places (settle_rival r o db).steps)
    settle_rival-holds r none db q = q
    settle_rival-holds r (some es) db q = add_steps-holds r.steps db.steps q

    interfere-holds : (db : Db W) → Q (places db.steps) → Q (places (interfere db).steps)
    unfolding interfere
    interfere-holds db q = go db.rivals
      where
        go : (rs : List Rival) → Q (places (interfere_with rs db).steps)
        go [] = q
        go (r ∷ rs) =
            settle_rival-holds r (insert_events r.events db.events) (record db { rivals = rs }) q

    pub PlacesAre-IsInvariant : IsInvariant (PlacesAre {W = W} Q)
    PlacesAre-IsInvariant = record {
      ids = record { fresh_id = λ db n p. record { holds = p.holds } };
      rivals = λ db p. record { holds = interfere-holds db p.holds };
      chunk = λ id build quiet. record {
        at =
            commit_chunk-keeps (PlacesAre Q) build
              (λ db p. record { holds = interfere-holds db p.holds })
              (λ db db' p done.
                let (n, rows, between, built, committed) = done in
                record {
                  holds =
                      subst Q
                        (sym (
                          ap places (commit_rows-steps rows between committed)
                          ∙ (quiet.quiet n db rows between built).places))
                        p.holds;
                })
              id;
      };
      executions = λ db xs p. record { holds = p.holds };
      approvals = λ db ps p. record { holds = p.holds };
      externals = λ db es p. record { holds = p.holds };
      steps = λ db ss e p. record { holds = subst Q (sym e) p.holds };
      placed = λ db s free p. record { holds = grow s db.steps free p.holds };
    }
