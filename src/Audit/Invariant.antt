-- ===== src/Audit/Invariant.antt =====
-- Invariants of the database under the services: what the proof for an operation may use of them.
use safeops.Prelude.{◌≡◌, refl, ◌∙◌, ◌⊎◌, inl, inr, false, List, [], ◌∷◌, ◌++◌, any}
use safeops.Model.Uuid.{Uuid}
use safeops.Model.Rows.{Execution, ExecutionStep, ApprovalRequest, ExternalActionRequest}
use safeops.Model.Db.{Db, same_place, interfere}
use safeops.Exec.{Exec}
use safeops.Exec.Keeps.{Keeps, IgnoresIds, keeps_rules}
use safeops.Audit.{Builder, commit_chunk}
use safeops.Audit.Tables.{
  Same, Grows, places, IsQuiet, interfere-Same, interfere-Grows, commit_chunk-Same,
  commit_chunk-Grows, Same-ids, Grows-ids,
}

-- `P` outlives other writers, transactions of quiet builders, updates of executions, approval
-- requests, external requests and steps in their places, and a new step in a free place.
pub record IsInvariant {W : Type 0} (P : Db W → Type 0) : Type 0 where
  pub ids : IgnoresIds P
  pub rivals : (db : Db W) → P db → P (interfere db)
  pub chunk : (id : Uuid) (build : Builder W) → IsQuiet build → Keeps P (commit_chunk id build)
  pub executions : (db : Db W) (xs : List Execution) → P db → P (record db { executions = xs })
  pub approvals : (db : Db W) (ps : List ApprovalRequest) → P db → P (record db { approvals = ps })
  pub externals :
      (db : Db W) (es : List ExternalActionRequest) → P db → P (record db { externals = es })
  pub steps :
      (db : Db W) (ss : List ExecutionStep)
      → places ss ≡ places db.steps
      → P db
      → P (record db { steps = ss })
  pub placed :
      (db : Db W) (s : ExecutionStep)
      → any (same_place s) db.steps ≡ false
      → P db
      → P (record db { steps = db.steps ++ s ∷ [] })

-- `P` says nothing of the tables that the tools themselves change.
pub record IgnoresWorld {W : Type 0} (P : Db W → Type 0) : Type 0 where
  pub world : (db : Db W) (w : W) → P db → P (record db { world = w })

module _ {W : Type 0} where
  module _ {P : Db W → Type 0} (i : IsInvariant P) where
    pub Keeps-chunk :
        (id : Uuid) (build : Builder W) → IsQuiet build → Keeps P (commit_chunk id build)
    Keeps-chunk id build quiet = i.chunk id build quiet

    pub IsInvariant-ids : IgnoresIds P
    IsInvariant-ids = i.ids

  pub Grows-IsInvariant : (a : Db W) → IsInvariant (Grows a)
  Grows-IsInvariant a = record {
    ids = Grows-ids a;
    rivals = interfere-Grows a;
    chunk = commit_chunk-Grows a;
    executions = λ db xs p. record { added = p.added; appended = p.appended; unique = p.unique };
    approvals = λ db xs p. record { added = p.added; appended = p.appended; unique = p.unique };
    externals = λ db es p. record { added = p.added; appended = p.appended; unique = p.unique };
    steps = λ db ss e p. record { added = p.added; appended = p.appended; unique = p.unique };
    placed = λ db s e p. record { added = p.added; appended = p.appended; unique = p.unique };
  }

  pub Grows-IgnoresWorld : (a : Db W) → IgnoresWorld (Grows a)
  Grows-IgnoresWorld a = record {
    world = λ db w p. record { added = p.added; appended = p.appended; unique = p.unique };
  }

  -- `Same` reads none of the tables that a service updates by itself.
  Same-of :
      {a b c : Db W}
      → Same a b
      → c.world ≡ b.world
      → c.agents ≡ b.agents
      → c.tools ≡ b.tools
      → c.permissions ≡ b.permissions
      → c.policies ≡ b.policies
      → c.clock ≡ b.clock
      → Same a c
  Same-of s w g t p o k = record {
    world = w ∙ s.world;
    agents = g ∙ s.agents;
    tools = t ∙ s.tools;
    permissions = p ∙ s.permissions;
    policies = o ∙ s.policies;
    clock = k ∙ s.clock;
  }

  pub Same-IsInvariant : (a : Db W) → IsInvariant (Same a)
  Same-IsInvariant a = record {
    ids = Same-ids a;
    rivals = interfere-Same a;
    chunk = commit_chunk-Same a;
    executions = λ db xs p. Same-of p refl refl refl refl refl refl;
    approvals = λ db ps p. Same-of p refl refl refl refl refl refl;
    externals = λ db es p. Same-of p refl refl refl refl refl refl;
    steps = λ db ss e p. Same-of p refl refl refl refl refl refl;
    placed = λ db s e p. Same-of p refl refl refl refl refl refl;
  }

-- An invariant up to some evidence, which no operation takes back.
abbrev pub Unless : {W : Type 0} → Type 0 → (Db W → Type 0) → Db W → Type 0
Unless E P db = P db ⊎ E

pub on_inl : {E P Q : Type 0} → (P → Q) → P ⊎ E → Q ⊎ E
on_inl f (inl p) = inl (f p)
on_inl f (inr e) = inr e

module _ {W : Type 0} (E : Type 0) where
  pub Keeps-Unless :
      {A : Type 0} {P : Db W → Type 0} {m : Exec W A} → Keeps P m → Keeps (Unless E P) m
  Keeps-Unless {m = m} k = record { at = λ db. on_inl (k.at db) }

  pub Unless-IsInvariant : {P : Db W → Type 0} → IsInvariant P → IsInvariant (Unless E P)
  Unless-IsInvariant i = record {
    ids = record { fresh_id = λ db n. on_inl (i.ids.fresh_id db n) };
    rivals = λ db. on_inl (i.rivals db);
    chunk = λ id build quiet. Keeps-Unless (i.chunk id build quiet);
    executions = λ db xs. on_inl (i.executions db xs);
    approvals = λ db ps. on_inl (i.approvals db ps);
    externals = λ db es. on_inl (i.externals db es);
    steps = λ db ss e. on_inl (i.steps db ss e);
    placed = λ db s free. on_inl (i.placed db s free);
  }

pub ruleset invariant_rules = (keeps_rules, Keeps-chunk, IsInvariant-ids)
