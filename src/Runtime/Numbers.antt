-- ===== src/Runtime/Numbers.antt =====
-- The number of a new step: `_claim_step`.
use safeops.Prelude.{
  ℕ, ◌+◌, ◌≤◌, ◌<◌, ◌≡◌, refl, sym, ap, ◌∙◌, ◌⊎◌, inl, inr, Bool, true, Option, none, some, List,
  [], ◌∷◌, ◌++◌, ◌==◌, ==_iff, any, arith, leb, Elem, Bool-cases,
}
use safeops.Json.{Fields}
use safeops.Model.Uuid.{Uuid}
use safeops.Model.Enums.{StepType}
use safeops.Model.Rows.{ExecutionStep}
use safeops.Model.Db.{Db, same_place, interfere}
use safeops.Exec.{Outcome, returned, ◌>>=◌}
use safeops.Runtime.Steps.{last_step, add_step, claim_step}

last_step-bound :
    (id : Uuid) (ss : List ExecutionStep) (t : ExecutionStep)
    → Elem t ss
    → t.execution_id ≡ id
    → t.sequence ≤ last_step id ss
unfolding last_step
last_step-bound id [] t m own = absurd m
last_step-bound id (s ∷ ss) t (inl e) own = rw (← e) (ground (arith, own))
last_step-bound id (s ∷ ss) t (inr m) own =
    let below = last_step-bound id ss t m own in ground (arith, below)

last_step-attained :
    (id : Uuid) (ss : List ExecutionStep)
    → (last_step id ss ≡ 0)
      ⊎ ((t : ExecutionStep) × Elem t ss × (t.execution_id ≡ id) × (t.sequence ≡ last_step id ss))
unfolding last_step
last_step-attained id [] = inl refl
last_step-attained id (s ∷ ss) = elim (Bool-cases (s.execution_id == id)) [
  | inl own ↦ elim (Bool-cases (leb (last_step id ss) s.sequence)) [
    | inl up ↦ inr (s, inl refl, (==_iff s.execution_id id).0 own, rw own (ground (arith, up)))
    | inr down ↦ elim (last_step-attained id ss) [
      | inl nothing ↦ absurd (ground (arith, nothing, down))
      | inr (t, m, e, last) ↦ inr (t, inr m, e, rw own (ground (arith, last, down)))
    ]
  ]
  | inr other ↦ elim (last_step-attained id ss) [
    | inl nothing ↦ inl (rw other nothing)
    | inr (t, m, e, last) ↦ inr (t, inr m, e, rw other last)
  ]
]

any-Elem :
    (p : ExecutionStep → Bool) (ss : List ExecutionStep)
    → any p ss ≡ true
    → (t : ExecutionStep) × Elem t ss × (p t ≡ true)
any-Elem p [] h = absurd (cc)
any-Elem p (s ∷ ss) h = elim (Bool-cases (p s)) [
  | inl hit ↦ (s, inl refl, hit)
  | inr miss ↦ let (t, m, e) = any-Elem p ss (rw miss at h) in (t, inr m, e)
]

Elem-last : (s : ExecutionStep) (ss : List ExecutionStep) → Elem s (ss ++ s ∷ [])
Elem-last s [] = inl refl
Elem-last s (x ∷ xs) = inr (Elem-last s xs)

-- The number that follows those of the execution's steps: it is above all of them, and it is 1 or next
-- to one of them.
abbrev pub IsNext : Uuid → List ExecutionStep → ℕ → Type 0
IsNext id ss n =
    ((t : ExecutionStep) → Elem t ss → t.execution_id ≡ id → t.sequence < n)
    × ((n ≡ 1) ⊎ ((t : ExecutionStep) × Elem t ss × (t.execution_id ≡ id) × (t.sequence + 1 ≡ n)))

last_step-IsNext : (id : Uuid) (ss : List ExecutionStep) → IsNext id ss (last_step id ss + 1)
last_step-IsNext id ss = (
  λ t m own. let below = last_step-bound id ss t m own in ground (arith, below),
  elim (last_step-attained id ss) [
    | inl nothing ↦ inl (rw nothing refl)
    | inr (t, m, own, last) ↦ inr (t, m, own, ap (λ n. n + 1) last)
  ],
)

module _ {W : Type 0} (id : Uuid) (step_type : StepType) (input : Fields) (db : Db W) where
  -- What a claim comes to: a new step with the number `n`, or another writer's step with it.
  abbrev pub Claimed : ℕ → Outcome (Option ExecutionStep) × Db W → Type 0
  Claimed n r =
      ((s : ExecutionStep) × (r.0 ≡ returned (some s))
        × Elem s r.1.steps
        × (s.execution_id ≡ id)
        × (s.sequence ≡ n))
      ⊎ ((r.0 ≡ returned none)
          × ((t : ExecutionStep) × Elem t r.1.steps
              × (t.execution_id ≡ id)
              × (t.sequence ≡ n)
              × ¬ Elem t db.steps))

  add_step-Claimed :
      (s : ExecutionStep) (before : Db W)
      → s.execution_id ≡ id
      → IsNext id db.steps s.sequence
      → Claimed s.sequence (add_step s before)
  unfolding add_step
  add_step-Claimed s before own next =
      let table = (interfere before).steps in
      elim (Bool-cases (any (same_place s) table)) [
        | inl taken ↦
            let (t, m, same) = any-Elem (same_place s) table taken in
            let ids : s.execution_id ≡ t.execution_id = ground (arith, same) in
            let numbers : s.sequence ≡ t.sequence = ground (arith, same) in
            rw taken (
              inr (
                refl,
                (
                  t,
                  m,
                  sym ids ∙ own,
                  sym numbers,
                  λ old.
                      let below = next.0 t old (sym ids ∙ own) in
                      absurd (ground (arith, below, numbers)),
                ),
              ))
        | inr free ↦ rw free (inl (s, refl, Elem-last s table, own, refl))
      ]

  -- A claim of a step returns a new, stored step of the execution, whose number is next to those of the
  -- execution's steps: above all of them, and 1 or one more than one of them. Or it returns nothing,
  -- and then another writer has added a step of the execution with just this number in between.
  pub claim_step-Claimed :
      (n : ℕ) × IsNext id db.steps n × Claimed n (claim_step id step_type input db)
  unfolding claim_step ◌>>=◌
  claim_step-Claimed =
      let next = last_step-IsNext id db.steps in
      (last_step id db.steps + 1, next, add_step-Claimed _ _ refl next)
