-- ===== src/Runtime/Bound.antt =====
-- MAX_EXECUTION_STEPS: at the bound, neither the planner nor a tool is asked any more.
use safeops.Prelude.{
  ℕ, suc, ◌≡◌, ◌≤◌, refl, ap, ◌∙◌, inl, inr, List, [], ◌∷◌, ◌++◌, ◌==◌, length, leb, if◌then◌else◌,
  arith, Bool-cases,
}
use safeops.Model.Uuid.{Uuid}
use safeops.Model.Rows.{ExecutionStep}
use safeops.Audit.Tables.{places}
use safeops.Runtime.Steps.{insert_step, by_sequence, steps_of, load_history}

-- How many steps an execution has, by their places.
abbrev pub count_of : Uuid → List (Uuid × ℕ) → ℕ
count_of id [] = 0
count_of id (p ∷ ps) = let rest = count_of id ps in if p.0 == id then suc rest else rest

length-insert_step :
    (s : ExecutionStep) (ss : List ExecutionStep) → length (insert_step s ss) ≡ suc (length ss)
length-insert_step s [] = refl
length-insert_step s (t ∷ ts) = elim (Bool-cases (leb s.sequence t.sequence)) [
  | inl first ↦ rw first refl
  | inr later ↦ rw (later, length-insert_step s ts) refl
]

length-by_sequence : (ss : List ExecutionStep) → length (by_sequence ss) ≡ length ss
unfolding by_sequence
length-by_sequence [] = refl
length-by_sequence (s ∷ ss) = length-insert_step s (by_sequence ss) ∙ ap suc (length-by_sequence ss)

length-steps_of :
    (id : Uuid) (ss : List ExecutionStep) → length (steps_of id ss) ≡ count_of id (places ss)
unfolding steps_of
length-steps_of id [] = refl
length-steps_of id (s ∷ ss) = elim (Bool-cases (s.execution_id == id)) [
  | inl own ↦ rw own (ap suc (length-steps_of id ss))
  | inr other ↦ rw other (length-steps_of id ss)
]

-- The history has as many steps as the execution.
pub length-load_history :
    (id : Uuid) (ss : List ExecutionStep) → length (load_history id ss) ≡ count_of id (places ss)
unfolding load_history
length-load_history id ss = length-by_sequence (steps_of id ss) ∙ length-steps_of id ss

pub count_of-snoc :
    (id : Uuid) (s : ExecutionStep) (ss : List ExecutionStep)
    → count_of id (places ss) ≤ count_of id (places (ss ++ s ∷ []))
count_of-snoc id s [] = ground arith
count_of-snoc id s (t ∷ ts) = ground (arith, count_of-snoc id s ts)
