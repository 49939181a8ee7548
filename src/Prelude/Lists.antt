-- ===== src/Prelude/Lists.antt =====
-- Lists measured by native numbers, searched and filtered by Boolean tests, and predicates on
-- their members.
use Prim.Native.Nat.{ℕ, suc}
use mathlib.Core.Path.{◌≡◌}
use mathlib.Core.Logic.{◌⊎◌, inl, inr}
use mathlib.Core.Bool.{Bool, true, false, ◌&&◌, ◌||◌}
use native.Mathlib.Omega.{arith}
use mathlib.Core.Option.{Option, none, some}
use mathlib.Core.List.{List, [], ◌∷◌}
use safeops.Prelude.Tests.{if◌then◌else◌, Bool-cases}

module _ {ℓ} {A : Type ℓ} where
  abbrev pub length : List A → ℕ
  length [] = 0
  length (x ∷ xs) = suc (length xs)

  -- `[x for x in xs if p x]`
  abbrev pub filter : (A → Bool) → List A → List A
  filter p [] = []
  filter p (x ∷ xs) = let rest = filter p xs in if p x then x ∷ rest else rest

  -- `next((x for x in xs if p x), None)`
  abbrev pub find : (A → Bool) → List A → Option A
  find p [] = none
  find p (x ∷ xs) = if p x then some x else find p xs

  abbrev pub any : (A → Bool) → List A → Bool
  any p [] = false
  any p (x ∷ xs) = p x || any p xs

  abbrev pub all : (A → Bool) → List A → Bool
  all p [] = true
  all p (x ∷ xs) = p x && all p xs

  -- A predicate of every member; it computes to a tuple.
  abbrev pub All {κ} : (A → Type κ) → List A → Type κ
  All P [] = Unit
  All P (x ∷ xs) = P x × All P xs

-- Membership with its position.
abbrev pub Elem : {A : Type 0} → A → List A → Type 0
Elem a [] = ⊥
Elem a (x ∷ xs) = (a ≡ x) ⊎ Elem a xs

pub Elem-filter :
    {A : Type 0} (p : A → Bool) (a : A) (xs : List A)
    → Elem a (filter p xs)
    → Elem a xs × (p a ≡ true)
Elem-filter p a [] h = absurd h
Elem-filter p a (x ∷ xs) h = elim (Bool-cases (p x)) [
  | inl kept ↦ elim (rw kept at h) [
    | inl e ↦ (inl e, rw e kept)
    | inr more ↦ (inr (Elem-filter p a xs more).0, (Elem-filter p a xs more).1)
  ]
  | inr dropped ↦ (let more = Elem-filter p a xs (rw dropped at h) in (inr more.0, more.1))
]

pub filter-Elem :
    {A : Type 0} (p : A → Bool) (a : A) (xs : List A)
    → Elem a xs
    → p a ≡ true
    → Elem a (filter p xs)
filter-Elem p a [] h t = absurd h
filter-Elem p a (x ∷ xs) (inl e) t = rw (rw e at t) (inl e)
filter-Elem p a (x ∷ xs) (inr m) t = elim (Bool-cases (p x)) [
  | inl kept ↦ rw kept (inr (filter-Elem p a xs m t))
  | inr dropped ↦ rw dropped (filter-Elem p a xs m t)
]

pub all-Elem :
    {A : Type 0} (p : A → Bool) (a : A) (xs : List A) → all p xs ≡ true → Elem a xs → p a ≡ true
all-Elem p a [] h m = absurd m
all-Elem p a (x ∷ xs) h (inl e) = rw e (ground arith)
all-Elem p a (x ∷ xs) h (inr m) = all-Elem p a xs (ground arith) m
