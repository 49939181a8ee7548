-- ===== src/Policy/Engine/Rank.antt =====
-- The loops inside one rank: which policies `collect` keeps, and what the scans over them return.
use Prim.Native.Nat.{Ordering}
use Prim.Native.String.{compare}
use safeops.Prelude.{
  ◌≡◌, refl, ◌∙◌, Bool, true, false, ◌⊎◌, inl, inr, List, [], ◌∷◌, arith, if◌then◌else◌, Elem,
}
use safeops.Prelude.Int.{ℤ, ◌≤ℤ◌, leb_ℤ}
use safeops.Json.{Fields}
use safeops.Policy.Conditions.{Result, ok, raised, evaluate_conditions}
use safeops.Model.Rows.{Policy}
use safeops.Policy.Engine.{add_match, collect, top_priority, lesser_key, least_key}

abbrev pub Holds : Fields → Policy → Type 0
Holds context p = evaluate_conditions p.conditions context ≡ ok true

-- What a successful round says of the policy and of the rest.
add_match-ok :
    (p : Policy) (r : Result Bool) (rest : Result (List Policy)) (ms : List Policy)
    → add_match p r rest ≡ ok ms
    → ((r ≡ ok false) × (rest ≡ ok ms))
      ⊎ ((matched : List Policy) × (r ≡ ok true) × (rest ≡ ok matched) × (ms ≡ p ∷ matched))
add_match-ok p (raised e) rest ms h = cc
add_match-ok p (ok false) rest ms h = inl (refl, h)
add_match-ok p (ok true) (raised e) ms h = cc
add_match-ok p (ok true) (ok matched) ms h = inr (matched, refl, refl, cc)

module _ (context : Fields) where
  pub collect-Holds :
      (ps ms : List Policy) (p : Policy)
      → collect context ps ≡ ok ms
      → Elem p ms
      → Elem p ps × Holds context p
  unfolding collect
  collect-Holds [] [] p h m = absurd m
  collect-Holds [] (x ∷ xs) p h m = cc
  collect-Holds (q ∷ qs) ms p h m =
      elim (add_match-ok q (evaluate_conditions q.conditions context) (collect context qs) ms h) [
        | inl (no_match, rest) ↦
            (let (found, holds) = collect-Holds qs ms p rest m in (inr found, holds))
        | inr (matched, holds_q, rest, e) ↦ elim (rw e at m) [
          | inl same ↦ (inl same, rw same holds_q)
          | inr more ↦
              (let (found, holds) = collect-Holds qs matched p rest more in (inr found, holds))
        ]
      ]

  pub Holds-collect :
      (ps ms : List Policy) (p : Policy)
      → collect context ps ≡ ok ms
      → Elem p ps
      → Holds context p
      → Elem p ms
  unfolding collect
  Holds-collect [] ms p h m t = absurd m
  Holds-collect (q ∷ qs) ms p h m t =
      elim (add_match-ok q (evaluate_conditions q.conditions context) (collect context qs) ms h) [
        | inl (no_match, rest) ↦ elim m [
          | inl same ↦ absurd (cc (rw same at t))
          | inr more ↦ Holds-collect qs ms p rest more t
        ]
        | inr (matched, holds_q, rest, e) ↦ rw e (elim m [
          | inl same ↦ inl same
          | inr more ↦ inr (Holds-collect qs matched p rest more t)
        ])
      ]

pub le-top_priority : (best : ℤ) (ps : List Policy) → (best ≤ℤ top_priority best ps)
unfolding top_priority
le-top_priority best [] = omega arith
le-top_priority best (p ∷ ps) =
    ground (arith, le-top_priority (if leb_ℤ best p.priority then p.priority else best) ps)

pub Elem-le-top_priority :
    (best : ℤ) (ps : List Policy) (q : Policy) → Elem q ps → q.priority ≤ℤ top_priority best ps
unfolding top_priority
Elem-le-top_priority best [] q m = absurd m
Elem-le-top_priority best (p ∷ ps) q (inl e) =
    rw e (ground (arith, le-top_priority (if leb_ℤ best p.priority then p.priority else best) ps))
Elem-le-top_priority best (p ∷ ps) q (inr m) =
    Elem-le-top_priority (if leb_ℤ best p.priority then p.priority else best) ps q m

lesser_key-cases :
    (o : Ordering) (p best : Policy) → (lesser_key o p best ≡ p) ⊎ (lesser_key o p best ≡ best)
lesser_key-cases Ordering.lt p best = inl refl
lesser_key-cases o p best = inr refl

pub least_key-Elem : (best : Policy) (ps : List Policy) → Elem (least_key best ps) (best ∷ ps)
unfolding least_key
least_key-Elem best [] = inl refl
least_key-Elem best (p ∷ ps) =
    let winner = lesser_key (compare p.policy_key best.policy_key) p best in
    elim (least_key-Elem winner ps) [
      | inl e ↦ elim (lesser_key-cases (compare p.policy_key best.policy_key) p best) [
        | inl first ↦ inr (inl (e ∙ first))
        | inr second ↦ inl (e ∙ second)
      ]
      | inr m ↦ inr (inr m)
    ]
