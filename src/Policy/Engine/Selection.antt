-- ===== src/Policy/Engine/Selection.antt =====
-- What `evaluate` decides, against an independent description of the precedence rules: the first
-- rank with a policy that holds is decisive, and in it the top priority.
use safeops.Prelude.{
  ◌≡◌, refl, sym, ◌∙◌, true, ◌≢◌, ◌⊎◌, inl, inr, Option, none, some, List, [], ◌∷◌, arith, all,
  Bool-cases, Elem, Elem-filter, filter-Elem, all-Elem,
}
use safeops.Prelude.Int.{◌≤ℤ◌, leb_ℤ, eqb_ℤ}
use safeops.Json.{Fields}
use safeops.Model.Enums.{PolicyAction, same_action, same_action→eq}
use safeops.Policy.Conditions.{Result, ok, raised, policy_condition, type_error}
use safeops.Model.Rows.{Policy}
use safeops.Policy.Engine.{
  PolicyEvaluationResult, collect, top_priority, least_key, decide_top, top_of, chosen_result,
  blocked_because, resolve_rank, ranks,
}
use safeops.Policy.Engine.Rank.{
  Holds, collect-Holds, Holds-collect, Elem-le-top_priority, least_key-Elem, le-top_priority,
}

same_action_self : (a : PolicyAction) → same_action a a ≡ true
same_action_self PolicyAction.allow = refl
same_action_self PolicyAction.require_approval = refl
same_action_self PolicyAction.block = refl

-- The result names `p` as its reason.
abbrev pub Names : PolicyEvaluationResult → Policy → Type 0
Names r p =
    (r.decision ≡ p.action) × (r.matched_policy ≡ some p.policy_key) × (r.policy_id ≡ some p.id)

module _ (context : Fields) where
  -- No policy of a rank holds.
  abbrev pub NoneHolds : List Policy → Type 0
  NoneHolds rank = (q : Policy) → Elem q rank → ¬ Holds context q

  -- `p` holds, no policy that holds has a higher priority, and one of its own priority has its
  -- action.
  abbrev pub IsBest : List Policy → Policy → Type 0
  IsBest rank p =
      Elem p rank
      × Holds context p
      × ((q : Policy)
          → Elem q rank
          → Holds context q
          → (q.priority ≤ℤ p.priority) × (p.priority ≤ℤ q.priority → q.action ≡ p.action))

  -- `p` is the best of the first rank in which a policy holds.
  abbrev pub Decides : List (List Policy) → Policy → Type 0
  Decides [] p = ⊥
  Decides (rank ∷ ranks) p = IsBest rank p ⊎ (NoneHolds rank × Decides ranks p)

-- Once the test for a conflict has passed, all the candidates have the first one's action.
pub agreed_action :
    (p : Policy) (ps : List Policy)
    → all (λ q. same_action q.action p.action) ps ≡ true
    → (q : Policy) → Elem q (p ∷ ps)
    → q.action ≡ p.action
agreed_action p ps agree q (inl e) = rw e
agreed_action p ps agree q (inr m) =
    same_action→eq q.action p.action (all-Elem (λ q. same_action q.action p.action) q ps agree m)

pub all_agree :
    (a : PolicyAction) (ps : List Policy)
    → ((q : Policy) → Elem q ps → q.action ≡ a)
    → all (λ q. same_action q.action a) ps ≡ true
all_agree a [] h = refl
all_agree a (p ∷ ps) h =
    rw (h p (inl refl), all_agree a ps (λ q m. h q (inr m)), same_action_self a)

Elem-bound :
    (x : Policy) (xs : List Policy) (q : Policy)
    → Elem q (x ∷ xs)
    → q.priority ≤ℤ top_priority x.priority xs
Elem-bound x xs q (inl e) = rw e (le-top_priority x.priority xs)
Elem-bound x xs q (inr k) = Elem-le-top_priority x.priority xs q k

module _ (context : Fields) where
  decide_top-some :
      (ps : List Policy) (r : PolicyEvaluationResult)
      → decide_top ps context ≡ some r
      → r.decision ≢ PolicyAction.block
      → (p : Policy) × Elem p ps × Names r p × ((q : Policy) → Elem q ps → q.action ≡ p.action)
  unfolding decide_top
  decide_top-some [] r h n = cc
  decide_top-some (p ∷ ps) r h n = elim (Bool-cases (all (λ q. same_action q.action p.action) ps)) [
    | inr conflict ↦ absurd (n (ground arith))
    | inl agree ↦
        (let least = least_key p ps in
          let e : chosen_result least context ≡ r = cc (rw agree at h) in
          let found = least_key-Elem p ps in
          (
            least,
            found,
            rw (← e) (refl, refl, refl),
            λ q m. agreed_action p ps agree q m ∙ sym (agreed_action p ps agree least found),
          ))
  ]

-- The candidates of top priority are those that hold and are not outranked.
pub top_of-Elem :
    (ms : List Policy) (p : Policy)
    → Elem p (top_of ms)
    → Elem p ms × ((q : Policy) → Elem q ms → q.priority ≤ℤ p.priority)
top_of-Elem [] p m = absurd m
top_of-Elem (x ∷ xs) p m =
    let top = top_priority x.priority xs in
    let (found, at_top) = Elem-filter (λ q. eqb_ℤ q.priority top) p (x ∷ xs) m in
    (found, λ q mq. ground (arith, Elem-bound x xs q mq))

pub Elem-top_of :
    (ms : List Policy) (p q : Policy)
    → Elem p (top_of ms)
    → Elem q ms
    → p.priority ≤ℤ q.priority
    → Elem q (top_of ms)
Elem-top_of [] p q m k h = absurd m
Elem-top_of (x ∷ xs) p q m k h =
    filter-Elem (λ q. eqb_ℤ q.priority (top_priority x.priority xs)) q (x ∷ xs) k
      (ground (
        arith,
        (top_of-Elem (x ∷ xs) p m).1 q k,
        (Elem-filter (λ q. eqb_ℤ q.priority (top_priority x.priority xs)) p (x ∷ xs) m).1,
        Elem-bound x xs q k,
      ))

pub Elem-not_empty : (p : Policy) (ms : List Policy) → Elem p ms → ms ≢ []
Elem-not_empty p [] m e = m
Elem-not_empty p (x ∷ xs) m e = cc

-- Some policy has the top priority.
top_priority-attained :
    (x : Policy) (xs : List Policy)
    → (q : Policy) × Elem q (x ∷ xs) × (eqb_ℤ q.priority (top_priority x.priority xs) ≡ true)
unfolding top_priority
top_priority-attained x [] = (x, inl refl, ground arith)
top_priority-attained x (y ∷ ys) = elim (Bool-cases (leb_ℤ x.priority y.priority)) [
  | inl up ↦ (let (q, m, e) = top_priority-attained y ys in (q, inr m, rw up e))
  | inr down ↦
      (let (q, m, e) = top_priority-attained x ys in
        (q, elim m [ inl same ↦ inl same | inr more ↦ inr (inr more) ], rw down e))
]

pub top_of-some : (p : Policy) (ms : List Policy) → Elem p ms → (q : Policy) × Elem q (top_of ms)
top_of-some p [] m = absurd m
top_of-some p (x ∷ xs) m =
    let (q, found, e) = top_priority-attained x xs in
    (q, filter-Elem (λ q. eqb_ℤ q.priority (top_priority x.priority xs)) q (x ∷ xs) found e)

decide_top-none : (context : Fields) (ps : List Policy) → decide_top ps context ≡ none → ps ≡ []
unfolding decide_top
decide_top-none context [] h = refl
decide_top-none context (p ∷ ps) h = ground arith

module _ (context : Fields) where
  -- What `resolve_rank` returns, by what `collect` returned.
  pub resolve_rank-ok :
      (rank : List Policy) (o : Option PolicyEvaluationResult)
      → resolve_rank rank context ≡ ok o
      → ((ms : List Policy) × (collect context rank ≡ ok ms) × (decide_top (top_of ms) context ≡ o))
        ⊎ ((r : PolicyEvaluationResult) × (o ≡ some r) × (r.decision ≡ PolicyAction.block))
  unfolding resolve_rank
  resolve_rank-ok rank o h = go (collect context rank) refl
    where
      go :
          (c : Result (List Policy))
          → collect context rank ≡ c
          → ((ms : List Policy) × (collect context rank ≡ ok ms)
              × (decide_top (top_of ms) context ≡ o))
            ⊎ ((r : PolicyEvaluationResult) × (o ≡ some r) × (r.decision ≡ PolicyAction.block))
      go (raised policy_condition) e = inr (
        blocked_because "POLICY_EVALUATION_ERROR: invalid policy condition" context,
        ground arith,
        refl,
      )
      go (raised type_error) e = absurd (ground arith)
      go (ok ms) e = inl (ms, e, ground arith)

  pub resolve_rank-IsBest :
      (rank : List Policy) (r : PolicyEvaluationResult)
      → resolve_rank rank context ≡ ok (some r)
      → r.decision ≢ PolicyAction.block
      → (p : Policy) × IsBest context rank p × Names r p
  resolve_rank-IsBest rank r h n = elim (resolve_rank-ok rank (some r) h) [
    | inr (s, e, blocked) ↦ absurd (n (ground arith))
    | inl (ms, collected, decided) ↦
        (let (p, in_top, named, agree) = decide_top-some context (top_of ms) r decided n in
          let (in_ms, top) = top_of-Elem ms p in_top in
          let (in_rank, holds) = collect-Holds context rank ms p collected in_ms in
          (
            p,
            (
              in_rank,
              holds,
              λ q mq hq.
                  let kq = Holds-collect context rank ms q collected mq hq in
                  (top q kq, λ le. agree q (Elem-top_of ms p q in_top kq le)),
            ),
            named,
          ))
  ]

  pub resolve_rank-NoneHolds :
      (rank : List Policy) → resolve_rank rank context ≡ ok none → NoneHolds context rank
  resolve_rank-NoneHolds rank h q m t = elim (resolve_rank-ok rank none h) [
    | inr (s, e, blocked) ↦ cc
    | inl (ms, collected, decided) ↦
        let (p, in_top) = top_of-some q ms (Holds-collect context rank ms q collected m t) in
        Elem-not_empty p (top_of ms) in_top (decide_top-none context (top_of ms) decided)
  ]
