-- ===== src/Policy/Engine/Completeness.antt =====
-- The other direction: where no condition raises, the policy that the precedence rules single out
-- is the one that is followed.
use safeops.Prelude.{
  ◌≡◌, refl, sym, ◌∙◌, Bool, true, false, ◌≢◌, inl, inr, none, some, List, [], ◌∷◌, filter, Elem,
}
use safeops.Json.{Fields}
use safeops.Model.Uuid.{Uuid}
use safeops.Model.Enums.{PolicyAction}
use safeops.Policy.Conditions.{ok, evaluate_conditions}
use safeops.Model.Rows.{Policy, Agent, Tool}
use safeops.Policy.Engine.{
  PolicyEvaluationResult, add_match, collect, decide_top, top_of, least_key, chosen_result,
  resolve_rank, try_ranks, ranks, evaluate, evaluation_context, is_candidate,
}
use safeops.Policy.Engine.Rank.{collect-Holds, Holds-collect, least_key-Elem}
use safeops.Policy.Engine.Selection.{
  NoneHolds, IsBest, Decides, top_of-Elem, all_agree, top_of-some, Elem-not_empty,
}

empty_of : (ms : List Policy) → ((q : Policy) → ¬ Elem q ms) → ms ≡ []
empty_of [] h = refl
empty_of (x ∷ xs) h = absurd (h x (inl refl))

module _ (context : Fields) where
  -- The conditions of a policy evaluate without an error.
  abbrev pub IsClean : Policy → Type 0
  IsClean q = (b : Bool) × (evaluate_conditions q.conditions context ≡ ok b)

  abbrev pub AllClean : List (List Policy) → Type 0
  AllClean [] = Unit
  AllClean (rank ∷ later) = ((q : Policy) → Elem q rank → IsClean q) × AllClean later

  collect-clean :
      (ps : List Policy)
      → ((q : Policy) → Elem q ps → IsClean q)
      → (ms : List Policy) × (collect context ps ≡ ok ms)
  unfolding collect
  collect-clean [] h = ([], refl)
  collect-clean (p ∷ ps) h =
      let (ms, e) = collect-clean ps (λ q m. h q (inr m)) in
      let (b, eb) = h p (inl refl) in
      elim b
          as (λ b'.
            evaluate_conditions p.conditions context ≡ ok b'
            → (ms : List Policy) × (add_match p (evaluate_conditions p.conditions context)
                  (collect context ps)
                ≡ ok ms)) [ true ↦ λ e'. (p ∷ ms, rw (e', e)) | false ↦ λ e'. (ms, rw (e', e)) ]
        eb

  decide_top-agree :
      (a : PolicyAction) (ps : List Policy)
      → ps ≢ []
      → ((q : Policy) → Elem q ps → q.action ≡ a)
      → (r : PolicyEvaluationResult) × (decide_top ps context ≡ some r) × (r.decision ≡ a)
  unfolding decide_top
  decide_top-agree a [] n h = absurd (n refl)
  decide_top-agree a (x ∷ xs) n h = (
    chosen_result (least_key x xs) context,
    rw (all_agree x.action xs (λ q m. h q (inr m) ∙ sym (h x (inl refl)))),
    h (least_key x xs) (least_key-Elem x xs),
  )

  -- In a rank that raises nothing, the action of the best policy is the decision.
  resolve_rank-action :
      (rank ms : List Policy) (p : Policy)
      → collect context rank ≡ ok ms
      → IsBest context rank p
      → (r : PolicyEvaluationResult) × (resolve_rank rank context ≡ ok (some r))
        × (r.decision ≡ p.action)
  unfolding resolve_rank
  resolve_rank-action rank ms p collected (found, holds, best) =
      let in_ms = Holds-collect context rank ms p collected found holds in
      let (t, t_top) = top_of-some p ms in_ms in
      let below = λ (q : Policy) (m : Elem q (top_of ms)).
        (let (q_ms, above) = top_of-Elem ms q m in
          let (q_rank, q_holds) = collect-Holds context rank ms q collected q_ms in
          (best q q_rank q_holds).1 (above p in_ms)) in
      let (r, e, d) =
        decide_top-agree p.action (top_of ms) (Elem-not_empty t (top_of ms) t_top) below in
      (r, rw (collected, e), d)

  -- A rank in which nothing holds and nothing raises falls through.
  resolve_rank-through :
      (rank : List Policy)
      → ((q : Policy) → Elem q rank → IsClean q)
      → NoneHolds context rank
      → resolve_rank rank context ≡ ok none
  unfolding resolve_rank decide_top
  resolve_rank-through rank clean never =
      let (ms, collected) = collect-clean rank clean in
      rw (
        collected,
        empty_of ms (λ q m.
            let (found, holds) = collect-Holds context rank ms q collected m in
            never q found holds),
      )

  try_ranks-follows :
      (later : List (List Policy)) (p : Policy)
      → AllClean later
      → Decides context later p
      → (r : PolicyEvaluationResult) × (try_ranks later context ≡ ok r) × (r.decision ≡ p.action)
  unfolding try_ranks
  try_ranks-follows [] p clean d = absurd d
  try_ranks-follows ([] ∷ later) p clean (inl best) = absurd best.0
  try_ranks-follows ([] ∷ later) p clean (inr rest) = try_ranks-follows later p clean.1 rest.1
  try_ranks-follows ((x ∷ xs) ∷ later) p clean (inl best) =
      let (ms, collected) = collect-clean (x ∷ xs) clean.0 in
      let (r, e, d) = resolve_rank-action (x ∷ xs) ms p collected best in (r, rw e, d)
  try_ranks-follows ((x ∷ xs) ∷ later) p clean (inr rest) =
      let (r, e, d) = try_ranks-follows later p clean.1 rest.1 in
      (r, rw (resolve_rank-through (x ∷ xs) clean.0 rest.0, e), d)

-- Where no condition of the ranks raises an error, the call returns the action of the policy that
-- the precedence rules single out.
pub evaluate-follows :
    (agent : Agent) (tool : Tool) (arguments : Fields) (execution_id : Uuid)
    (policies : List Policy) (p : Policy)
    → AllClean
        (evaluation_context agent tool execution_id arguments)
        (ranks agent (filter (is_candidate tool) policies))
    → Decides
        (evaluation_context agent tool execution_id arguments)
        (ranks agent (filter (is_candidate tool) policies))
        p
    → (r : PolicyEvaluationResult) × (evaluate agent tool arguments execution_id policies ≡ ok r)
      × (r.decision ≡ p.action)
unfolding evaluate
evaluate-follows agent tool arguments execution_id policies p clean d =
    try_ranks-follows (evaluation_context agent tool execution_id arguments)
      (ranks agent (filter (is_candidate tool) policies)) p clean d
