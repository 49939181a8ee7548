-- ===== src/Policy/Engine/Precedence.antt =====
-- `evaluate` as a whole: it implements the precedence rules, in both directions, and fails closed.
use safeops.Prelude.{
  ℕ, ◌≤◌, String, ◌≡◌, refl, ap, ◌≢◌, ◌↔◌, ◌⊎◌, inl, inr, Bool, true, Option, none, some, List, [],
  ◌∷◌, ==_iff, eq_iff, arith, filter, Elem, Elem-filter, filter-Elem,
}
use safeops.Json.{Fields}
use safeops.Model.Uuid.{Uuid}
use safeops.Model.Enums.{PolicyAction}
use safeops.Policy.Conditions.{Result, ok, raised}
use safeops.Model.Rows.{Policy, Agent, Tool}
use safeops.Policy.Engine.{
  PolicyEvaluationResult, resolve_rank, or_next, try_ranks, ranks, evaluate, evaluation_context,
  is_candidate, is_id, is_text, is_none, in_rank1, in_rank2, in_rank3,
}
use safeops.Prelude.Int.{◌≤ℤ◌}
use safeops.Policy.Engine.Rank.{Holds}
use safeops.Policy.Engine.Selection.{
  Decides, IsBest, NoneHolds, Names, resolve_rank-IsBest, resolve_rank-NoneHolds,
}

or_next-ok :
    (o : Result (Option PolicyEvaluationResult)) (rest : Result PolicyEvaluationResult)
    (r : PolicyEvaluationResult)
    → or_next o rest ≡ ok r
    → ((o ≡ ok none) × (rest ≡ ok r)) ⊎ (o ≡ ok (some r))
or_next-ok (raised e) rest r h = cc
or_next-ok (ok none) rest r h = inl (refl, h)
or_next-ok (ok (some s)) rest r h = inr (cc)

try_ranks-Decides :
    (context : Fields) (later : List (List Policy)) (r : PolicyEvaluationResult)
    → try_ranks later context ≡ ok r
    → r.decision ≢ PolicyAction.block
    → (p : Policy) × Decides context later p × Names r p
unfolding try_ranks
try_ranks-Decides context [] r h n = absurd (n (ground arith))
try_ranks-Decides context ([] ∷ later) r h n =
    let (p, d, named) = try_ranks-Decides context later r h n in
    (p, inr (λ q m. absurd m, d), named)
try_ranks-Decides context ((x ∷ xs) ∷ later) r h n =
    elim (or_next-ok (resolve_rank (x ∷ xs) context) (try_ranks later context) r h) [
      | inl (through, rest) ↦
          (let (p, d, named) = try_ranks-Decides context later r rest n in
            (p, inr (resolve_rank-NoneHolds context (x ∷ xs) through, d), named))
      | inr decided ↦
          (let (p, best, named) = resolve_rank-IsBest context (x ∷ xs) r decided n in
            (p, inl best, named))
    ]

-- Whom a policy is for: one agent, a type of agents, or everybody.
pub data Scope : Type 0 where
  one_agent agent_type everybody : Scope

abbrev pub breadth : Scope → ℕ
breadth one_agent = 1
breadth agent_type = 2
breadth everybody = 3

abbrev pub InScope : Agent → Scope → Policy → Type 0
InScope agent one_agent p = p.agent_id ≡ some agent.id
InScope agent agent_type p = (p.agent_id ≡ none) × (p.agent_type ≡ some agent.kind)
InScope agent everybody p = (p.agent_id ≡ none) × (p.agent_type ≡ none)

-- An enabled policy of the table that is for this tool and, in this scope, for this agent, and whose
-- conditions hold.
pub record Applies (agent : Agent) (tool : Tool) (context : Fields) (policies : List Policy)
    (s : Scope) (p : Policy) : Type 0 where
  pub stored : Elem p policies
  pub enabled : p.enabled ≡ true
  pub for_tool : p.tool_id ≡ some tool.id
  pub in_scope : InScope agent s p
  pub holds : Holds context p

is_id_iff : (id : Uuid) (o : Option Uuid) → (is_id id o ≡ true) ↔ (o ≡ some id)
is_id_iff id none = (λ h. cc, λ h. cc)
is_id_iff id (some other) = (λ h. ap some ((==_iff other id).0 h), λ h. (==_iff other id).1 (cc))

is_text_iff : (t : String) (o : Option String) → (is_text t o ≡ true) ↔ (o ≡ some t)
is_text_iff t none = (λ h. cc, λ h. cc)
is_text_iff t (some other) = (λ h. ap some ((eq_iff other t).0 h), λ h. (eq_iff other t).1 (cc))

is_none_iff : {A : Type 0} (o : Option A) → (is_none o ≡ true) ↔ (o ≡ none)
is_none_iff none = (λ h. refl, λ h. refl)
is_none_iff (some a) = (λ h. cc, λ h. cc)

-- The code's test for a rank.
abbrev in_rank : Agent → Scope → Policy → Bool
in_rank agent one_agent = in_rank1 agent
in_rank agent agent_type = in_rank2 agent
in_rank agent everybody = in_rank3

in_rank_iff :
    (agent : Agent) (s : Scope) (p : Policy) → (in_rank agent s p ≡ true) ↔ InScope agent s p
in_rank_iff agent one_agent p = is_id_iff agent.id p.agent_id
in_rank_iff agent agent_type p =
    ground (arith, is_none_iff p.agent_id, is_text_iff agent.kind p.agent_type)
in_rank_iff agent everybody p = ground (arith, is_none_iff p.agent_id, is_none_iff p.agent_type)

module _ (agent : Agent) (tool : Tool) (context : Fields) (policies : List Policy) where
  abbrev rank_of : Scope → List Policy
  rank_of s = filter (in_rank agent s) (filter (is_candidate tool) policies)

  rank_of-Applies :
      (s : Scope) (p : Policy)
      → Elem p (rank_of s)
      → Holds context p
      → Applies agent tool context policies s p
  rank_of-Applies s p m h =
      let (found, ranked) =
        Elem-filter (in_rank agent s) p (filter (is_candidate tool) policies) m in
      let (there, fit) = Elem-filter (is_candidate tool) p policies found in
      record {
        stored = there;
        enabled = ground (arith, fit);
        for_tool = (is_id_iff tool.id p.tool_id).0 (ground (arith, fit));
        in_scope = (in_rank_iff agent s p).0 ranked;
        holds = h;
      }

  Applies-rank_of :
      (s : Scope) (p : Policy) → Applies agent tool context policies s p → Elem p (rank_of s)
  Applies-rank_of s p a =
      let for_tool : is_id tool.id p.tool_id ≡ true = (is_id_iff tool.id p.tool_id).1 a.for_tool in
      filter-Elem (in_rank agent s) p (filter (is_candidate tool) policies)
        (filter-Elem (is_candidate tool) p policies a.stored (rw (for_tool, a.enabled) refl))
        ((in_rank_iff agent s p).1 a.in_scope)

  -- The policy of the narrowest scope that applies, and of the top priority in it; where others of
  -- that scope and priority apply too, they have the same action.
  abbrev pub Prevails : Scope → Policy → Type 0
  Prevails s p =
      Applies agent tool context policies s p
      × ((t : Scope) (q : Policy) → Applies agent tool context policies t q → breadth s ≤ breadth t)
      × ((q : Policy)
          → Applies agent tool context policies s q
          → (q.priority ≤ℤ p.priority) × (p.priority ≤ℤ q.priority → q.action ≡ p.action))

  IsBest-Prevails :
      (s : Scope) (p : Policy)
      → IsBest context (rank_of s) p
      → ((t : Scope) (q : Policy) → Applies agent tool context policies t q → breadth s ≤ breadth t)
      → Prevails s p
  IsBest-Prevails s p (found, holds, best) narrow =
      (rank_of-Applies s p found holds, narrow, λ q a. best q (Applies-rank_of s q a) a.holds)

  passed :
      (s : Scope) (q : Policy)
      → NoneHolds context (rank_of s)
      → ¬ Applies agent tool context policies s q
  passed s q never a = never q (Applies-rank_of s q a) a.holds

  Decides-Prevails :
      (p : Policy)
      → Decides context (ranks agent (filter (is_candidate tool) policies)) p
      → (s : Scope) × Prevails s p
  Decides-Prevails p (inl best) = (one_agent, IsBest-Prevails one_agent p best narrow)
    where
      narrow : (t : Scope) (q : Policy) → Applies agent tool context policies t q → 1 ≤ breadth t
      narrow one_agent q a = ground arith
      narrow agent_type q a = ground arith
      narrow everybody q a = ground arith
  Decides-Prevails p (inr (never, inl best)) =
      (agent_type, IsBest-Prevails agent_type p best narrow)
    where
      narrow : (t : Scope) (q : Policy) → Applies agent tool context policies t q → 2 ≤ breadth t
      narrow one_agent q a = absurd (passed one_agent q never a)
      narrow agent_type q a = ground arith
      narrow everybody q a = ground arith
  Decides-Prevails p (inr (never, inr (never', inl best))) =
      (everybody, IsBest-Prevails everybody p best narrow)
    where
      narrow : (t : Scope) (q : Policy) → Applies agent tool context policies t q → 3 ≤ breadth t
      narrow one_agent q a = absurd (passed one_agent q never a)
      narrow agent_type q a = absurd (passed agent_type q never' a)
      narrow everybody q a = ground arith
  Decides-Prevails p (inr (never, inr (never', inr (never'', d)))) = absurd d

-- A decision other than BLOCK is that of a policy which prevails, and the result names that policy. It
-- is enabled, is for this tool, and its conditions hold; no such policy is for the agent in a narrower
-- scope (this agent, its type, everybody); and in its own scope none has a higher priority, and none
-- of the same priority another action.
pub evaluate-Prevails :
    (agent : Agent) (tool : Tool) (arguments : Fields) (execution_id : Uuid)
    (policies : List Policy) (r : PolicyEvaluationResult)
    → evaluate agent tool arguments execution_id policies ≡ ok r
    → r.decision ≢ PolicyAction.block
    → (p : Policy) × (s : Scope) × Prevails agent tool
        (evaluation_context agent tool execution_id arguments)
        policies
        s
        p
      × Names r p
unfolding evaluate
evaluate-Prevails agent tool arguments execution_id policies r h n =
    let context = evaluation_context agent tool execution_id arguments in
    let (p, d, named) =
      try_ranks-Decides context (ranks agent (filter (is_candidate tool) policies)) r h n in
    let (s, prevails) = Decides-Prevails agent tool context policies p d in (p, s, prevails, named)
