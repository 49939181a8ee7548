-- ===== src/Policy/Engine.antt =====
-- apps/api/app/services/policy_engine.py: which policy decides a call.
--
-- The rows of the policies table come as a list, in the order in which the query returns them.
-- The columns that no decision reads (name, description, time stamps) are left out.
pub mod Rank
pub mod Selection
pub mod Precedence
pub mod Completeness
use Prim.Native.Nat.{Ordering}
use Prim.Native.String.{compare}
use safeops.Prelude.{
  String, Bool, true, false, not, ◌&&◌, Option, none, some, List, [], ◌∷◌, ◌==◌, str_eq,
  append_text, if◌then◌else◌, filter, all,
}
use safeops.Prelude.Int.{ℤ, leb_ℤ, eqb_ℤ}
use safeops.Json.{Json, Fields, str, obj, end, field}
use safeops.Model.Uuid.{Uuid, uuid_text}
use safeops.Model.Rows.{Policy, Agent, Tool}
use safeops.Model.Enums.{PolicyAction, same_action}
use safeops.Policy.Conditions.{
  Result, ok, raised, policy_condition, type_error, evaluate_conditions,
}

pub record PolicyEvaluationResult : Type 0 where
  pub decision : PolicyAction
  pub reason : String
  pub matched_policy : Option String
  pub policy_id : Option Uuid
  pub context : Fields

abbrev pub evaluation_context : Agent → Tool → Uuid → Fields → Fields
evaluation_context agent tool execution_id arguments = field "arguments" (obj arguments) (
    field "agent"
      (obj (
        field "id" (str (uuid_text agent.id))
          (field "type" (str agent.kind) (field "name" (str agent.name) end))))
      (field "tool" (obj (field "id" (str (uuid_text tool.id)) (field "name" (str tool.name) end)))
        (field "execution" (obj (field "id" (str (uuid_text execution_id)) end)) end)))

abbrev pub blocked_because : String → Fields → PolicyEvaluationResult
blocked_because reason context = record {
  decision = PolicyAction.block;
  reason = reason;
  matched_policy = none;
  policy_id = none;
  context = context;
}

-- One round of the loop over a rank: a false condition drops the policy, and the first error ends
-- the loop.
abbrev pub add_match : Policy → Result Bool → Result (List Policy) → Result (List Policy)
add_match p (raised e) rest = raised e
add_match p (ok false) rest = rest
add_match p (ok true) (raised e) = raised e
add_match p (ok true) (ok matched) = ok (p ∷ matched)

-- The loop over a rank: the policies whose conditions hold, or the first error.
pub collect : Fields → List Policy → Result (List Policy)
collect context [] = ok []
collect context (p ∷ ps) =
    add_match p (evaluate_conditions p.conditions context) (collect context ps)

-- `max(p.priority for p in matched)` of a non-empty list.
pub top_priority : ℤ → List Policy → ℤ
top_priority best [] = best
top_priority best (p ∷ ps) = top_priority (if leb_ℤ best p.priority then p.priority else best) ps

abbrev pub lesser_key : Ordering → Policy → Policy → Policy
lesser_key Ordering.lt p best = p
lesser_key _ p best = best

-- `sorted(top, key=lambda p: p.policy_key)[0]`: the first of the least keys.
pub least_key : Policy → List Policy → Policy
least_key best [] = best
least_key best (p ∷ ps) = least_key (lesser_key (compare p.policy_key best.policy_key) p best) ps

abbrev pub chosen_result : Policy → Fields → PolicyEvaluationResult
chosen_result chosen context = record {
  decision = chosen.action;
  reason = append_text "Matched policy '" (append_text chosen.policy_key "'");
  matched_policy = some chosen.policy_key;
  policy_id = some chosen.id;
  context = context;
}

-- The candidates of top priority: one action among them, or a conflict.
pub decide_top : List Policy → Fields → Option PolicyEvaluationResult
unfolding least_key
decide_top [] context = none
decide_top (p ∷ ps) context =
    if not (all (λ q. same_action q.action p.action) ps)
    then some (
        blocked_because
          "POLICY_CONFLICT: multiple policies matched with equal priority and differing actions"
          context)
    else some (chosen_result (least_key p ps) context)

abbrev pub top_of : List Policy → List Policy
top_of [] = []
top_of (p ∷ ps) = filter (λ q. eqb_ℤ q.priority (top_priority p.priority ps)) (p ∷ ps)

-- What `_resolve_rank` returns once the loop has ended.
abbrev pub settle : Result (List Policy) → Fields → Result (Option PolicyEvaluationResult)
settle (raised policy_condition) context =
    ok (some (blocked_because "POLICY_EVALUATION_ERROR: invalid policy condition" context))
settle (raised type_error) context = raised type_error
settle (ok matched) context = ok (decide_top (top_of matched) context)

-- `_resolve_rank`: `none` falls through to the next rank. A TypeError is not caught here.
pub resolve_rank : List Policy → Fields → Result (Option PolicyEvaluationResult)
unfolding collect top_priority decide_top
resolve_rank policies context = settle (collect context policies) context

-- A rank that returns `None` falls through to what the later ranks return.
abbrev pub or_next :
    Result (Option PolicyEvaluationResult)
    → Result PolicyEvaluationResult
    → Result PolicyEvaluationResult
or_next (raised e) rest = raised e
or_next (ok none) rest = rest
or_next (ok (some r)) rest = ok r

-- The `for rank in (rank1, rank2, rank3)` loop. A rank without policies is skipped.
pub try_ranks : List (List Policy) → Fields → Result PolicyEvaluationResult
unfolding resolve_rank
try_ranks [] context =
    ok (blocked_because "NO_MATCHING_POLICY: no policy is configured for this agent/tool" context)
try_ranks ([] ∷ later) context = try_ranks later context
try_ranks ((p ∷ ps) ∷ later) context =
    or_next (resolve_rank (p ∷ ps) context) (try_ranks later context)

abbrev pub is_id : Uuid → Option Uuid → Bool
is_id id none = false
is_id id (some other) = other == id

abbrev pub is_text : String → Option String → Bool
is_text s none = false
is_text s (some other) = str_eq other s

abbrev pub is_none {ℓ} : {A : Type ℓ} → Option A → Bool
is_none none = true
is_none (some a) = false

abbrev pub is_candidate : Tool → Policy → Bool
is_candidate tool p = is_id tool.id p.tool_id && p.enabled

abbrev pub in_rank1 : Agent → Policy → Bool
in_rank1 agent p = is_id agent.id p.agent_id

abbrev pub in_rank2 : Agent → Policy → Bool
in_rank2 agent p = is_none p.agent_id && is_text agent.kind p.agent_type

abbrev pub in_rank3 : Policy → Bool
in_rank3 p = is_none p.agent_id && is_none p.agent_type

abbrev pub ranks : Agent → List Policy → List (List Policy)
ranks agent candidates =
    filter (in_rank1 agent) candidates
    ∷ filter (in_rank2 agent) candidates
    ∷ filter in_rank3 candidates
    ∷ []

unfoldable pub evaluate : Agent → Tool → Fields → Uuid → List Policy → Result PolicyEvaluationResult
unfolding try_ranks
evaluate agent tool arguments execution_id policies =
    try_ranks (ranks agent (filter (is_candidate tool) policies))
      (evaluation_context agent tool execution_id arguments)
