-- ===== src/Tests/Policies.antt =====
-- The policy engine on a refund of 40: the policy of the agent's type goes before the global one,
-- whatever their priorities.
use safeops.Prelude.{◌≡◌, refl, ◌≢◌, ◌↔◌, inl, inr, Bool, true, false, not, ◌&&◌, arith, filter}
use safeops.Json.{Json, Items, Fields, str, num, nil, cons, end, field, get, count_fields}
use safeops.Json.Decimal.{of_ℕ, Decimal, decimal_le, parse}
use safeops.Model.Enums.{PolicyAction}
use safeops.Model.Rows.{Policy}
use safeops.Policy.Conditions.{
  ok, evaluate_conditions, evaluate_leaf, evaluate_node, Operator, op_lt, op_lte, op_gt, op_gte,
  op_eq, apply_operator, as_decimal,
}
use safeops.Policy.Conditions.Nodes.{
  EveryTrue, FirstTrue, all_node, any_node, all_node_iff, any_node_iff, apply_operator-trichotomy,
}
use safeops.Policy.Conditions.Leaf.{Compares, evaluate_leaf_iff}
use safeops.Policy.Engine.{
  PolicyEvaluationResult, evaluation_context, evaluate, ranks, is_candidate, chosen_result,
}
use safeops.Policy.Engine.Selection.{Decides, Names}
use safeops.Policy.Engine.Precedence.{Scope, Prevails, evaluate-Prevails}
use safeops.Policy.Engine.Completeness.{AllClean, evaluate-follows}
use safeops.Tests.Fixtures.{agent, tool, leaf, up_to_100, small_refunds, policies, refund_of}

abbrev context : Fields
context = evaluation_context agent tool 3 (refund_of 40)

allowed-refund :
    evaluate agent tool (refund_of 40) 3 policies ≡ ok (chosen_result small_refunds context)
unfolding evaluate evaluate_conditions get count_fields decimal_le
allowed-refund = refl

evaluate-Prevails_example :
    (p : Policy) × (s : Scope) × Prevails agent tool context policies s p
    × Names (chosen_result small_refunds context) p
evaluate-Prevails_example =
    evaluate-Prevails agent tool (refund_of 40) 3 policies (chosen_result small_refunds context)
      allowed-refund (λ e. cc)

small_refunds-Decides :
    Decides context (ranks agent (filter (is_candidate tool) policies)) small_refunds
unfolding evaluate_conditions get count_fields decimal_le
small_refunds-Decides = inr (
  λ q m t. m,
  inl (
    inl refl,
    refl,
    λ q m t. elim m [ inl e ↦ rw e (ground arith) | inr none_left ↦ absurd none_left ],
  ),
)

refund_ranks-AllClean : AllClean context (ranks agent (filter (is_candidate tool) policies))
unfolding evaluate_conditions get count_fields decimal_le
refund_ranks-AllClean = (
  λ q m. absurd m,
  (
    λ q m. elim m [ inl e ↦ rw e (true, refl) | inr none_left ↦ absurd none_left ],
    (λ q m. elim m [ inl e ↦ rw e (true, refl) | inr none_left ↦ absurd none_left ], tt),
  ),
)

evaluate-follows_example :
    (r : PolicyEvaluationResult) × (evaluate agent tool (refund_of 40) 3 policies ≡ ok r)
    × (r.decision ≡ PolicyAction.allow)
evaluate-follows_example =
    evaluate-follows agent tool (refund_of 40) 3 policies small_refunds refund_ranks-AllClean
      small_refunds-Decides

abbrev clauses : Items
clauses = cons up_to_100 (cons (leaf "tool.name" "eq" (str "issue_refund")) nil)

all_node_iff_example :
    (evaluate_node (all_node clauses) context ≡ ok true)
    ↔ ((clauses ≢ nil) × EveryTrue context clauses)
all_node_iff_example = all_node_iff context clauses

any_node_iff_example :
    (evaluate_node (any_node clauses) context ≡ ok true) ↔ FirstTrue context clauses
any_node_iff_example = any_node_iff context clauses

abbrev amount_leaf : Fields
amount_leaf =
    field "field" (str "arguments.amount")
      (field "operator" (str "lte") (field "value" (num (of_ℕ 100)) end))

evaluate_leaf_iff_example : (evaluate_leaf context amount_leaf ≡ ok true) ↔ (
    (op : Operator) × (actual value : Json) × Compares context amount_leaf op actual value
    × (apply_operator op actual value ≡ ok true))
evaluate_leaf_iff_example = evaluate_leaf_iff context amount_leaf true

abbrev hundred : Decimal
hundred = record { neg = false; coeff = 100; up = 0; down = 0 }

text_hundred : as_decimal (str "100") ≡ ok hundred
unfolding as_decimal parse
text_hundred = refl

number_hundred : as_decimal (num (of_ℕ 100)) ≡ ok hundred
unfolding as_decimal
number_hundred = refl

apply_operator-trichotomy_example :
    (lt gt : Bool) × (apply_operator op_lt (str "100") (num (of_ℕ 100)) ≡ ok lt)
    × (apply_operator op_gt (str "100") (num (of_ℕ 100)) ≡ ok gt)
    × (apply_operator op_eq (str "100") (num (of_ℕ 100)) ≡ ok (not lt && not gt))
    × (lt && gt ≡ false)
    × (apply_operator op_lte (str "100") (num (of_ℕ 100)) ≡ ok (not gt))
    × (apply_operator op_gte (str "100") (num (of_ℕ 100)) ≡ ok (not lt))
apply_operator-trichotomy_example =
    apply_operator-trichotomy (str "100") (num (of_ℕ 100)) text_hundred number_hundred
