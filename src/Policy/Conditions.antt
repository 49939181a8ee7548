-- ===== src/Policy/Conditions.antt =====
-- apps/api/app/services/policy_conditions.py: the evaluator of `Policy.conditions`.
--
-- A node is a JSON object; `all` and `any` hold lists of nodes, and a leaf compares a field of the
-- evaluation context with a value. What Python raises is a value of `Error`.
pub mod Nodes
pub mod Leaf
use Prim.Native.Char.{code}
use safeops.Prelude.{
  String, Bool, true, false, not, ◌&&◌, ◌||◌, Option, none, some, List, [], ◌∷◌, ◌==◌, str_eq,
  append_text, if◌then◌else◌,
}
use safeops.Json.{
  Json, Items, Fields, null, bool, num, str, arr, obj, nil, cons, end, field, get, has,
  count_fields, py_eq, py_in,
}
use safeops.Json.Decimal
use safeops.Json.Decimal.{Decimal, Number, finite, decimal_lt, decimal_le, decimal_eq}

-- `policy_condition` is a PolicyConditionError; `type_error` is the TypeError of looking up an
-- operator that cannot be hashed.
pub data Error : Type 0 where
  policy_condition type_error : Error

pub data Result (A : Type 0) : Type 0 where
  ok : A → Result A
  raised : Error → Result A

infixl 5 ◌>>=◌
abbrev pub ◌>>=◌ : {A B : Type 0} → Result A → (A → Result B) → Result B
ok a >>= f = f a
raised e >>= f = raised e

-- `field.split(".")`: the part read so far comes first.
split_from : String → String → List String
split_from part String.[] = part ∷ []
split_from part (String.◌∷◌ c s) =
    if code c == b'.'
    then part ∷ split_from String.[] s
    else split_from (append_text part (String.◌∷◌ c String.[])) s

abbrev pub split_dots : String → List String
unfolding split_from
split_dots s = split_from String.[] s

-- The walk along the parts.
pub walk : Json → List String → Result Json
walk value [] = ok value
walk (obj fields) (part ∷ parts) = elim (get part fields) [
  | none ↦ raised policy_condition
  | some v ↦ walk v parts
]
walk _ (part ∷ parts) = raised policy_condition

abbrev pub not_null : Json → Result Json
not_null null = raised policy_condition
not_null v = ok v

pub resolve_field : Json → Fields → Result Json
unfolding walk split_from
resolve_field (str name) context =
    if str_eq name ""
    then raised policy_condition
    else do value ← walk (obj context) (split_dots name); not_null value
resolve_field _ context = raised policy_condition

abbrev finite_only : Option Number → Result Decimal
finite_only (some (finite d)) = ok d
finite_only _ = raised policy_condition

-- `Decimal(str(value))` of a list, an object or `None` fails, since those print as no number.
unfoldable pub as_decimal : Json → Result Decimal
as_decimal (num n) = finite_only (some n)
as_decimal (str s) = finite_only (Decimal.parse s)
as_decimal _ = raised policy_condition

-- `type(actual) is type(expected)`. Two numbers are compared here only if neither is finite, and
-- such are floats.
abbrev same_type : Json → Json → Bool
same_type null null = true
same_type (bool a) (bool b) = true
same_type (num m) (num n) = true
same_type (str s) (str t) = true
same_type (arr xs) (arr ys) = true
same_type (obj fs) (obj gs) = true
same_type _ _ = false

abbrev eq_decimals : Result Decimal → Result Decimal → Bool → Bool
eq_decimals (ok a) (ok b) otherwise = decimal_eq a b
eq_decimals (ok a) (raised e) otherwise = false
eq_decimals (raised e) (ok b) otherwise = false
eq_decimals (raised e) (raised f) otherwise = otherwise

pub eq : Json → Json → Bool
unfolding as_decimal
eq actual expected =
    eq_decimals (as_decimal actual) (as_decimal expected)
      (same_type actual expected && py_eq actual expected)

pub neq : Json → Json → Bool
unfolding eq
neq actual expected = not (eq actual expected)

pub is_in : Json → Json → Result Bool
is_in actual (arr xs) = ok (py_in actual xs)
is_in actual _ = raised policy_condition

pub data Operator : Type 0 where
  op_eq op_neq op_lt op_lte op_gt op_gte op_in : Operator

-- `OPERATORS.get(operator)`. A number, a boolean and `None` are hashable and no keys; a list and an
-- object cannot be hashed.
pub operator_of : Json → Result Operator
operator_of (str s) =
    if str_eq s "eq"
    then ok op_eq
    else if str_eq s "neq"
    then ok op_neq
    else if str_eq s "lt"
    then ok op_lt
    else if str_eq s "lte"
    then ok op_lte
    else if str_eq s "gt"
    then ok op_gt
    else if str_eq s "gte"
    then ok op_gte
    else if str_eq s "in"
    then ok op_in
    else raised policy_condition
operator_of (arr xs) = raised type_error
operator_of (obj fs) = raised type_error
operator_of _ = raised policy_condition

pub apply_operator : Operator → Json → Json → Result Bool
unfolding eq neq is_in as_decimal
apply_operator op_eq a b = ok (eq a b)
apply_operator op_neq a b = ok (neq a b)
apply_operator op_lt a b = do x ← as_decimal a; y ← as_decimal b; ok (decimal_lt x y)
apply_operator op_lte a b = do x ← as_decimal a; y ← as_decimal b; ok (decimal_le x y)
apply_operator op_gt a b = do x ← as_decimal a; y ← as_decimal b; ok (decimal_lt y x)
apply_operator op_gte a b = do x ← as_decimal a; y ← as_decimal b; ok (decimal_le y x)
apply_operator op_in a b = is_in a b

-- A leaf whose three keys have been found.
pub compare_leaf : Fields → Json → Json → Json → Result Bool
unfolding operator_of resolve_field apply_operator
compare_leaf context name operator value = do
  op ← operator_of operator
  actual ← resolve_field name context
  apply_operator op actual value

-- The three keys as found, and whether the leaf has exactly three: a missing key, or a key beyond
-- them, is malformed.
abbrev pub with_keys : Fields → Option Json → Option Json → Option Json → Bool → Result Bool
with_keys context (some name) (some operator) (some value) true =
    compare_leaf context name operator value
with_keys context _ _ _ _ = raised policy_condition

unfoldable pub evaluate_leaf : Fields → Fields → Result Bool
unfolding compare_leaf
evaluate_leaf context leaf =
    with_keys context (get "field" leaf) (get "operator" leaf) (get "value" leaf)
      (count_fields leaf == 3)

-- A combinator that stands beside another key.
abbrev is_mixed : Fields → Bool
is_mixed node = (has "all" node || has "any" node) && not (count_fields node == 1)

mutual
  unfolding evaluate_leaf

  pub evaluate_node : Json → Fields → Result Bool
  evaluate_node (obj node) context =
      if is_mixed node
      then raised policy_condition
      else if has "all" node
      then evaluate_all_of node context
      else if has "any" node
      then evaluate_any_of node context
      else evaluate_leaf context node
  evaluate_node _ context = raised policy_condition

  -- The clauses under the key `all` of a node.
  pub evaluate_all_of : Fields → Fields → Result Bool
  evaluate_all_of end context = raised policy_condition
  evaluate_all_of (field k clauses rest) context =
      let here = evaluate_all clauses context in
      let there = evaluate_all_of rest context in if str_eq k "all" then here else there

  pub evaluate_any_of : Fields → Fields → Result Bool
  evaluate_any_of end context = raised policy_condition
  evaluate_any_of (field k clauses rest) context =
      let here = evaluate_any clauses context in
      let there = evaluate_any_of rest context in if str_eq k "any" then here else there

  -- `all(...)` over a non-empty list stops at the first false clause.
  pub evaluate_all : Json → Fields → Result Bool
  evaluate_all (arr (cons c cs)) context = do
    b ← evaluate_node c context
    if b then all_items cs context else ok false
  evaluate_all _ context = raised policy_condition

  pub all_items : Items → Fields → Result Bool
  all_items nil context = ok true
  all_items (cons c cs) context =
      let rest = all_items cs context in
      do b ← evaluate_node c context; if b then rest else ok false

  -- `any(...)` stops at the first true clause.
  pub evaluate_any : Json → Fields → Result Bool
  evaluate_any (arr (cons c cs)) context = do
    b ← evaluate_node c context
    if b then ok true else any_items cs context
  evaluate_any _ context = raised policy_condition

  pub any_items : Items → Fields → Result Bool
  any_items nil context = ok false
  any_items (cons c cs) context =
      let rest = any_items cs context in do b ← evaluate_node c context; if b then ok true else rest

-- `conditions` of the policies table is a JSON object; an empty one always matches.
unfoldable pub evaluate_conditions : Option Json → Fields → Result Bool
unfolding evaluate_node
evaluate_conditions none context = ok true
evaluate_conditions (some null) context = ok true
evaluate_conditions (some (obj end)) context = ok true
evaluate_conditions (some node) context = evaluate_node node context
