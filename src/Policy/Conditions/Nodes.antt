-- ===== src/Policy/Conditions/Nodes.antt =====
-- What the combinators of a policy condition mean, against a reading of their clauses, and how the
-- operators on decimals relate.
use safeops.Prelude.{
  ◌≡◌, refl, ◌≢◌, ◌↔◌, ◌⊎◌, inl, inr, Bool, true, false, not, ◌&&◌, arith, if◌then◌else◌,
}
use safeops.Json.{Json, Items, Fields, obj, arr, nil, cons, end, field, get, count_fields}
use safeops.Json.Decimal.{Decimal, decimal_lt, decimal_le, decimal_eq}
use safeops.Policy.Conditions.{
  Result, ok, raised, op_lt, op_lte, op_gt, op_gte, op_eq, ◌>>=◌, apply_operator, evaluate_node,
  evaluate_all_of, evaluate_any_of, evaluate_all, all_items, evaluate_any, any_items, as_decimal,
  eq,
}

module _ (context : Fields) where
  abbrev pub EveryTrue : Items → Type 0
  EveryTrue nil = Unit
  EveryTrue (cons c cs) = (evaluate_node c context ≡ ok true) × EveryTrue cs

  -- Some clause is true, and all before it are false, none an error.
  abbrev pub FirstTrue : Items → Type 0
  FirstTrue nil = ⊥
  FirstTrue (cons c cs) =
      (evaluate_node c context ≡ ok true) ⊎ ((evaluate_node c context ≡ ok false) × FirstTrue cs)

abbrev pub all_node : Items → Json
all_node cs = obj (field "all" (arr cs) end)

abbrev pub any_node : Items → Json
any_node cs = obj (field "any" (arr cs) end)

-- The rounds of `all` and of `any`.
all_round-true :
    (r rest : Result Bool)
    → (r >>= λ b. if b then rest else ok false) ≡ ok true
    → (r ≡ ok true) × (rest ≡ ok true)
all_round-true (raised e) rest h = cc
all_round-true (ok true) rest h = (refl, h)
all_round-true (ok false) rest h = cc

any_round-true :
    (r rest : Result Bool)
    → (r >>= λ b. if b then ok true else rest) ≡ ok true
    → (r ≡ ok true) ⊎ ((r ≡ ok false) × (rest ≡ ok true))
any_round-true (raised e) rest h = cc
any_round-true (ok true) rest h = inl refl
any_round-true (ok false) rest h = inr (refl, h)

module _ (context : Fields) where
  all_items-EveryTrue : (cs : Items) → all_items cs context ≡ ok true → EveryTrue context cs
  unfolding all_items
  all_items-EveryTrue nil h = tt
  all_items-EveryTrue (cons c cs) h =
      let (now, later) = all_round-true (evaluate_node c context) (all_items cs context) h in
      (now, all_items-EveryTrue cs later)

  EveryTrue-all_items : (cs : Items) → EveryTrue context cs → all_items cs context ≡ ok true
  unfolding all_items
  EveryTrue-all_items nil h = refl
  EveryTrue-all_items (cons c cs) h = rw (h.0, EveryTrue-all_items cs h.1)

  any_items-FirstTrue : (cs : Items) → any_items cs context ≡ ok true → FirstTrue context cs
  unfolding any_items
  any_items-FirstTrue nil h = cc
  any_items-FirstTrue (cons c cs) h =
      elim (any_round-true (evaluate_node c context) (any_items cs context) h) [
        | inl now ↦ inl now
        | inr later ↦ inr (later.0, any_items-FirstTrue cs later.1)
      ]

  FirstTrue-any_items : (cs : Items) → FirstTrue context cs → any_items cs context ≡ ok true
  unfolding any_items
  FirstTrue-any_items nil h = absurd h
  FirstTrue-any_items (cons c cs) (inl now) = rw now
  FirstTrue-any_items (cons c cs) (inr later) = rw (later.0, FirstTrue-any_items cs later.1)

  -- An `all` node is true exactly when it has a clause and each of its clauses is true. An empty
  -- list never makes it true.
  pub all_node_iff :
      (cs : Items)
      → (evaluate_node (all_node cs) context ≡ ok true) ↔ ((cs ≢ nil) × EveryTrue context cs)
  unfolding evaluate_node evaluate_all_of evaluate_all all_items get count_fields
  all_node_iff nil = (λ h. cc, λ h. absurd (h.0 refl))
  all_node_iff (cons c cs) =
      (λ h. (λ e. cc, all_items-EveryTrue (cons c cs) h), λ h. EveryTrue-all_items (cons c cs) h.1)

  -- An `any` node is true exactly when one of its clauses is true and no clause before that one is
  -- true or an error.
  pub any_node_iff :
      (cs : Items) → (evaluate_node (any_node cs) context ≡ ok true) ↔ FirstTrue context cs
  unfolding evaluate_node evaluate_any_of evaluate_any any_items get count_fields
  any_node_iff nil = (λ h. cc, λ h. absurd h)
  any_node_iff (cons c cs) = (any_items-FirstTrue (cons c cs), FirstTrue-any_items (cons c cs))

decimal_lt-asymm : (a b : Decimal) → decimal_lt a b ≡ true → decimal_lt b a ≡ false
unfolding decimal_lt
decimal_lt-asymm a b h = ground arith

-- For two values that read as finite decimals, exactly one of `lt`, `eq` and `gt` holds; `lte`
-- holds exactly when `gt` does not, and `gte` exactly when `lt` does not.
pub apply_operator-trichotomy :
    (a b : Json) {x y : Decimal}
    → as_decimal a ≡ ok x
    → as_decimal b ≡ ok y
    → (lt gt : Bool) × (apply_operator op_lt a b ≡ ok lt)
      × (apply_operator op_gt a b ≡ ok gt)
      × (apply_operator op_eq a b ≡ ok (not lt && not gt))
      × (lt && gt ≡ false)
      × (apply_operator op_lte a b ≡ ok (not gt))
      × (apply_operator op_gte a b ≡ ok (not lt))
unfolding apply_operator eq decimal_le decimal_eq
apply_operator-trichotomy a b {x} {y} ea eb = (
  decimal_lt x y,
  decimal_lt y x,
  rw (ea, eb),
  rw (ea, eb),
  rw (ea, eb),
  ground (arith, decimal_lt-asymm x y),
  rw (ea, eb),
  rw (ea, eb),
)
