-- ===== src/Policy/Conditions/Leaf.antt =====
-- What a leaf of a policy condition needs before it compares anything, and what it answers.
use safeops.Prelude.{
  String, ◌≡◌, ◌≢◌, ◌↔◌, refl, sym, subst, ◌∙◌, ap, inl, inr, Bool, true, Option, some, List, [],
  ◌∷◌, ◌==◌, ==_iff, str_eq, eq_iff, Bool-cases, Option-cases,
}
use safeops.Json.{Json, Fields, null, str, obj, get, count_fields, bool, num, arr}
use safeops.Policy.Conditions.{
  Result, ok, raised, Operator, op_eq, op_neq, op_lt, op_lte, op_gt, op_gte, op_in, ◌>>=◌,
  split_dots, walk, not_null, resolve_field, operator_of, apply_operator, compare_leaf, with_keys,
  evaluate_leaf,
}

-- Inversion of a successful bind.
>>=-ok :
    {A B : Type 0} (m : Result A) (f : A → Result B) (b : B)
    → (m >>= f) ≡ ok b
    → (a : A) × (m ≡ ok a) × (f a ≡ ok b)
>>=-ok (ok a) f b h = (a, refl, h)
>>=-ok (raised e) f b h = cc

with_keys-ok :
    (context : Fields) (f o v : Option Json) (t b : Bool)
    → with_keys context f o v t ≡ ok b
    → (name operator value : Json) × (f ≡ some name)
      × (o ≡ some operator)
      × (v ≡ some value)
      × (t ≡ true)
      × (compare_leaf context name operator value ≡ ok b)
with_keys-ok context (some n) (some o) (some v) true b h = (n, o, v, refl, refl, refl, refl, h)
with_keys-ok context f o v t b h = cc

-- The keys of `OPERATORS`.
abbrev pub operator_text : Operator → String
operator_text op_eq = "eq"
operator_text op_neq = "neq"
operator_text op_lt = "lt"
operator_text op_lte = "lte"
operator_text op_gt = "gt"
operator_text op_gte = "gte"
operator_text op_in = "in"

-- The parts lead through objects from one value to the other.
abbrev pub LeadsTo : Json → List String → Json → Type 0
LeadsTo v [] w = v ≡ w
LeadsTo v (part ∷ parts) w =
    (fields : Fields) × (next : Json) × (v ≡ obj fields)
    × (get part fields ≡ some next)
    × LeadsTo next parts w

named :
    (found op : Operator) (s : String)
    → str_eq s (operator_text found) ≡ true
    → ok found ≡ ok op
    → str s ≡ str (operator_text op)
named found op s hit h =
    let e : found ≡ op = cc in
    subst (λ o. str s ≡ str (operator_text o)) e (ap str ((eq_iff s (operator_text found)).0 hit))

operator_of-ok : (j : Json) (op : Operator) → operator_of j ≡ ok op → j ≡ str (operator_text op)
unfolding operator_of
operator_of-ok (str s) op h = elim (Bool-cases (str_eq s "eq")) [
  | inl hit ↦ named op_eq op s hit (rw (hit) at h)
  | inr miss0 ↦ elim (Bool-cases (str_eq s "neq")) [
    | inl hit ↦ named op_neq op s hit (rw (miss0, hit) at h)
    | inr miss1 ↦ elim (Bool-cases (str_eq s "lt")) [
      | inl hit ↦ named op_lt op s hit (rw (miss0, miss1, hit) at h)
      | inr miss2 ↦ elim (Bool-cases (str_eq s "lte")) [
        | inl hit ↦ named op_lte op s hit (rw (miss0, miss1, miss2, hit) at h)
        | inr miss3 ↦ elim (Bool-cases (str_eq s "gt")) [
          | inl hit ↦ named op_gt op s hit (rw (miss0, miss1, miss2, miss3, hit) at h)
          | inr miss4 ↦ elim (Bool-cases (str_eq s "gte")) [
            | inl hit ↦ named op_gte op s hit (rw (miss0, miss1, miss2, miss3, miss4, hit) at h)
            | inr miss5 ↦ elim (Bool-cases (str_eq s "in")) [
              | inl hit ↦
                  named op_in op s hit (rw (miss0, miss1, miss2, miss3, miss4, miss5, hit) at h)
              | inr miss6 ↦ absurd (cc (rw (miss0, miss1, miss2, miss3, miss4, miss5, miss6) at h))
            ]
          ]
        ]
      ]
    ]
  ]
]
operator_of-ok j op h = absurd (cc)

operator_of-text : (op : Operator) → operator_of (str (operator_text op)) ≡ ok op
unfolding operator_of
operator_of-text op_eq = refl
operator_of-text op_neq = refl
operator_of-text op_lt = refl
operator_of-text op_lte = refl
operator_of-text op_gt = refl
operator_of-text op_gte = refl
operator_of-text op_in = refl

walk-LeadsTo : (v : Json) (parts : List String) (w : Json) → walk v parts ≡ ok w → LeadsTo v parts w
unfolding walk
walk-LeadsTo v [] w h = cc
walk-LeadsTo (obj fields) (part ∷ parts) w h = elim (Option-cases (get part fields)) [
  | inl missing ↦ absurd (cc (rw (walk, missing) at h))
  | inr (next, found) ↦
      (fields, next, refl, found, walk-LeadsTo next parts w (rw (walk, found) at h))
]
walk-LeadsTo v (part ∷ parts) w h = absurd (cc)

LeadsTo-walk : (v : Json) (parts : List String) (w : Json) → LeadsTo v parts w → walk v parts ≡ ok w
unfolding walk
LeadsTo-walk v [] w h = ap ok h
LeadsTo-walk v (part ∷ parts) w (fields, next, e, found, rest) =
    rw e (rw (walk, found) (LeadsTo-walk next parts w rest))

not_null_iff : (v w : Json) → (not_null v ≡ ok w) ↔ ((v ≡ w) × (w ≢ null))
not_null_iff null w = (λ h. absurd (cc), λ h. absurd (h.1 (sym h.0)))
not_null_iff (bool b) w = (λ h. (cc, λ e. absurd (cc)), λ h. ap ok h.0)
not_null_iff (num n) w = (λ h. (cc, λ e. absurd (cc)), λ h. ap ok h.0)
not_null_iff (str s) w = (λ h. (cc, λ e. absurd (cc)), λ h. ap ok h.0)
not_null_iff (arr xs) w = (λ h. (cc, λ e. absurd (cc)), λ h. ap ok h.0)
not_null_iff (obj fs) w = (λ h. (cc, λ e. absurd (cc)), λ h. ap ok h.0)

resolve_field-ok :
    (name : Json) (context : Fields) (actual : Json)
    → resolve_field name context ≡ ok actual
    → (s : String) × (name ≡ str s)
      × (s ≢ "")
      × LeadsTo (obj context) (split_dots s) actual
      × (actual ≢ null)
unfolding resolve_field
resolve_field-ok (str s) context actual h = elim (Bool-cases (str_eq s "")) [
  | inl empty ↦ absurd (cc (rw empty at h))
  | inr filled ↦
      let (value, walked, kept) =
        >>=-ok (walk (obj context) (split_dots s)) not_null actual (rw filled at h) in
      let (same, full) = (not_null_iff value actual).0 kept in
      (
        s,
        refl,
        λ e. absurd (cc (sym filled ∙ (eq_iff s "").1 e)),
        walk-LeadsTo (obj context) (split_dots s) actual (walked ∙ ap ok same),
        full,
      )
]
resolve_field-ok name context actual h = absurd (cc)

LeadsTo-resolve_field :
    (s : String) (context : Fields) (actual : Json)
    → s ≢ ""
    → LeadsTo (obj context) (split_dots s) actual
    → actual ≢ null
    → resolve_field (str s) context ≡ ok actual
unfolding resolve_field
LeadsTo-resolve_field s context actual filled path full = elim (Bool-cases (str_eq s "")) [
  | inl empty ↦ absurd (filled ((eq_iff s "").0 empty))
  | inr other ↦
      rw (other, LeadsTo-walk (obj context) (split_dots s) actual path)
        ((not_null_iff actual actual).1 (refl, full))
]

module _ (context : Fields) where
  -- The leaf has its three keys and no other: a non-empty path that leads through the objects of the
  -- context to a value other than null, the name of an operator, and a value to compare with.
  abbrev pub Compares : Fields → Operator → Json → Json → Type 0
  Compares leaf op actual value =
      (count_fields leaf ≡ 3)
      × (get "operator" leaf ≡ some (str (operator_text op)))
      × (get "value" leaf ≡ some value)
      × ((path : String) × (get "field" leaf ≡ some (str path))
          × (path ≢ "")
          × LeadsTo (obj context) (split_dots path) actual
          × (actual ≢ null))

  evaluate_leaf-ok :
      (leaf : Fields) (b : Bool)
      → evaluate_leaf context leaf ≡ ok b
      → (op : Operator) × (actual value : Json) × Compares leaf op actual value
        × (apply_operator op actual value ≡ ok b)
  unfolding evaluate_leaf compare_leaf
  evaluate_leaf-ok leaf b h =
      let (name, operator, value, ef, eo, ev, three, compared) =
        with_keys-ok context (get "field" leaf) (get "operator" leaf) (get "value" leaf)
          (count_fields leaf == 3) b h in
      let (op, eop, resolved) =
        >>=-ok (operator_of operator)
          (λ o. resolve_field name context >>= λ a. apply_operator o a value) b compared in
      let (actual, ea, applied) =
        >>=-ok (resolve_field name context) (λ a. apply_operator op a value) b resolved in
      let (path, en, filled, leads, full) = resolve_field-ok name context actual ea in
      (
        op,
        actual,
        value,
        (
          (==_iff (count_fields leaf) 3).0 three,
          eo ∙ ap some (operator_of-ok operator op eop),
          ev,
          (path, ef ∙ ap some en, filled, leads, full),
        ),
        applied,
      )

  Compares-evaluate_leaf :
      (leaf : Fields) (op : Operator) (actual value : Json)
      → Compares leaf op actual value
      → evaluate_leaf context leaf ≡ apply_operator op actual value
  unfolding evaluate_leaf compare_leaf
  Compares-evaluate_leaf leaf op actual value (three, eo, ev, (path, ef, filled, leads, full)) =
      rw
        (
          ef,
          eo,
          ev,
          three,
          operator_of-text op,
          LeadsTo-resolve_field path context actual filled leads full,
        )
        refl

  -- A leaf answers `b` exactly if it has the three keys and no other, a non-empty path that leads
  -- through the objects of the context to a value other than null, and the name of an operator which
  -- answers `b` on that value and the leaf's.
  pub evaluate_leaf_iff :
      (leaf : Fields) (b : Bool)
      → (evaluate_leaf context leaf ≡ ok b) ↔ (
          (op : Operator) × (actual value : Json) × Compares leaf op actual value
          × (apply_operator op actual value ≡ ok b))
  evaluate_leaf_iff leaf b = (
    evaluate_leaf-ok leaf b,
    λ h.
        let (op, actual, value, compares, applied) = h in
        Compares-evaluate_leaf leaf op actual value compares ∙ applied,
  )
