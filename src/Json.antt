-- ===== src/Json.antt =====
-- JSON values as Python holds them after `json.loads`, with Python's `==` on them.
--
-- A number is kept as the decimal that `Decimal(str(value))` reads from it: an int exactly, a
-- float by its shortest representation. An object is an association list in insertion order.
pub mod Decimal
use Decimal.{Number, number_eq}
use safeops.Prelude.{
  ℕ, suc, String, Bool, true, false, ◌&&◌, ◌||◌, Option, none, some, List, [], ◌∷◌, ◌==◌, str_eq,
  if◌then◌else◌,
}

mutual
  pub data Json : Type 0 where
    null : Json
    bool : Bool → Json
    num : Number → Json
    str : String → Json
    arr : Items → Json
    obj : Fields → Json

  pub data Items : Type 0 where
    nil : Items
    cons : Json → Items → Items

  pub data Fields : Type 0 where
    end : Fields
    field : String → Json → Fields → Fields

-- `d.get(key)`
unfoldable pub get : String → Fields → Option Json
get key end = none
get key (field k v rest) = if str_eq k key then some v else get key rest

-- `{**d, key: value}`
abbrev pub put : String → Json → Fields → Fields
put key value end = field key value end
put key value (field k v rest) =
    if str_eq k key then field k value rest else field k v (put key value rest)

-- `key in d`
abbrev pub has : String → Fields → Bool
has key fields = elim (get key fields) [ none ↦ false | some _ ↦ true ]

-- `len(d)`
unfoldable pub count_fields : Fields → ℕ
count_fields end = 0
count_fields (field k v rest) = suc (count_fields rest)

unfoldable pub count_items : Items → ℕ
count_items nil = 0
count_items (cons x xs) = suc (count_items xs)

-- Python's `a == b`. A boolean equals the number that it stands for, and objects are compared
-- without regard to order.
unfoldable mutual
  pub py_eq : Json → Json → Bool
  py_eq null null = true
  py_eq (bool a) (bool b) = if a then b else (if b then false else true)
  py_eq (bool a) (num n) = number_eq (Decimal.of_bool a) n
  py_eq (num m) (bool b) = number_eq m (Decimal.of_bool b)
  py_eq (num m) (num n) = number_eq m n
  py_eq (str s) (str t) = str_eq s t
  py_eq (arr xs) (arr ys) = py_eq_items xs ys
  py_eq (obj fs) (obj gs) = count_fields fs == count_fields gs && py_eq_fields fs gs
  py_eq _ _ = false

  pub py_eq_items : Items → Items → Bool
  py_eq_items nil nil = true
  py_eq_items (cons x xs) (cons y ys) = py_eq x y && py_eq_items xs ys
  py_eq_items _ _ = false

  -- Every field of the first object stands in the second with an equal value.
  pub py_eq_fields : Fields → Fields → Bool
  py_eq_fields end gs = true
  py_eq_fields (field k v rest) gs =
      elim (get k gs) [ none ↦ false | some w ↦ py_eq v w ] && py_eq_fields rest gs

-- `x in xs`
unfoldable pub py_in : Json → Items → Bool
unfolding py_eq
py_in x nil = false
py_in x (cons y ys) = py_eq x y || py_in x ys
