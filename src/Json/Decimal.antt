-- ===== src/Json/Decimal.antt =====
-- Python's `decimal.Decimal`: the values that policies and risk signals compare, the reading of a
-- text, and the order. The value of a finite one is (-1)^neg * coeff * 10^up / 10^down.
use Prim.Native.Nat.{ℕ, suc, ◌+◌, ◌-◌, ◌*◌, ◌^◌}
use Prim.Native.String.{String}
use mathlib.Core.Path.{◌≡◌, refl}
use mathlib.Core.Bool.{Bool, true, false, not, ◌&&◌, ◌||◌}
use mathlib.Core.Option.{Option, none, some}
use mathlib.Core.List.{List, [], ◌∷◌, map, reverse}
use safeops.Prelude.{ltb, leb, ◌==◌, if◌then◌else◌, codes, filter}

pub record Decimal : Type 0 where
  pub neg : Bool
  pub coeff : ℕ
  pub up : ℕ
  pub down : ℕ

pub data Number : Type 0 where
  finite : Decimal → Number
  infinite : Bool → Number
  nan : Number

abbrev pub of_ℕ : ℕ → Number
of_ℕ n = finite (record { neg = false; coeff = n; up = 0; down = 0 })

abbrev pub of_bool : Bool → Number
of_bool true = of_ℕ 1
of_bool false = of_ℕ 0

-- The magnitude of `a`, in the unit that it shares with `b`.
abbrev scaled : Decimal → Decimal → ℕ
scaled a b = a.coeff * 10 ^ (a.up + b.down)

abbrev signed_lt : Bool → Bool → ℕ → ℕ → Bool
signed_lt false false m n = ltb m n
signed_lt true true m n = ltb n m
signed_lt true false m n = ltb 0 (m + n)
signed_lt false true m n = false

-- `a < b`
unfoldable pub decimal_lt : Decimal → Decimal → Bool
decimal_lt a b = signed_lt a.neg b.neg (scaled a b) (scaled b a)

-- `a <= b`
unfoldable pub decimal_le : Decimal → Decimal → Bool
unfolding decimal_lt
decimal_le a b = not (decimal_lt b a)

-- `a == b`
unfoldable pub decimal_eq : Decimal → Decimal → Bool
unfolding decimal_lt
decimal_eq a b = not (decimal_lt a b) && not (decimal_lt b a)

-- `==` of numbers: a NaN equals nothing.
unfoldable pub number_eq : Number → Number → Bool
unfolding decimal_eq
number_eq (finite a) (finite b) = decimal_eq a b
number_eq (infinite s) (infinite t) = if s then t else not t
number_eq _ _ = false

-- `amount <= threshold` for a finite threshold; `none` is the InvalidOperation that a NaN raises.
unfoldable pub number_le : Number → Decimal → Option Bool
unfolding decimal_le
number_le (finite a) t = some (decimal_le a t)
number_le (infinite s) t = some s
number_le nan t = none

-- Reading: `Decimal(text)`.

-- The characters that Python's `str.isspace` and the regular expression `\s` accept.
abbrev pub is_space : ℕ → Bool
is_space c =
    (leb 9 c && leb c 13)
    || (leb 28 c && leb c 32)
    || c == 0x85
    || c == 0xa0
    || c == 0x1680
    || (leb 0x2000 c && leb c 0x200a)
    || c == 0x2028
    || c == 0x2029
    || c == 0x202f
    || c == 0x205f
    || c == 0x3000

unfoldable pub strip_left : List ℕ → List ℕ
strip_left [] = []
strip_left (c ∷ cs) = let rest = strip_left cs in if is_space c then rest else c ∷ cs

unfoldable pub strip : List ℕ → List ℕ
unfolding strip_left
strip cs = reverse (strip_left (reverse (strip_left cs)))

abbrev is_digit : ℕ → Bool
is_digit c = leb 48 c && leb c 57

abbrev pub lower_ascii : ℕ → ℕ
lower_ascii c = if leb 65 c && leb c 90 then c + 32 else c

-- The value and the number of the digits read, and the rest.
digits : ℕ → ℕ → List ℕ → ℕ × ℕ × List ℕ
digits n k [] = (n, k, [])
digits n k (c ∷ cs) =
    let more = digits (n * 10 + (c - 48)) (suc k) cs in if is_digit c then more else (n, k, c ∷ cs)

abbrev read_sign : List ℕ → Bool × List ℕ
read_sign [] = (false, [])
read_sign (c ∷ cs) =
    if c == b'-' then (true, cs) else if c == b'+' then (false, cs) else (false, c ∷ cs)

-- The exponent and the end of the text.
exponent : Decimal → List ℕ → Option Number
unfolding digits
exponent d [] = some (finite d)
exponent d (c ∷ cs) =
    if lower_ascii c == b'e'
    then (let (minus, ds) = read_sign cs in
        let (e, k, rest) = digits 0 0 ds in
        elim rest [
          | [] ↦
              if k == 0
              then none
              else if minus
              then some (finite (record d { down = d.down + e }))
              else some (finite (record d { up = d.up + e }))
          | _ ∷ _ ↦ none
        ])
    else none

-- Digits with an optional point: at least one digit must stand on either side of it.
unsigned : Bool → List ℕ → Option Number
unfolding digits exponent
unsigned neg cs =
    let (n, k, rest) = digits 0 0 cs in
    elim rest [
      | [] ↦
          if k == 0 then none else some (finite (record { neg = neg; coeff = n; up = 0; down = 0 }))
      | c ∷ ds ↦
          (let (m, j, tail) = digits n 0 ds in
            if c == b'.'
            then if k + j == 0
              then none
              else exponent (record { neg = neg; coeff = m; up = 0; down = j }) tail
            else if k == 0
            then none
            else exponent (record { neg = neg; coeff = n; up = 0; down = 0 }) (c ∷ ds))
    ]

abbrev same_codes : List ℕ → List ℕ → Bool
same_codes [] [] = true
same_codes (a ∷ zs) (b ∷ bs) = a == b && same_codes zs bs
same_codes _ _ = false

-- `nan` with digits behind it.
nan_word : List ℕ → Bool
unfolding digits
nan_word (a ∷ b ∷ c ∷ rest) =
    same_codes (a ∷ b ∷ c ∷ []) (codes "nan") && same_codes (digits 0 0 rest).2 []
nan_word _ = false

-- The same, quiet or signalling.
is_nan : List ℕ → Bool
unfolding nan_word
is_nan [] = false
is_nan (c ∷ rest) = nan_word (c ∷ rest) || c == b's' && nan_word rest

-- `Decimal(text)`; `none` is the InvalidOperation of a text that is no number.
unfoldable pub parse : String → Option Number
unfolding unsigned is_nan strip
parse text =
    let (neg, body) = read_sign (filter (λ c. not (c == b'_')) (strip (codes text))) in
    let low = map lower_ascii body in
    if same_codes low (codes "inf") || same_codes low (codes "infinity")
    then some (infinite neg)
    else if is_nan low
    then some nan
    else unsigned neg body

-- Tests.
parse_price :
    parse " 1_00.50e1 " ≡ some (finite (record { neg = false; coeff = 10050; up = 1; down = 2 }))
unfolding parse
parse_price = refl
