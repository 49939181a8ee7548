-- ===== src/Prelude/Text.antt =====
-- Texts: the library's equality test, code points, concatenation and substring search.
use Prim.Native.Nat.{ℕ, zero, suc, ◌/◌, ◌%◌}
use Prim.Native.Char.{code}
use Prim.Native.String.{String}
use mathlib.Core.Path.{◌≡◌, refl}
use mathlib.Core.Bool.{Bool, true, false, ◌&&◌, ◌||◌}
use mathlib.Core.List.{List, [], ◌∷◌}
use safeops.Prelude.Tests.{◌==◌, if◌then◌else◌}
pub use text.Mathlib.Text.{◌==◌ as str_eq}
pub use Prim.Native.String.{◌++◌ as append_text}
pub use text.Mathlib.TextEquality.{eq_iff}

-- The code points of a text.
abbrev pub codes : String → List ℕ
codes String.[] = []
codes (String.◌∷◌ c s) = code c ∷ codes s

-- `s in xs` for a list or a set of texts.
abbrev pub elem_text : String → List String → Bool
elem_text s [] = false
elem_text s (x ∷ xs) = str_eq s x || elem_text s xs

-- `text.startswith(phrase)` and `phrase in text`, on code points.
abbrev pub starts_with : List ℕ → List ℕ → Bool
starts_with [] text = true
starts_with (p ∷ ps) [] = false
starts_with (p ∷ ps) (c ∷ cs) = p == c && starts_with ps cs

abbrev pub contains : List ℕ → List ℕ → Bool
contains phrase [] = starts_with phrase []
contains phrase (c ∷ cs) = starts_with phrase (c ∷ cs) || contains phrase cs

digit_text : List String → ℕ → String
digit_text [] n = ""
digit_text (d ∷ ds) zero = d
digit_text (d ∷ ds) (suc n) = digit_text ds n

-- The fuel bounds the number of digits.
print_digits : ℕ → ℕ → String
unfolding digit_text
print_digits zero n = ""
print_digits (suc fuel) n =
    let higher = print_digits fuel (n / 10) in
    let last =
      digit_text ("0" ∷ "1" ∷ "2" ∷ "3" ∷ "4" ∷ "5" ∷ "6" ∷ "7" ∷ "8" ∷ "9" ∷ []) (n % 10) in
    if n / 10 == 0 then last else append_text higher last

-- `str(n)`: a number has fewer digits than its successor counts.
unfoldable pub nat_text : ℕ → String
unfolding print_digits
nat_text n = print_digits (suc n) n

nat_text_of_100 : nat_text 100 ≡ "100"
unfolding nat_text
nat_text_of_100 = refl
