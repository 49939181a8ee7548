-- ===== src/Model/Uuid.antt =====
-- UUIDs, as the 128-bit numbers that they are, and their texts.
use Prim.Native.Nat.{ℕ, zero, suc, ◌+◌, ◌-◌, ◌*◌, ◌/◌, ◌%◌, ◌^◌}
use mathlib.Core.Option.{Option, none, some}
use mathlib.Core.Bool.{◌&&◌}
use Prim.Native.String.{String}
use mathlib.Core.Path.{◌≡◌, refl}
use mathlib.Core.List.{List, [], ◌∷◌}
use safeops.Prelude.{append_text, codes, leb, ◌==◌, if◌then◌else◌}

abbrev pub Uuid : Type 0
Uuid = ℕ

hex_digit : ℕ → List String → String
hex_digit n [] = "f"
hex_digit zero (d ∷ ds) = d
hex_digit (suc n) (d ∷ ds) = hex_digit n ds

-- The last `k` hexadecimal digits of a number.
hex : ℕ → ℕ → String
unfolding hex_digit
hex zero n = ""
hex (suc k) n = append_text (hex k (n / 16)) (
    hex_digit (n % 16) (
      "0" ∷ "1" ∷ "2" ∷ "3" ∷ "4" ∷ "5" ∷ "6" ∷ "7" ∷ "8" ∷ "9" ∷ "a" ∷ "b" ∷ "c" ∷ "d" ∷ "e" ∷ []))

-- `str(id)`
unfoldable pub uuid_text : Uuid → String
unfolding hex
uuid_text n = append_text (hex 8 (n / 16 ^ 24)) (
    append_text "-" (
      append_text (hex 4 (n / 16 ^ 20)) (
        append_text "-" (
          append_text (hex 4 (n / 16 ^ 16))
            (append_text "-" (append_text (hex 4 (n / 16 ^ 12)) (append_text "-" (hex 12 n))))))))

-- The value of a hexadecimal digit, by its code point.
abbrev digit_of : ℕ → Option ℕ
digit_of c =
    if leb 48 c && leb c 57
    then some (c - 48)
    else if leb 97 c && leb c 102
    then some (c - 87)
    else if leb 65 c && leb c 70
    then some (c - 55)
    else none

-- The digits that are left, without the dashes: how many have been read, and their value.
abbrev read_digit : Option ℕ → ℕ → ℕ → (ℕ → ℕ → Option Uuid) → Option Uuid
read_digit none count value rest = none
read_digit (some d) count value rest = rest (suc count) (16 * value + d)

read_hex : List ℕ → ℕ → ℕ → Option Uuid
read_hex [] count value = if count == 32 then some value else none
read_hex (c ∷ cs) count value =
    if c == 45 then read_hex cs count value else read_digit (digit_of c) count value (read_hex cs)

-- `uuid.UUID(text)`, where `none` is a ValueError. The forms with braces or a `urn:` prefix, which
-- nothing stores, are not read.
unfoldable pub parse_uuid : String → Option Uuid
unfolding read_hex
parse_uuid s = read_hex (codes s) 0 0

parse_uuid_of_text : parse_uuid (uuid_text 0xab1f) ≡ some 0xab1f
unfolding parse_uuid uuid_text
parse_uuid_of_text = refl

uuid_text_of_small : uuid_text 0x1f ≡ "00000000-0000-0000-0000-00000000001f"
unfolding uuid_text
uuid_text_of_small = refl
