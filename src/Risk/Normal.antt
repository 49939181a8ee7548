-- ===== src/Risk/Normal.antt =====
-- The texts that the detectors search (`_normalize` and `DetectionInput` of
-- apps/api/app/services/risk_signals.py), as lists of code points, and the pattern of an e-mail
-- address (`EMAIL_LIKE_PATTERN` of apps/api/app/services/risk_config.py).
pub mod Email
use mathlib.Core.List.{flat_map}
use safeops.Prelude.{
  ℕ, ◌-◌, String, Bool, true, false, not, ◌&&◌, ◌||◌, Option, none, some, List, [], ◌∷◌, ◌++◌, ◌==◌,
  leb, if◌then◌else◌, codes, map,
}
use safeops.Json.{Json, Items, Fields, str, obj, nil, cons, end, field, get}
use safeops.Json.Decimal.{is_space, strip, lower_ascii}

-- `c.lower()`. Beyond ASCII only the two characters are mapped whose lower case has ASCII letters;
-- any other stays outside ASCII, where no phrase of the configuration can match it.
abbrev lower : ℕ → List ℕ
lower c =
    if c == 0x212a then b'k' ∷ [] else if c == 0x130 then b'i' ∷ 0x307 ∷ [] else lower_ascii c ∷ []

lower_all : List ℕ → List ℕ
lower_all [] = []
lower_all (c ∷ cs) = lower c ++ lower_all cs

-- `re.sub(r"\s+", " ", text)`; the first argument says that the character before was a space.
unfoldable pub collapse : Bool → List ℕ → List ℕ
collapse after_space [] = []
collapse after_space (c ∷ cs) =
    let rest = collapse (is_space c) cs in
    if is_space c then (if after_space then rest else 32 ∷ rest) else c ∷ rest

unfoldable pub normalize : List ℕ → List ℕ
unfolding lower_all collapse strip
normalize text = lower_all (strip (collapse false text))

-- `c.upper()` beyond ASCII, where the result can be part of the word TRUSTED.
abbrev upper : ℕ → List ℕ
upper c =
    if c == 0x17f
    then b'S' ∷ []
    else if c == 0xfb05 || c == 0xfb06
    then b'S' ∷ b'T' ∷ []
    else if leb 97 c && leb c 122
    then (c - 32) ∷ []
    else c ∷ []

upper_all : List ℕ → List ℕ
upper_all [] = []
upper_all (c ∷ cs) = upper c ++ upper_all cs

abbrev same_text : List ℕ → List ℕ → Bool
same_text [] [] = true
same_text (a ∷ xs) (b ∷ ys) = a == b && same_text xs ys
same_text _ _ = false

-- `str(label).upper() == "TRUSTED"`: the text of any value but a string is another one.
is_trusted : Option Json → Bool
unfolding upper_all
is_trusted (some (str label)) = same_text (upper_all (codes label)) (codes "TRUSTED")
is_trusted _ = false

-- The text of one source, unless it is labelled as trusted. A missing label is untrusted.
abbrev source_text : Option Json → Bool → List (List ℕ)
source_text (some (str content)) false = normalize (codes content) ∷ []
source_text _ _ = []

unfoldable pub untrusted_text : Items → List (List ℕ)
unfolding is_trusted
untrusted_text nil = []
untrusted_text (cons (obj source) rest) =
    source_text (get "content" source) (is_trusted (get "trust" source)) ++ untrusted_text rest
untrusted_text (cons _ rest) = untrusted_text rest

string_values : Fields → List String
string_values end = []
string_values (field k (str s) rest) = s ∷ string_values rest
string_values (field k _ rest) = string_values rest

-- `" ".join(parts)`
join : List String → List ℕ
join [] = []
join (s ∷ []) = codes s
join (s ∷ t ∷ rest) = codes s ++ 32 ∷ join (t ∷ rest)

unfoldable pub argument_text : Fields → List ℕ
unfolding string_values join normalize
argument_text arguments = normalize (join (string_values arguments))

-- `_normalize(tool_name.replace("_", " "))`
unfoldable pub tool_words : String → List ℕ
unfolding normalize
tool_words name = normalize (map (λ c. if c == b'_' then 32 else c) (codes name))
