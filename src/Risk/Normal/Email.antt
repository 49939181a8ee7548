-- ===== src/Risk/Normal/Email.antt =====
-- `re.search(r"[^\s@]+@[^\s@]+\.[^\s@]+", text)`: the search, and what it finds.
use safeops.Prelude.{ℕ, ◌≡◌, refl, Bool, true, false, not, ◌&&◌, ◌||◌, List, [], ◌∷◌, ◌==◌}
use safeops.Json.Decimal.{is_space}

-- `[^\s@]`
abbrev pub is_word : ℕ → Bool
is_word c = not (is_space c) && not (c == b'@')

-- Behind the point: at least one more character of the class.
abbrev starts_word : List ℕ → Bool
starts_word [] = false
starts_word (c ∷ cs) = is_word c

-- Behind the at sign: characters of the class, the first of them read, up to a point.
domain : Bool → List ℕ → Bool
domain read [] = false
domain read (c ∷ cs) = is_word c && ((read && (c == b'.' && starts_word cs)) || domain true cs)

-- The whole text; the flag says that the character before was of the class.
search_from : Bool → List ℕ → Bool
unfolding domain
search_from word [] = false
search_from word (c ∷ cs) = (word && (c == b'@' && domain false cs)) || search_from (is_word c) cs

unfoldable pub email_like : List ℕ → Bool
unfolding search_from
email_like text = search_from false text

email_found : email_like (b'a' ∷ 32 ∷ b'b' ∷ b'@' ∷ b'c' ∷ b'.' ∷ b'd' ∷ []) ≡ true
unfolding email_like
email_found = refl

no_domain : email_like (b'b' ∷ b'@' ∷ b'.' ∷ b'd' ∷ 32 ∷ b'.' ∷ b'c' ∷ []) ≡ false
unfolding email_like
no_domain = refl
