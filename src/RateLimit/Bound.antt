-- ===== src/RateLimit/Bound.antt =====
-- No window of time sees more than the permitted number of requests.
use safeops.Prelude.{
  ℕ, suc, ◌+◌, ◌≤◌, ◌<◌, ◌≡◌, refl, ap, inl, inr, ◌&&◌, List, [], ◌∷◌, ◌++◌, length, ltb, leb,
  if◌then◌else◌, arith, Bool-cases,
}
use safeops.RateLimit.{prune, rate_limit, accepted}

-- How many of the times lie in the window that begins at `from`.
abbrev pub count_within : ℕ → ℕ → List ℕ → ℕ
count_within from span [] = 0
count_within from span (t ∷ ts) =
    let rest = count_within from span ts in
    if leb from t && leb t (from + span) then suc rest else rest

-- The times do not go back.
abbrev pub IsSorted : ℕ → List ℕ → Type 0
IsSorted from [] = Unit
IsSorted from (t ∷ ts) = (from ≤ t) × IsSorted t ts

-- One more time, at the end.
count_within-snoc :
    (from span t : ℕ) (ts : List ℕ)
    → count_within from span (ts ++ t ∷ [])
      ≡ count_within from span ts + count_within from span (t ∷ [])
count_within-snoc from span t [] = ground arith
count_within-snoc from span t (x ∷ xs) = ground (arith, count_within-snoc from span t xs)

count_within-length : (from span : ℕ) (ts : List ℕ) → count_within from span ts ≤ length ts
count_within-length from span [] = ground arith
count_within-length from span (t ∷ ts) = ground (arith, count_within-length from span ts)

length-snoc : (t : ℕ) (ts : List ℕ) → length (ts ++ t ∷ []) ≡ suc (length ts)
length-snoc t [] = refl
length-snoc t (x ∷ xs) = ap suc (length-snoc t xs)

-- What is pruned is older than every window that is still open.
count_within-prune :
    (from span now : ℕ) (ts : List ℕ)
    → now ≤ from + span
    → count_within from span (prune span now ts) ≡ count_within from span ts
unfolding prune
count_within-prune from span now [] h = refl
count_within-prune from span now (t ∷ ts) h = ground (arith, count_within-prune from span now ts h)

-- A window that has closed sees nothing more.
closed :
    (from span max_requests now : ℕ) (bucket times : List ℕ)
    → from + span < now
    → IsSorted now times
    → count_within from span (accepted max_requests span bucket times) ≡ 0
unfolding accepted
closed from span max_requests now bucket [] h s = refl
closed from span max_requests now bucket (t ∷ ts) h s =
    let after = (rate_limit max_requests span t bucket).1 in
    let none_later = closed from span max_requests t after ts (ground (arith, s.0)) s.1 in
    elim (Bool-cases (rate_limit max_requests span t bucket).0) [
      | inl passed ↦ rw passed (ground (arith, none_later, s.0))
      | inr refused ↦ rw refused none_later
    ]

module _ (max_requests span from : ℕ) where
  bounded :
      (now : ℕ) (bucket times : List ℕ)
      → count_within from span bucket ≤ max_requests
      → IsSorted now times
      → count_within from span bucket
          + count_within from span (accepted max_requests span bucket times)
        ≤ max_requests
  unfolding accepted rate_limit
  bounded now bucket [] h s = ground arith
  bounded now bucket (t ∷ ts) h s = elim (Bool-cases (ltb (from + span) t)) [
    | inl late ↦
        let none_left =
          closed from span max_requests t bucket (t ∷ ts) (ground arith) (ground arith, s.1) in
        ground (arith, none_left)
    | inr still ↦
        let window = prune span t bucket in
        let same = count_within-prune from span t bucket (ground (arith, still)) in
        elim (Bool-cases (ltb (length window) max_requests)) [
          | inl passed ↦
              let more = count_within-snoc from span t window in
              let few = count_within-length from span (window ++ t ∷ []) in
              let long = length-snoc t window in
              let rest = bounded t (window ++ t ∷ []) ts (ground (arith, few, long)) s.1 in
              rw passed (ground (arith, rest, more, same))
          | inr refused ↦
              let rest = bounded t window ts (ground (arith, same, h)) s.1 in
              rw refused (ground (arith, rest, same))
        ]
  ]

-- From an empty bucket, and for times that do not go back: of the requests that are let through, at
-- most `max_requests` fall into any window of `window_seconds`.
pub accepted-bound :
    (max_requests window_seconds from : ℕ) (times : List ℕ)
    → IsSorted 0 times
    → count_within from window_seconds (accepted max_requests window_seconds [] times)
      ≤ max_requests
accepted-bound max_requests window_seconds from times sorted =
    let h = bounded max_requests window_seconds from 0 [] times (ground arith) sorted in
    ground (arith, h)
