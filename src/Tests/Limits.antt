-- ===== src/Tests/Limits.antt =====
-- A rate limit of two requests in ten seconds.
use safeops.Prelude.{ℕ, ◌≤◌, ◌≡◌, refl, List, [], ◌∷◌, arith}
use safeops.RateLimit.{accepted}
use safeops.RateLimit.Bound.{count_within, accepted-bound}

abbrev times : List ℕ
times = 1 ∷ 2 ∷ 5 ∷ 12 ∷ 13 ∷ []

-- The third request is refused, the later ones find room again.
third_refused : accepted 2 10 [] times ≡ 1 ∷ 2 ∷ 12 ∷ 13 ∷ []
unfolding accepted
third_refused = refl

accepted-bound_example : count_within 2 10 (accepted 2 10 [] times) ≤ 2
accepted-bound_example =
    accepted-bound 2 10 2 times
      (ground arith, (ground arith, (ground arith, (ground arith, (ground arith, tt)))))
