-- ===== src/RateLimit.antt =====
-- apps/api/app/core/rate_limit.py: one bucket of the sliding window, with times in seconds.
pub mod Bound
use safeops.Prelude.{ℕ, ◌+◌, Bool, true, false, List, [], ◌∷◌, ◌++◌, length, ltb, if◌then◌else◌}

-- `while window and now - window[0] > window_seconds: window.popleft()`; the oldest time is first.
unfoldable pub prune : ℕ → ℕ → List ℕ → List ℕ
prune window_seconds now [] = []
prune window_seconds now (t ∷ ts) =
    let rest = prune window_seconds now ts in if ltb (t + window_seconds) now then rest else t ∷ ts

-- Whether the request is let through, and the bucket after it.
unfoldable pub rate_limit : ℕ → ℕ → ℕ → List ℕ → Bool × List ℕ
unfolding prune
rate_limit max_requests window_seconds now bucket =
    let window = prune window_seconds now bucket in
    if ltb (length window) max_requests then (true, window ++ now ∷ []) else (false, window)

-- Requests at these times, one after another: the times of those that are let through.
unfoldable pub accepted : ℕ → ℕ → List ℕ → List ℕ → List ℕ
unfolding rate_limit
accepted max_requests window_seconds bucket [] = []
accepted max_requests window_seconds bucket (now ∷ later) =
    let (passed, bucket') = rate_limit max_requests window_seconds now bucket in
    let rest = accepted max_requests window_seconds bucket' later in
    if passed then now ∷ rest else rest
