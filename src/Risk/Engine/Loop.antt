-- ===== src/Risk/Engine/Loop.antt =====
-- The loop over the detectors against a description without a loop.
use safeops.Prelude.{
  ℕ, ◌+◌, ◌≡◌, refl, ◌∙◌, ap, Bool, true, false, ◌||◌, none, some, List, [], ◌∷◌, ◌++◌,
  append_assoc, append-nil, arith, String, All,
}
use safeops.Risk.Config.{Signal}
use native.Mathlib.Nat.{add_assoc}
use safeops.Risk.Signals.{
  Indicator, SignalMatch, DetectionInput, Detection, crashed, quiet, found, Detector,
}
use safeops.Risk.Engine.{Findings, match_weight, record_detection, run_detectors}

-- A match whose weight can be computed.
abbrev pub IsSafe : DetectionInput → Detection → Type 0
IsSafe inp (found m) = (w : ℕ) × (match_weight inp m.signal ≡ some w)
IsSafe inp _ = Unit

-- What the detectors find in an input, read off one by one.
module _ (inp : DetectionInput) where
  abbrev pub weight_of : Detection → ℕ
  weight_of (found m) = elim (match_weight inp m.signal) [ none ↦ 0 | some w ↦ w ]
  weight_of _ = 0

  abbrev pub is_crash : Detection → Bool
  is_crash crashed = true
  is_crash _ = false

  abbrev pub matches : Detection → List SignalMatch
  matches (found m) = m ∷ []
  matches _ = []

  abbrev pub all_matches : List Detector → List SignalMatch
  all_matches [] = []
  all_matches (d ∷ ds) = matches (d inp) ++ all_matches ds

  abbrev pub total_weight : List Detector → ℕ
  total_weight [] = 0
  total_weight (d ∷ ds) = weight_of (d inp) + total_weight ds

  abbrev pub any_crash : List Detector → Bool
  any_crash [] = false
  any_crash (d ∷ ds) = is_crash (d inp) || any_crash ds

abbrev pub signals_of : List SignalMatch → List Signal
signals_of [] = []
signals_of (m ∷ ms) = m.signal ∷ signals_of ms

abbrev pub codes_of : List SignalMatch → List String
codes_of [] = []
codes_of (m ∷ ms) = m.reason_code ∷ codes_of ms

abbrev pub indicators_of : List SignalMatch → List (Signal × Indicator)
indicators_of [] = []
indicators_of (m ∷ ms) = (m.signal, m.indicator) ∷ indicators_of ms

abbrev pub findings_after : Findings → List SignalMatch → ℕ → Bool → Findings
findings_after f ms weight failed = record {
  signals = f.signals ++ signals_of ms;
  reason_codes = f.reason_codes ++ codes_of ms;
  indicators = f.indicators ++ indicators_of ms;
  score = f.score + weight;
  assessment_failed = f.assessment_failed || failed;
}

or-true : (b : Bool) → (b || true) ≡ true
or-true true = refl
or-true false = refl

or-false : (b : Bool) → (b || false) ≡ b
or-false true = refl
or-false false = refl

record_detection-eq :
    (inp : DetectionInput) (f : Findings) (x : Detection)
    → IsSafe inp x
    → record_detection inp f x
      ≡ some (findings_after f (matches inp x) (weight_of inp x) (is_crash inp x))
record_detection-eq inp f crashed h = simp (append-nil, or-true) (ground arith)
record_detection-eq inp f quiet h = simp (append-nil, or-false) (ground arith)
record_detection-eq inp f (found m) (w, e) = rw e (ground arith)

signals_of-append :
    (ms ns : List SignalMatch) → signals_of (ms ++ ns) ≡ signals_of ms ++ signals_of ns
signals_of-append [] ns = refl
signals_of-append (m ∷ ms) ns = ap (λ l. m.signal ∷ l) (signals_of-append ms ns)

codes_of-append : (ms ns : List SignalMatch) → codes_of (ms ++ ns) ≡ codes_of ms ++ codes_of ns
codes_of-append [] ns = refl
codes_of-append (m ∷ ms) ns = ap (λ l. m.reason_code ∷ l) (codes_of-append ms ns)

indicators_of-append :
    (ms ns : List SignalMatch) → indicators_of (ms ++ ns) ≡ indicators_of ms ++ indicators_of ns
indicators_of-append [] ns = refl
indicators_of-append (m ∷ ms) ns =
    ap (λ l. (m.signal, m.indicator) ∷ l) (indicators_of-append ms ns)

or_assoc : (a b c : Bool) → (a || b || c) ≡ (a || (b || c))
or_assoc true b c = refl
or_assoc false b c = refl

findings_after-append :
    (f : Findings) (ms ns : List SignalMatch) (v w : ℕ) (a b : Bool)
    → findings_after (findings_after f ms v a) ns w b ≡ findings_after f (ms ++ ns) (v + w) (a || b)
findings_after-append f ms ns v w a b =
    simp
      (signals_of-append, codes_of-append, indicators_of-append, append_assoc, add_assoc, or_assoc)

module _ (inp : DetectionInput) where
  pub run_detectors-eq :
      (ds : List Detector) (f : Findings)
      → All (λ d. IsSafe inp (d inp)) ds
      → run_detectors inp ds f
        ≡ some (findings_after f (all_matches inp ds) (total_weight inp ds) (any_crash inp ds))
  unfolding run_detectors
  run_detectors-eq [] f h = simp (append-nil, or-false) (ground arith)
  run_detectors-eq (d ∷ ds) f (h, hs) = rw (record_detection-eq inp f (d inp) h) (
      run_detectors-eq ds
        (findings_after f (matches inp (d inp)) (weight_of inp (d inp)) (is_crash inp (d inp))) hs
      ∙ ap some (findings_after-append f _ _ _ _ _ _))
