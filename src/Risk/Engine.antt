-- ===== src/Risk/Engine.antt =====
-- apps/api/app/services/risk_engine.py: the detectors' matches are weighed into a score, a level
-- and a recommendation, which is joined with the policy's decision.
pub mod Decisions
pub mod Loop
pub mod Totality
use safeops.Prelude.{
  ℕ, ◌+◌, min, max, String, Bool, true, false, not, ◌&&◌, ◌||◌, Option, none, some, List, [], ◌∷◌,
  ◌++◌, ltb, leb, if◌then◌else◌, any,
}
use safeops.Json.{Json, Items, Fields, obj, arr, nil, get}
use safeops.Model.Uuid.{Uuid}
use safeops.Model.Enums.{RiskLevel, PolicyAction, IncidentType}
use safeops.Risk.Config.{Signal, signal_weight, risk_level_bands, medium_require_approval_threshold}
use safeops.Risk.Signals.{
  Indicator, SignalMatch, DetectionInput, Detection, crashed, quiet, found, Detector, detectors,
  financial_risk_weight,
}

-- `_SEVERITY_ORDER`
abbrev pub severity : PolicyAction → ℕ
severity PolicyAction.allow = 0
severity PolicyAction.require_approval = 1
severity PolicyAction.block = 2

-- `max(policy, risk, key=severity)`: the first of two equals.
unfoldable pub combine_decisions : PolicyAction → PolicyAction → PolicyAction
combine_decisions policy risk = if ltb (severity policy) (severity risk) then risk else policy

level_in : ℕ → List (ℕ × RiskLevel) → RiskLevel
level_in score [] = RiskLevel.critical
level_in score ((ceiling, level) ∷ bands) =
    if leb score ceiling then level else level_in score bands

unfoldable pub risk_level_for_score : ℕ → RiskLevel
unfolding level_in
risk_level_for_score score = level_in score risk_level_bands

unfoldable pub recommended_action_for : ℕ → RiskLevel → PolicyAction
recommended_action_for score RiskLevel.low = PolicyAction.allow
recommended_action_for score RiskLevel.medium =
    if leb medium_require_approval_threshold score
    then PolicyAction.require_approval
    else PolicyAction.allow
recommended_action_for score RiskLevel.high = PolicyAction.require_approval
recommended_action_for score RiskLevel.critical = PolicyAction.block

-- The `context` of a result; the gateway's own fallback result has an empty one.
pub record RiskContext : Type 0 where
  pub tool_name : String
  pub agent_id : Uuid
  pub indicators : List (Signal × Indicator)

pub record RiskAssessmentResult : Type 0 where
  pub risk_score : ℕ
  pub risk_level : RiskLevel
  pub signals : List Signal
  pub reason_codes : List String
  pub recommended_action : PolicyAction
  pub context : Option RiskContext

-- The variables of the loop over the detectors. Each detector has a signal of its own, so a write
-- to the dictionary `indicators` adds an entry.
pub record Findings : Type 0 where
  pub signals : List Signal
  pub reason_codes : List String
  pub indicators : List (Signal × Indicator)
  pub score : ℕ
  pub assessment_failed : Bool

abbrev pub no_findings : Findings
no_findings = record {
  signals = [];
  reason_codes = [];
  indicators = [];
  score = 0;
  assessment_failed = false;
}

abbrev pub same_signal : Signal → Signal → Bool
same_signal IncidentType.prompt_injection IncidentType.prompt_injection = true
same_signal IncidentType.data_exfiltration IncidentType.data_exfiltration = true
same_signal IncidentType.scope_deviation IncidentType.scope_deviation = true
same_signal IncidentType.sensitive_data_access IncidentType.sensitive_data_access = true
same_signal IncidentType.privilege_escalation IncidentType.privilege_escalation = true
same_signal IncidentType.destructive_action IncidentType.destructive_action = true
same_signal IncidentType.external_communication IncidentType.external_communication = true
same_signal IncidentType.financial_risk IncidentType.financial_risk = true
same_signal IncidentType.unusual_tool_sequence IncidentType.unusual_tool_sequence = true
same_signal _ _ = false

abbrev pub has_signal : Signal → List Signal → Bool
has_signal s = any (same_signal s)

-- The weight of a match; `none` is an exception that the loop does not catch.
abbrev pub match_weight : DetectionInput → Signal → Option ℕ
match_weight inp IncidentType.financial_risk = financial_risk_weight inp
match_weight inp s = some (signal_weight s)

abbrev pub add_found : SignalMatch → Findings → ℕ → Findings
add_found m f weight = record {
  signals = f.signals ++ m.signal ∷ [];
  reason_codes = f.reason_codes ++ m.reason_code ∷ [];
  indicators = f.indicators ++ (m.signal, m.indicator) ∷ [];
  score = f.score + weight;
  assessment_failed = f.assessment_failed;
}

abbrev pub with_weight : SignalMatch → Findings → Option ℕ → Option Findings
with_weight m f none = none
with_weight m f (some weight) = some (add_found m f weight)

-- One round of the loop.
abbrev pub record_detection : DetectionInput → Findings → Detection → Option Findings
record_detection inp f crashed = some (record f { assessment_failed = true })
record_detection inp f quiet = some f
record_detection inp f (found m) = with_weight m f (match_weight inp m.signal)

-- An exception that is not caught ends the computation.
abbrev pub and_then : {A B : Type 0} → Option A → (A → Option B) → Option B
and_then none k = none
and_then (some a) k = k a

pub run_detectors : DetectionInput → List Detector → Findings → Option Findings
run_detectors inp [] f = some f
run_detectors inp (d ∷ ds) f = and_then (record_detection inp f (d inp)) (run_detectors inp ds)

-- `any(pair.issubset(signal_set) for pair in _HARD_BLOCK_PAIRS)`, of which there is one.
abbrev pub has_block_pair : List Signal → Bool
has_block_pair signals =
    has_signal IncidentType.prompt_injection signals
    && has_signal IncidentType.data_exfiltration signals

-- `signal_set & _HARD_BLOCK_SINGLE`
abbrev pub has_block_single : List Signal → Bool
has_block_single signals = has_signal IncidentType.privilege_escalation signals

unfoldable pub is_hard_block : List Signal → Bool
is_hard_block signals = has_block_pair signals || has_block_single signals

-- The variables `score`, `level` and `recommended_action` after the loop.
pub record Standing : Type 0 where
  pub score : ℕ
  pub level : RiskLevel
  pub recommended_action : PolicyAction

abbrev pub forced_to : ℕ → Standing
forced_to score = record {
  score = score;
  level = RiskLevel.critical;
  recommended_action = PolicyAction.block;
}

unfoldable pub scored : ℕ → Standing
unfolding risk_level_for_score recommended_action_for
scored score =
    let clamped = max 0 (min 100 score) in
    let level = risk_level_for_score clamped in
    record {
      score = clamped;
      level = level;
      recommended_action = recommended_action_for clamped level;
    }

-- The three overrides, one after another.
unfoldable pub overridden : Findings → Standing
unfolding scored
overridden f =
    let s = scored f.score in
    let s' = if has_block_pair f.signals then forced_to (max s.score 100) else s in
    let s'' = if has_block_single f.signals then forced_to (max s'.score 100) else s' in
    if f.assessment_failed then forced_to 100 else s''

-- What follows the loop: the clamp, the bands, the hard blocks and the failed assessment.
unfoldable pub conclude : String → Uuid → Findings → RiskAssessmentResult
unfolding overridden
conclude tool_name agent_id f =
    let s = overridden f in
    record {
      risk_score = s.score;
      risk_level = s.level;
      signals = f.signals;
      reason_codes =
          if f.assessment_failed
          then f.reason_codes ++ "RISK_ASSESSMENT_ERROR" ∷ []
          else f.reason_codes;
      recommended_action = s.recommended_action;
      context =
          some (record { tool_name = tool_name; agent_id = agent_id; indicators = f.indicators });
    }

-- `context if isinstance(context, dict) else {}`, then its `sources` if those are a list.
abbrev list_or_empty : Option Json → Items
list_or_empty (some (arr sources)) = sources
list_or_empty _ = nil

abbrev pub sources_of : Option Json → Items
sources_of (some (obj context)) = list_or_empty (get "sources" context)
sources_of _ = nil

-- `none` stands for an exception that leaves `assess`.
unfoldable pub assess :
    Uuid
    → String
    → String
    → Option (List String)
    → Fields
    → Option Json
    → Option RiskAssessmentResult
unfolding run_detectors conclude
assess agent_id objective tool_name prior_tools arguments context =
    and_then
      (run_detectors
        (record {
          tool_name = tool_name;
          arguments = arguments;
          objective = objective;
          sources = sources_of context;
          prior_tools = prior_tools;
        })
        detectors no_findings)
      (λ f. some (conclude tool_name agent_id f))
