-- ===== src/Risk/Signals.antt =====
-- apps/api/app/services/risk_signals.py: the detectors, in the order in which they run.
use safeops.Prelude.{
  ℕ, String, Bool, true, false, not, Option, none, some, List, [], ◌∷◌, str_eq, if◌then◌else◌, find,
  any, codes, contains, elem_text,
}
use safeops.Model.Enums.{IncidentType}
use safeops.Json.{Json, Items, Fields, num, str, get}
use safeops.Json.Decimal
use safeops.Json.Decimal.{Number, number_le}
use safeops.Risk.Config.{
  Signal, Band, financial_risk_bands, financial_risk_above_max, prompt_injection_phrases,
  privilege_escalation_phrases, data_exfiltration_phrases, sensitive_data_keywords,
  destructive_action_keywords, external_communication_keywords, data_export_tools,
  external_communication_tools, tool_category, objective_category_keywords,
  customer_data_read_tools,
}
use safeops.Risk.Normal.{untrusted_text, argument_text, tool_words, normalize}
use safeops.Risk.Normal.Email.{email_like}

-- What an indicator says: a phrase of the configuration or a tool's name, an amount, or the
-- categories that the objective implies.
pub data Indicator : Type 0 where
  text : String → Indicator
  amount : Number → Indicator
  outside : String → List String → Indicator

pub record SignalMatch : Type 0 where
  pub signal : Signal
  pub reason_code : String
  pub indicator : Indicator

-- `prior_tools` holds the tool names of the execution's earlier tool requests; `none` stands for a
-- query that raises.
pub record DetectionInput : Type 0 where
  pub tool_name : String
  pub arguments : Fields
  pub objective : String
  pub sources : Items
  pub prior_tools : Option (List String)

-- A detector raises, returns None, or returns a match.
pub data Detection : Type 0 where
  crashed quiet : Detection
  found : SignalMatch → Detection

abbrev pub match : Signal → String → Indicator → Detection
match s code i = found (record { signal = s; reason_code = code; indicator = i })

-- `for text in texts: for phrase in phrases: if phrase in text`
unfoldable pub first_phrase : List String → List (List ℕ) → Option String
first_phrase phrases [] = none
first_phrase phrases (t ∷ ts) = elim (find (λ p. contains (codes p) t) phrases) [
  | some p ↦ some p
  | none ↦ first_phrase phrases ts
]

abbrev pub on_phrase : Signal → String → Option String → Detection
on_phrase s code none = quiet
on_phrase s code (some p) = match s code (text p)

unfoldable pub detect_prompt_injection : DetectionInput → Detection
unfolding first_phrase
detect_prompt_injection inp =
    on_phrase IncidentType.prompt_injection "INJECTION_PHRASE_MATCH"
      (first_phrase prompt_injection_phrases (untrusted_text inp.sources))

unfoldable pub detect_privilege_escalation : DetectionInput → Detection
unfolding first_phrase
detect_privilege_escalation inp =
    on_phrase IncidentType.privilege_escalation "ESCALATION_PHRASE_MATCH"
      (first_phrase privilege_escalation_phrases (untrusted_text inp.sources))

unfoldable pub detect_data_exfiltration : DetectionInput → Detection
unfolding first_phrase
detect_data_exfiltration inp =
    if elem_text inp.tool_name data_export_tools
    then match IncidentType.data_exfiltration "DATA_EXPORT_TOOL" (text inp.tool_name)
    else on_phrase IncidentType.data_exfiltration "EXFILTRATION_PHRASE_MATCH"
        (first_phrase data_exfiltration_phrases (untrusted_text inp.sources))

-- The categories whose keywords occur in the objective, in sorted order.
implied_from : List ℕ → List (String × List String) → List String
implied_from objective [] = []
implied_from objective ((category, keywords) ∷ rest) =
    let later = implied_from objective rest in
    if any (λ k. contains (codes k) objective) keywords then category ∷ later else later

unfoldable pub implied_categories : String → List String
unfolding implied_from
implied_categories objective =
    implied_from (normalize (codes objective)) objective_category_keywords

-- The tool's category against those that the objective implies.
abbrev pub scope_match : String → Option String → List String → Detection
scope_match tool none implied = quiet
scope_match tool (some category) [] = quiet
scope_match tool (some category) (c ∷ cs) =
    if elem_text category (c ∷ cs)
    then quiet
    else match IncidentType.scope_deviation "TOOL_OUTSIDE_OBJECTIVE_SCOPE" (outside tool (c ∷ cs))

unfoldable pub detect_scope_deviation : DetectionInput → Detection
detect_scope_deviation inp =
    scope_match inp.tool_name (tool_category inp.tool_name) (implied_categories inp.objective)

-- `Decimal(str(raw_amount))` of an argument that is there and not None; the text of a boolean, a
-- list or an object is no number.
abbrev pub amount_of : Option Json → Option Number
amount_of (some (num n)) = some n
amount_of (some (str s)) = Decimal.parse s
amount_of _ = none

-- One comparison with a threshold: it holds, it does not, or it raises.
abbrev pub on_le {ℓ} : {A : Type ℓ} → Option Bool → A → A → A → A
on_le none hit miss crash = crash
on_le (some true) hit miss crash = hit
on_le (some false) hit miss crash = miss

-- The first band that an amount fits, with what the last one is followed by. A NaN raises in the
-- comparison.
abbrev pub first_band {ℓ} : {A : Type ℓ} → Number → (Band → A) → A → A → List Band → A
first_band n on_band above crash [] = above
first_band n on_band above crash (b ∷ bs) =
    on_le (number_le n b.0) (on_band b) (first_band n on_band above crash bs) crash

abbrev pub amount_detection : Option Number → Detection
amount_detection none = quiet
amount_detection (some n) =
    first_band n (λ b. match IncidentType.financial_risk b.1 (amount n))
      (match IncidentType.financial_risk "AMOUNT_ABOVE_MAX_BAND" (amount n)) crashed
      financial_risk_bands

unfoldable pub detect_financial_risk : DetectionInput → Detection
detect_financial_risk inp =
    if not (str_eq inp.tool_name "refund_payment")
    then quiet
    else amount_detection (amount_of (get "amount" inp.arguments))

abbrev pub amount_weight : Option Number → Option ℕ
amount_weight none = some 0
amount_weight (some n) =
    first_band n (λ b. some b.2) (some financial_risk_above_max) none financial_risk_bands

-- `none`: the comparison raised.
unfoldable pub financial_risk_weight : DetectionInput → Option ℕ
financial_risk_weight inp =
    if not (str_eq inp.tool_name "refund_payment")
    then some 0
    else amount_weight (amount_of (get "amount" inp.arguments))

unfoldable pub detect_sensitive_data_access : DetectionInput → Detection
unfolding first_phrase
detect_sensitive_data_access inp =
    on_phrase IncidentType.sensitive_data_access "SENSITIVE_KEYWORD_MATCH" (
      first_phrase sensitive_data_keywords
        (argument_text inp.arguments ∷ untrusted_text inp.sources))

unfoldable pub detect_destructive_action : DetectionInput → Detection
unfolding first_phrase
detect_destructive_action inp =
    on_phrase IncidentType.destructive_action "DESTRUCTIVE_KEYWORD_MATCH"
      (first_phrase destructive_action_keywords (tool_words inp.tool_name ∷ []))

unfoldable pub detect_external_communication : DetectionInput → Detection
unfolding first_phrase
detect_external_communication inp =
    if elem_text inp.tool_name external_communication_tools
    then match IncidentType.external_communication "EXTERNAL_COMMUNICATION_TOOL"
        (text inp.tool_name)
    else if email_like (argument_text inp.arguments)
    then match IncidentType.external_communication "EMAIL_LIKE_ARGUMENT" (text "argument")
    else on_phrase IncidentType.external_communication "EXTERNAL_KEYWORD_MATCH"
        (first_phrase external_communication_keywords (tool_words inp.tool_name ∷ []))

abbrev pub is_data_export : Option String → Bool
is_data_export none = false
is_data_export (some c) = str_eq c "data_export"

-- What the query for an earlier read of customer data gave.
abbrev pub on_prior_tools : String → Option (List String) → Detection
on_prior_tools tool none = crashed
on_prior_tools tool (some tools) =
    if any (λ t. elem_text t customer_data_read_tools) tools
    then match IncidentType.unusual_tool_sequence "READ_THEN_EXPORT_SEQUENCE" (text tool)
    else quiet

unfoldable pub detect_unusual_tool_sequence : DetectionInput → Detection
detect_unusual_tool_sequence inp =
    if not (is_data_export (tool_category inp.tool_name))
    then quiet
    else on_prior_tools inp.tool_name inp.prior_tools

abbrev pub Detector : Type 0
Detector = DetectionInput → Detection

abbrev pub detectors : List Detector
detectors =
    detect_prompt_injection ∷ detect_privilege_escalation ∷ detect_data_exfiltration
    ∷ detect_scope_deviation ∷ detect_financial_risk ∷ detect_sensitive_data_access
    ∷ detect_destructive_action ∷ detect_external_communication ∷ detect_unusual_tool_sequence ∷ []
