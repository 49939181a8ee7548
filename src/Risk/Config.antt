-- ===== src/Risk/Config.antt =====
-- apps/api/app/services/risk_config.py: weights, bands, phrases and tool categories.
--
-- A signal's name is one of the names of `IncidentType`, so that type stands for the names.
use safeops.Prelude.{ℕ, String, false, List, [], ◌∷◌, Option, none, some, str_eq, if◌then◌else◌}
use safeops.Model.Enums.{RiskLevel, IncidentType}
use safeops.Json.Decimal.{Decimal}

abbrev pub Signal : Type 0
Signal = IncidentType

-- `SIGNAL_WEIGHTS.get(signal, 0)`
unfoldable pub signal_weight : Signal → ℕ
signal_weight IncidentType.prompt_injection = 60
signal_weight IncidentType.data_exfiltration = 50
signal_weight IncidentType.privilege_escalation = 50
signal_weight IncidentType.destructive_action = 40
signal_weight IncidentType.sensitive_data_access = 35
signal_weight IncidentType.scope_deviation = 35
signal_weight IncidentType.external_communication = 20
signal_weight IncidentType.unusual_tool_sequence = 20
signal_weight IncidentType.financial_risk = 0

abbrev whole : ℕ → Decimal
whole n = record { neg = false; coeff = n; up = 0; down = 0 }

-- A threshold, the reason code that names it, and the weight of an amount up to it.
abbrev pub Band : Type 0
Band = Decimal × String × ℕ

abbrev pub financial_risk_bands : List Band
financial_risk_bands = (whole 100, "AMOUNT_LTE_100", 10) ∷ (whole 1000, "AMOUNT_LTE_1000", 25) ∷ []

abbrev pub financial_risk_above_max : ℕ
financial_risk_above_max = 40

abbrev pub risk_level_bands : List (ℕ × RiskLevel)
risk_level_bands =
    (29, RiskLevel.low)
    ∷ (59, RiskLevel.medium)
    ∷ (84, RiskLevel.high)
    ∷ (100, RiskLevel.critical)
    ∷ []

abbrev pub medium_require_approval_threshold : ℕ
medium_require_approval_threshold = 45

abbrev pub prompt_injection_phrases : List String
prompt_injection_phrases =
    "ignore previous instructions" ∷ "ignore all previous instructions" ∷ "reveal credentials"
    ∷ "reveal secrets" ∷ "export the database" ∷ "export the entire customer database"
    ∷ "send customer data to" ∷ "upload data to" ∷ "do not tell the user" ∷ []

abbrev pub privilege_escalation_phrases : List String
privilege_escalation_phrases =
    "bypass security" ∷ "disable safeguards" ∷ "override policy" ∷ "act as administrator" ∷ []

abbrev pub data_exfiltration_phrases : List String
data_exfiltration_phrases =
    "export the database" ∷ "export the entire customer database" ∷ "send customer data to"
    ∷ "upload data to" ∷ []

abbrev pub sensitive_data_keywords : List String
sensitive_data_keywords =
    "password" ∷ "api key" ∷ "api_key" ∷ "token" ∷ "secret" ∷ "ssn" ∷ "private key" ∷ "credential"
    ∷ []

abbrev pub destructive_action_keywords : List String
destructive_action_keywords = "delete" ∷ "drop" ∷ "destroy" ∷ "terminate" ∷ "revoke" ∷ []

abbrev pub external_communication_keywords : List String
external_communication_keywords = "email" ∷ "send" ∷ "upload" ∷ []

abbrev pub data_export_tools : List String
data_export_tools = "export_customer_data" ∷ "send_external_email" ∷ []

abbrev pub external_communication_tools : List String
external_communication_tools = "send_external_email" ∷ []

abbrev tool_categories : List (String × String)
tool_categories =
    ("read_customer", "customer_support")
    ∷ ("get_payments", "customer_support")
    ∷ ("refund_payment", "customer_support")
    ∷ ("get_support_ticket", "customer_support")
    ∷ ("read_logs", "devops")
    ∷ ("get_deployment", "devops")
    ∷ ("deploy_staging", "devops")
    ∷ ("deploy_production", "devops")
    ∷ ("export_customer_data", "data_export")
    ∷ ("send_external_email", "data_export")
    ∷ []

find_category : String → List (String × String) → Option String
find_category name [] = none
find_category name ((k, v) ∷ rest) = if str_eq k name then some v else find_category name rest

-- `TOOL_CATEGORIES.get(name)`
unfoldable pub tool_category : String → Option String
unfolding find_category
tool_category name = find_category name tool_categories

abbrev pub objective_category_keywords : List (String × List String)
objective_category_keywords =
    (
      "customer_support",
      "customer" ∷ "payment" ∷ "refund" ∷ "duplicate" ∷ "ticket" ∷ "support" ∷ [],
    )
    ∷ ("devops", "deploy" ∷ "production" ∷ "incident" ∷ "service" ∷ "staging" ∷ "outage" ∷ [])
    ∷ []

abbrev pub customer_data_read_tools : List String
customer_data_read_tools = "read_customer" ∷ "get_payments" ∷ "get_support_ticket" ∷ []
