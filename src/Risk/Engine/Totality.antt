-- ===== src/Risk/Engine/Totality.antt =====
-- The weight of every match can be computed, so that no exception leaves `assess`.
use safeops.Prelude.{
  ℕ, ◌≡◌, refl, Bool, true, false, Option, none, some, List, [], ◌∷◌, inl, inr, String, str_eq,
  Bool-cases, All, elem_text, any,
}
use safeops.Json.{Fields, Json, get}
use safeops.Json.Decimal.{Number, number_le}
use safeops.Model.Uuid.{Uuid}
use safeops.Model.Enums.{IncidentType}
use safeops.Risk.Config.{
  Signal, signal_weight, tool_category, data_export_tools, external_communication_tools,
  customer_data_read_tools,
}
use safeops.Risk.Normal.{argument_text}
use safeops.Risk.Normal.Email.{email_like}
use safeops.Risk.Signals.{
  DetectionInput, Detection, crashed, quiet, found, detectors, on_phrase, financial_risk_weight,
  detect_prompt_injection, detect_privilege_escalation, detect_data_exfiltration,
  detect_scope_deviation, detect_financial_risk, detect_sensitive_data_access,
  detect_destructive_action, detect_external_communication, detect_unusual_tool_sequence, amount_of,
  scope_match, implied_categories, amount_weight, amount_detection, on_prior_tools, on_le,
  is_data_export,
}
use safeops.Risk.Engine.{no_findings, match_weight, assess, conclude, sources_of}
use safeops.Risk.Engine.Loop.{
  IsSafe, all_matches, total_weight, any_crash, findings_after, run_detectors-eq,
}

on_phrase-IsSafe :
    (inp : DetectionInput) (s : Signal) (code : String) (w : ℕ) (o : Option String)
    → match_weight inp s ≡ some w
    → IsSafe inp (on_phrase s code o)
on_phrase-IsSafe inp s code w none h = tt
on_phrase-IsSafe inp s code w (some p) h = (w, h)

module _ (inp : DetectionInput) where
  -- The detection and the weight of an amount come from the same band.
  abbrev Agree : Detection → Option ℕ → Type 0
  Agree crashed none = Unit
  Agree (found m) (some w) = m.signal ≡ IncidentType.financial_risk
  Agree _ _ = ⊥

  on_le-Agree :
      (o : Option Bool) (hit miss : Detection) (v w : Option ℕ)
      → Agree hit v
      → Agree miss w
      → Agree (on_le o hit miss crashed) (on_le o v w none)
  on_le-Agree none hit miss v w h m = tt
  on_le-Agree (some true) hit miss v w h m = h
  on_le-Agree (some false) hit miss v w h m = m

  Agree-IsSafe :
      (x : Detection) (o : Option ℕ) → Agree x o → financial_risk_weight inp ≡ o → IsSafe inp x
  Agree-IsSafe crashed none a e = tt
  Agree-IsSafe (found m) (some w) a e = (w, rw a e)
  Agree-IsSafe quiet o a e = tt
  Agree-IsSafe crashed (some w) a e = tt
  Agree-IsSafe (found m) none a e = absurd a

  amount-IsSafe :
      (o : Option Number)
      → financial_risk_weight inp ≡ amount_weight o
      → IsSafe inp (amount_detection o)
  amount-IsSafe none e = tt
  amount-IsSafe (some n) e =
      Agree-IsSafe (amount_detection (some n)) (amount_weight (some n))
        (on_le-Agree (number_le n _) _ _ _ _ refl (on_le-Agree (number_le n _) _ _ _ _ refl refl)) e

  detect_financial_risk-IsSafe : IsSafe inp (detect_financial_risk inp)
  unfolding detect_financial_risk financial_risk_weight
  detect_financial_risk-IsSafe = elim (Bool-cases (str_eq inp.tool_name "refund_payment")) [
    | inl refund ↦ rw refund (amount-IsSafe (amount_of (get "amount" inp.arguments)) (rw refund))
    | inr other ↦ rw other tt
  ]

  scope_match-IsSafe :
      (t : String) (o : Option String) (cs : List String) → IsSafe inp (scope_match t o cs)
  unfolding signal_weight
  scope_match-IsSafe t none cs = tt
  scope_match-IsSafe t (some c) [] = tt
  scope_match-IsSafe t (some c) (x ∷ xs) = elim (Bool-cases (elem_text c (x ∷ xs))) [
    | inl inside ↦ rw inside tt
    | inr outside ↦ rw outside (35, refl)
  ]

  on_prior_tools-IsSafe : (t : String) (o : Option (List String)) → IsSafe inp (on_prior_tools t o)
  unfolding signal_weight
  on_prior_tools-IsSafe t none = tt
  on_prior_tools-IsSafe t (some tools) =
      elim (Bool-cases (any (λ u. elem_text u customer_data_read_tools) tools)) [
        | inl read ↦ rw read (20, refl)
        | inr none_read ↦ rw none_read tt
      ]

  detect_data_exfiltration-IsSafe : IsSafe inp (detect_data_exfiltration inp)
  unfolding detect_data_exfiltration signal_weight
  detect_data_exfiltration-IsSafe = elim (Bool-cases (elem_text inp.tool_name data_export_tools)) [
    | inl export ↦ rw export (50, refl)
    | inr other ↦ rw other (on_phrase-IsSafe inp IncidentType.data_exfiltration _ 50 _ refl)
  ]

  detect_external_communication-IsSafe : IsSafe inp (detect_external_communication inp)
  unfolding detect_external_communication signal_weight
  detect_external_communication-IsSafe =
      elim (Bool-cases (elem_text inp.tool_name external_communication_tools)) [
        | inl tool ↦ rw tool (20, refl)
        | inr other ↦ rw other (elim (Bool-cases (email_like (argument_text inp.arguments))) [
          | inl email ↦ rw email (20, refl)
          | inr no_email ↦
              rw no_email (on_phrase-IsSafe inp IncidentType.external_communication _ 20 _ refl)
        ])
      ]

  detect_unusual_tool_sequence-IsSafe : IsSafe inp (detect_unusual_tool_sequence inp)
  unfolding detect_unusual_tool_sequence
  detect_unusual_tool_sequence-IsSafe =
      elim (Bool-cases (is_data_export (tool_category inp.tool_name))) [
        | inl export ↦ rw export (on_prior_tools-IsSafe inp.tool_name inp.prior_tools)
        | inr other ↦ rw other tt
      ]

  detectors-IsSafe : All (λ d. IsSafe inp (d inp)) detectors
  unfolding detect_prompt_injection detect_privilege_escalation detect_sensitive_data_access
      detect_destructive_action signal_weight detect_scope_deviation
  detectors-IsSafe = (
    on_phrase-IsSafe inp IncidentType.prompt_injection _ 60 _ refl,
    (
      on_phrase-IsSafe inp IncidentType.privilege_escalation _ 50 _ refl,
      (
        detect_data_exfiltration-IsSafe,
        (
          scope_match-IsSafe inp.tool_name (tool_category inp.tool_name)
              (implied_categories inp.objective),
          (
            detect_financial_risk-IsSafe,
            (
              on_phrase-IsSafe inp IncidentType.sensitive_data_access _ 35 _ refl,
              (
                on_phrase-IsSafe inp IncidentType.destructive_action _ 40 _ refl,
                (detect_external_communication-IsSafe, (detect_unusual_tool_sequence-IsSafe, tt)),
              ),
            ),
          ),
        ),
      ),
    ),
  )

-- `assess` always returns, and its result is the conclusion from what the detectors find one by
-- one: all their matches in order, the sum of the matches' weights, and whether any crashed.
pub assess_total :
    (agent_id : Uuid) (objective tool_name : String) (prior : Option (List String))
    (arguments : Fields) (context : Option Json)
    → let inp : DetectionInput = record {
      tool_name = tool_name;
      arguments = arguments;
      objective = objective;
      sources = sources_of context;
      prior_tools = prior;
    } in
      assess agent_id objective tool_name prior arguments context
      ≡ some (
          conclude tool_name agent_id (
            findings_after no_findings
              (all_matches inp detectors)
              (total_weight inp detectors)
              (any_crash inp detectors)))
unfolding assess
assess_total agent_id objective tool_name prior arguments context =
    let inp : DetectionInput = record {
      tool_name = tool_name;
      arguments = arguments;
      objective = objective;
      sources = sources_of context;
      prior_tools = prior;
    } in
    rw (run_detectors-eq inp detectors no_findings (detectors-IsSafe inp))
