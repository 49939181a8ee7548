-- ===== src/Risk/Engine/Decisions.antt =====
-- How scores, levels and decisions relate.
use safeops.Prelude.{
  ℕ, ◌≤◌, ◌<◌, ◌≡◌, ◌↔◌, true, false, ◌||◌, String, arith, min, ◌⊎◌, List, [], ◌∷◌, Elem,
}
use safeops.Model.Uuid.{Uuid}
use safeops.Model.Enums.{RiskLevel, PolicyAction, IncidentType}
use safeops.Risk.Config.{Signal}
use safeops.Risk.Engine.{
  same_signal, has_signal, severity, combine_decisions, risk_level_for_score,
  recommended_action_for, is_hard_block, Findings, conclude,
}

-- The combined decision is BLOCK exactly if the policy's or the risk's is, and ALLOW exactly if both
-- are; REQUIRE_APPROVAL is what is left.
pub combine_decisions_iff :
    (p r : PolicyAction)
    → ((combine_decisions p r ≡ PolicyAction.block)
        ↔ ((p ≡ PolicyAction.block) ⊎ (r ≡ PolicyAction.block)))
      × ((combine_decisions p r ≡ PolicyAction.allow)
          ↔ ((p ≡ PolicyAction.allow) × (r ≡ PolicyAction.allow)))
unfolding combine_decisions
combine_decisions_iff p r = ground arith

-- A call is allowed in the end only if both the policy and the risk assessment allow it.
pub combine_decisions-allow :
    (p r : PolicyAction)
    → combine_decisions p r ≡ PolicyAction.allow
    → (p ≡ PolicyAction.allow) × (r ≡ PolicyAction.allow)
unfolding combine_decisions
combine_decisions-allow p r h = ground arith

-- A higher score never gets a milder recommendation.
pub recommended_action_for_mono :
    (s t : ℕ)
    → s ≤ t
    → severity (recommended_action_for s (risk_level_for_score s))
      ≤ severity (recommended_action_for t (risk_level_for_score t))
unfolding recommended_action_for risk_level_for_score
recommended_action_for_mono s t h = ground arith

same_signal_iff : (s t : Signal) → (same_signal s t ≡ true) ↔ (s ≡ t)
same_signal_iff s t = ground arith

has_signal_iff : (s : Signal) (ss : List Signal) → (has_signal s ss ≡ true) ↔ Elem s ss
has_signal_iff s [] = (λ h. absurd (cc), λ m. absurd m)
has_signal_iff s (t ∷ ts) = ground (arith, same_signal_iff s t, has_signal_iff s ts)

-- A privilege escalation, a prompt injection together with an exfiltration of data, or a detector
-- that crashed.
abbrev pub IsForced : Findings → Type 0
IsForced f =
    Elem IncidentType.privilege_escalation f.signals
    ⊎ (Elem IncidentType.prompt_injection f.signals × Elem IncidentType.data_exfiltration f.signals)
    ⊎ (f.assessment_failed ≡ true)

-- Otherwise the score is the sum of the weights, at most 100, and that sum alone decides: the call
-- is allowed exactly below 45, and blocked exactly from 85.
pub conclude_scored :
    (tool_name : String) (agent_id : Uuid) (f : Findings)
    → is_hard_block f.signals || f.assessment_failed ≡ false
    → let r = conclude tool_name agent_id f in
      (r.risk_score ≡ min 100 f.score)
      × ((r.recommended_action ≡ PolicyAction.allow) ↔ (f.score < 45))
      × ((r.recommended_action ≡ PolicyAction.block) ↔ (85 ≤ f.score))
unfolding conclude is_hard_block
conclude_scored tool_name agent_id f h = ground arith

is_hard_block_iff :
    (f : Findings) → (is_hard_block f.signals || f.assessment_failed ≡ true) ↔ IsForced f
unfolding is_hard_block
is_hard_block_iff f = ground (
  arith,
  has_signal_iff IncidentType.prompt_injection f.signals,
  has_signal_iff IncidentType.data_exfiltration f.signals,
  has_signal_iff IncidentType.privilege_escalation f.signals,
)

-- A call is blocked exactly if a privilege escalation was found, or a prompt injection together with
-- an exfiltration of data, or a detector crashed, or the weights sum up to 85 or more. In the first
-- three cases the level is CRITICAL and the score 100, whatever the weights.
pub conclude_block_iff :
    (tool_name : String) (agent_id : Uuid) (f : Findings)
    → let r = conclude tool_name agent_id f in
      ((r.recommended_action ≡ PolicyAction.block) ↔ (IsForced f ⊎ (85 ≤ f.score)))
      × (IsForced f → (r.risk_level ≡ RiskLevel.critical) × (r.risk_score ≡ 100))
unfolding conclude is_hard_block
conclude_block_iff tool_name agent_id f = ground (arith, is_hard_block_iff f)
