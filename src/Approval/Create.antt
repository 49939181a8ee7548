-- ===== src/Approval/Create.antt =====
-- `create_approval`: a pending request that expires after fifteen minutes.
use safeops.Prelude.{ℕ, ◌+◌, ◌*◌, String, none}
use safeops.Json.{Fields}
use safeops.Model.Uuid.{Uuid}
use safeops.Model.Enums.{RiskLevel, ApprovalStatus}
use safeops.Model.Rows.{ApprovalRequest}

-- `APPROVAL_EXPIRY`, in seconds.
abbrev pub approval_expiry : ℕ
approval_expiry = 15 * 60

unfoldable pub create_approval :
    ℕ → Uuid → Uuid → Uuid → Uuid → Uuid → String → Fields → RiskLevel → String → ApprovalRequest
create_approval now approval_id execution_id agent_id tool_request_id policy_decision_id tool_name
      arguments risk_level reason =
    record {
      id = approval_id;
      execution_id = execution_id;
      agent_id = agent_id;
      tool_request_id = tool_request_id;
      policy_decision_id = policy_decision_id;
      tool_name = tool_name;
      approved_arguments = arguments;
      risk_level = risk_level;
      reason = reason;
      status = ApprovalStatus.pending;
      expires_at = now + approval_expiry;
      resolved_at = none;
      resolved_by = none;
      executed_at = none;
    }
