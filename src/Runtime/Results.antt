-- ===== src/Runtime/Results.antt =====
-- `RuntimeResult`, and the JSON in which the runtime keeps a result of the gateway.
use safeops.Prelude.{ℕ, String, Option, none, some, List, [], ◌∷◌, append_text}
use safeops.Json.{Json, Items, Fields, null, str, obj, arr, nil, cons, end, field}
use safeops.Model.Uuid.{Uuid, uuid_text}
use safeops.Model.Enums.{ExecutionStatus, status_text, level_text, IncidentType}
use safeops.Model.Rows.{Execution}
use safeops.Gateway.Tooling.{
  GatewayStatus, GatewayResult, RiskSummary, executed, blocked, requires_approval, failed,
  number_json,
}
use safeops.Gateway.Escalate.{incident_text}

pub data RuntimeStatus : Type 0 where
  not_found created noop conflict cancelled ended_failed ended_completed : RuntimeStatus
  call_executed call_waiting call_blocked : RuntimeStatus

-- An execution's status is `none` where the source says UNKNOWN.
pub record RuntimeResult : Type 0 where
  pub status : RuntimeStatus
  pub execution_status : Option ExecutionStatus
  pub execution_id : Option Uuid
  pub reason : Option String
  pub tool_name : Option String
  pub approval_request_id : Option Uuid
  pub step_sequence : Option ℕ

abbrev pub bare_result : RuntimeStatus → Option ExecutionStatus → Option String → RuntimeResult
bare_result status execution_status reason = record {
  status = status;
  execution_status = execution_status;
  execution_id = none;
  reason = reason;
  tool_name = none;
  approval_request_id = none;
  step_sequence = none;
}

abbrev pub missing : String → RuntimeResult
missing what = bare_result not_found none (some what)

abbrev pub noop_result : Execution → String → RuntimeResult
noop_result x reason = bare_result noop (some x.status) (some reason)

-- `_conflict_result`
abbrev pub conflict_result : Execution → RuntimeResult
conflict_result x =
    bare_result conflict (some x.status)
      (some "Another step is already in progress for this execution")

-- `f"Execution is {execution.status.value}, {what}"`
abbrev pub status_reason : ExecutionStatus → String → String
status_reason status what =
    append_text "Execution is " (append_text (status_text status) (append_text ", " what))

abbrev pub text_or_null : Option String → Json
text_or_null none = null
text_or_null (some s) = str s

abbrev pub id_or_null : Option Uuid → Json
id_or_null none = null
id_or_null (some id) = str (uuid_text id)

abbrev pub fields_or_null : Option Fields → Json
fields_or_null none = null
fields_or_null (some fs) = obj fs

abbrev pub gateway_text : GatewayStatus → String
gateway_text executed = "EXECUTED"
gateway_text blocked = "BLOCKED"
gateway_text requires_approval = "REQUIRES_APPROVAL"
gateway_text failed = "FAILED"

abbrev pub signal_items : List IncidentType → Items
signal_items [] = nil
signal_items (s ∷ ss) = cons (str (incident_text s)) (signal_items ss)

abbrev pub dump_risk : Option RiskSummary → Fields
dump_risk none = field "risk_score" null (field "risk_level" null (field "risk_signals" null end))
dump_risk (some r) = field "risk_score" (number_json r.risk_score) (
    field "risk_level" (str (level_text r.risk_level))
      (field "risk_signals" (arr (signal_items r.risk_signals)) end))

-- `result.model_dump()`
unfoldable pub dump_result : GatewayResult → Fields
dump_result r = field "status" (str (gateway_text r.status)) (
    field "tool_name" (str r.tool_name) (
      field "tool_result" (fields_or_null r.tool_result) (
        field "decision" (text_or_null r.decision) (
          field "reason" (text_or_null r.reason) (
            field "matched_policy" (text_or_null r.matched_policy) (
              field "policy_id" (id_or_null r.policy_id) (
                field "approval_request_id" (id_or_null r.approval_request_id)
                  (dump_risk r.risk))))))))
