-- ===== src/External/Request.antt =====
-- A submitted action, its canonical payload (core/canonical.py), and the answer to it.
--
-- The digest of the payload's JSON text is a parameter.
use safeops.Prelude.{
  String, Bool, true, false, Option, none, some, List, [], ◌∷◌, ◌==◌, ◌&&◌, str_eq, find,
  append_text, if◌then◌else◌,
}
use safeops.Json.{Json, Items, Fields, null, str, arr, obj, nil, cons, end, field}
use safeops.Model.Uuid.{Uuid, uuid_text}
use safeops.Model.Enums.{IntegrationType, ExternalActionStatus}
use safeops.Model.Rows.{ExternalActionRequest}
use safeops.Planner.{untrusted, Source}

-- `SourceInput`: no trust is declared.
pub record SourceInput : Type 0 where
  pub kind : String
  pub content : String

pub record SubmitActionRequest : Type 0 where
  pub integration_type : IntegrationType
  pub external_request_id : String
  pub external_agent_id : Option String
  pub safeops_agent_id : Uuid
  pub execution_id : Option Uuid
  pub tool_name : String
  pub arguments : Fields
  pub objective : Option String
  pub sources : List SourceInput

-- `hashlib.sha256(json.dumps(value, sort_keys=True, ...))`
abbrev pub Digest : Type 0
Digest = Json → String

abbrev pub normalize_sources : List SourceInput → List Source
normalize_sources [] = []
normalize_sources (s ∷ ss) =
    record { kind = s.kind; trust = untrusted; content = s.content } ∷ normalize_sources ss

abbrev pub plain_sources : List SourceInput → Items
plain_sources [] = nil
plain_sources (s ∷ ss) =
    cons (obj (field "type" (str s.kind) (field "content" (str s.content) end))) (plain_sources ss)

abbrev pub uuid_or_null : Option Uuid → Json
uuid_or_null none = null
uuid_or_null (some id) = str (uuid_text id)

abbrev pub text_or_null : Option String → Json
text_or_null none = null
text_or_null (some s) = str s

-- `hash_external_action_payload`
unfoldable pub canonical_payload : SubmitActionRequest → Json
canonical_payload r = obj (
    field "safeops_agent_id" (str (uuid_text r.safeops_agent_id)) (
      field "execution_id" (uuid_or_null r.execution_id) (
        field "tool_name" (str r.tool_name) (
          field "arguments" (obj r.arguments) (
            field "objective" (text_or_null r.objective)
              (field "sources" (arr (plain_sources r.sources)) end))))))

-- `request.objective or f"External action: {request.tool_name}"`
abbrev pub objective_of : SubmitActionRequest → String
objective_of r = elim r.objective [
  | none ↦ append_text "External action: " r.tool_name
  | some text ↦ if str_eq text "" then append_text "External action: " r.tool_name else text
]

pub data ActionStatus : Type 0 where
  executed requires_approval blocked failed processing : ActionStatus

pub record ActionResponse : Type 0 where
  pub status : ActionStatus
  pub code : Option String
  pub message : String
  pub external_request_id : String
  pub execution_id : Uuid
  pub approval_request_id : Option Uuid
  pub result : Option Json

abbrev pub is_terminal : ExternalActionStatus → Bool
is_terminal ExternalActionStatus.executed = true
is_terminal ExternalActionStatus.blocked = true
is_terminal ExternalActionStatus.failed = true
is_terminal status = false

abbrev pub response_status : ExternalActionStatus → ActionStatus
response_status ExternalActionStatus.executed = executed
response_status ExternalActionStatus.waiting_approval = requires_approval
response_status ExternalActionStatus.blocked = blocked
response_status ExternalActionStatus.failed = failed
response_status status = processing

abbrev pub response_message : ExternalActionStatus → String
response_message ExternalActionStatus.executed = "Action executed."
response_message ExternalActionStatus.waiting_approval = "Human approval required."
response_message ExternalActionStatus.blocked = "Action blocked by SafeOps."
response_message ExternalActionStatus.failed = "Action failed."
response_message status = "Action is still processing."

-- `_to_action_response`
unfoldable pub to_action_response : ExternalActionRequest → ActionResponse
to_action_response e = record {
  status = response_status e.status;
  code = e.error_code;
  message = response_message e.status;
  external_request_id = e.external_request_id;
  execution_id = e.execution_id;
  approval_request_id = e.approval_request_id;
  result = e.result_summary;
}

-- `_find_existing`
unfoldable pub find_existing :
    Uuid → String → List ExternalActionRequest → Option ExternalActionRequest
find_existing operator_id external_request_id =
    find (λ e. e.operator_id == operator_id && str_eq e.external_request_id external_request_id)
