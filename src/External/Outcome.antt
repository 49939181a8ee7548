-- ===== src/External/Outcome.antt =====
-- `_find_matching_step`, `_sync_from_step`, and what `_invoke_and_apply` writes into a request.
use safeops.Prelude.{
  String, Bool, true, false, ◌&&◌, Option, none, some, List, [], ◌∷◌, ◌==◌, str_eq, find,
}
use safeops.Json.{Json, Fields, str, end, field, get}
use safeops.Model.Uuid.{Uuid, uuid_text}
use safeops.Model.Enums.{StepType, StepStatus, ExternalActionStatus, external_text, AuditEventType}
use safeops.Model.Rows.{ExecutionStep, ExternalActionRequest}
use safeops.Model.Db.{Db, amend, interfere}
use safeops.Exec.{Exec, returned, pure, gets, ◌>>=◌, ◌>>◌}
use safeops.Audit.{commit_chunk}
use safeops.Gateway.Tooling.{event_row, rows_only}
use safeops.Runtime.Steps.{load_history}
use safeops.Runtime.Pending.{output_of, id_in}
use safeops.External.Request.{is_terminal}

abbrev pub is_text : String → Option Json → Bool
is_text text (some (str s)) = str_eq s text
is_text text _ = false

abbrev pub is_tool_call : StepType → Bool
is_tool_call StepType.tool_call = true
is_tool_call _ = false

abbrev pub is_settled : StepStatus → Bool
is_settled StepStatus.pending = false
is_settled _ = true

abbrev pub matches : String → ExecutionStep → Bool
matches tool_name s =
    is_tool_call s.step_type && is_text tool_name (get "tool_name" s.input) && is_settled s.status

abbrev pub or_later : ExecutionStep → Bool → Option ExecutionStep → Option ExecutionStep
or_later s own (some later) = some later
or_later s false none = none
or_later s true none = some s

-- The last of the history that matches.
abbrev pub last_matching : String → List ExecutionStep → Option ExecutionStep
last_matching tool_name [] = none
last_matching tool_name (s ∷ ss) = or_later s (matches tool_name s) (last_matching tool_name ss)

unfoldable pub find_matching_step :
    ExternalActionRequest → List ExecutionStep → Option ExecutionStep
find_matching_step e steps = last_matching e.tool_name (load_history e.execution_id steps)

abbrev pub or_old : Option Uuid → Option Uuid → Option Uuid
or_old none old = old
or_old (some id) old = some id

abbrev pub complete_if : Bool → ExecutionStep → ExternalActionRequest → ExternalActionRequest
complete_if false s e = e
complete_if true s e = record e { completed_at = s.completed_at }

-- The status of the step, as a status of the request. An id in a step's output was written by the
-- runtime, so that it parses.
abbrev pub with_step_status :
    StepStatus → ExecutionStep → ExternalActionRequest → ExternalActionRequest
with_step_status StepStatus.pending s e = e
with_step_status StepStatus.completed s e = record e {
  status = ExternalActionStatus.executed;
  result_summary = get "tool_result" (output_of s);
}
with_step_status StepStatus.waiting_approval s e = record e {
  status = ExternalActionStatus.waiting_approval;
  approval_request_id =
      or_old (id_in (get "approval_request_id" (output_of s))) e.approval_request_id;
}
with_step_status StepStatus.blocked s e = record e {
  status = ExternalActionStatus.blocked;
  error_code = some "ACTION_BLOCKED";
}
with_step_status StepStatus.failed s e = record e {
  status = ExternalActionStatus.failed;
  error_code = some "TOOL_EXECUTION_FAILED";
}

unfoldable pub synced : ExecutionStep → ExternalActionRequest → ExternalActionRequest
synced s e =
    let e' = with_step_status s.status s (record e { tool_request_id = s.tool_request_id }) in
    complete_if (is_terminal e'.status) s e'

-- `if step.status == StepStatus.COMPLETED and step.output`
abbrev pub summary_if : StepStatus → Option Fields → ExternalActionRequest → ExternalActionRequest
summary_if StepStatus.completed (some (field k v rest)) e = record e {
  result_summary = get "tool_result" (field k v rest);
}
summary_if status output e = e

-- What `_invoke_and_apply` takes from the step.
unfoldable pub applied : Option ExecutionStep → ExternalActionRequest → ExternalActionRequest
applied none e = e
applied (some s) e =
    let e' = summary_if s.status s.output (record e { tool_request_id = s.tool_request_id }) in
    complete_if (is_terminal e.status) s e'

abbrev pub same_or : ExternalActionRequest → Option ExternalActionRequest → ExternalActionRequest
same_or e none = e
same_or e (some e') = e'

abbrev pub about_request : ExternalActionRequest → Fields → Fields
about_request e rest = field "integration_principal_id" (str (uuid_text e.operator_id)) (
    field "external_request_id" (str e.external_request_id)
      (field "tool_name" (str e.tool_name) rest))

module _ {W : Type 0} where
  -- A commit of changed columns.
  unfoldable pub update_external :
      Uuid → (ExternalActionRequest → ExternalActionRequest) → Exec W Unit
  unfolding interfere
  update_external id f db =
      let db' = interfere db in
      (returned tt, record db' { externals = amend (λ e. e.id) id f db'.externals })

  abbrev pub refreshed : ExternalActionRequest → Db W → ExternalActionRequest
  refreshed e db = same_or e (find (λ x. x.id == e.id) db.externals)

  abbrev pub emit_audit : Uuid → AuditEventType → Fields → Exec W Unit
  emit_audit execution_id event_type metadata = commit_chunk execution_id (
      rows_only
        λ seq. event_row execution_id seq event_type "external-action-service" metadata ∷ [])

  -- EXTERNAL_ACTION_COMPLETED, if it is.
  abbrev pub emit_if : Bool → ExternalActionRequest → Exec W Unit
  emit_if false e = pure tt
  emit_if true e =
      emit_audit e.execution_id AuditEventType.external_action_completed
        (about_request e (field "outcome" (str (external_text e.status)) end))

  -- The columns are written, and the request is read again.
  unfoldable pub write_back :
      ExternalActionRequest
      → (ExternalActionRequest → ExternalActionRequest)
      → Exec W ExternalActionRequest
  write_back e f = do
    update_external e.id f
    e' ← gets (refreshed e)
    emit_if (is_terminal e'.status) e'
    pure e'

  abbrev pub sync_from_step :
      ExternalActionRequest → Option ExecutionStep → Exec W ExternalActionRequest
  sync_from_step e none = gets (refreshed e)
  sync_from_step e (some s) = write_back e (synced s)
