-- ===== src/Tests/Externals.antt =====
-- Actions that an integration submits.
use safeops.Prelude.{ℕ, true, false, ◌≡◌, refl, none, some, [], ◌∷◌, str_eq}
use safeops.Json.{Json, str, end, field}
use safeops.Model.Enums.{generic, ExternalActionStatus, StepStatus, StepType}
use safeops.Model.Rows.{ExecutionStep, ExternalActionRequest}
use safeops.Model.Db.{Db}
use safeops.Exec.{Outcome, returned, raised, ◌>>=◌}
use safeops.Runtime.Steps.{load_history}
use safeops.External.Request.{
  SubmitActionRequest, Digest, ActionResponse, ActionStatus, executed, processing,
  canonical_payload, is_terminal, to_action_response, find_existing,
}
use safeops.External.Outcome.{find_matching_step, synced, update_external, write_back}
use safeops.External.Entry.{
  idempotency_conflict, require_agent_mapping, check_hash_or_conflict, replay, resolve_existing,
  submit,
}
use safeops.External.Authorized.{submit-stored}
use safeops.Tests.Fixtures.{store, registry, refund_of, agent}
use safeops.Tests.Steps.{planner, settings}

-- A digest for the tests, on which all payloads collide.
abbrev digest : Digest
digest payload = "d"

abbrev request : SubmitActionRequest
request = record {
  integration_type = generic;
  external_request_id = "req-2";
  external_agent_id = none;
  safeops_agent_id = 1;
  execution_id = some 3;
  tool_name = "issue_refund";
  arguments = refund_of 40;
  objective = none;
  sources = [];
}

-- A request that was received, and whose submission found the execution busy.
abbrev pending_request : ExternalActionRequest
pending_request = record {
  id = 70;
  operator_id = 9;
  integration_type = generic;
  external_request_id = "req-2";
  external_agent_id = none;
  safeops_agent_id = 1;
  execution_id = 3;
  tool_name = "issue_refund";
  tool_request_id = none;
  approval_request_id = none;
  payload_hash = "d";
  status = ExternalActionStatus.processing;
  result_summary = none;
  error_code = none;
  completed_at = none;
}

abbrev done_request : ExternalActionRequest
done_request = record pending_request { status = ExternalActionStatus.executed }

abbrev mapped : Db ℕ
mapped = record store { mappings = record { operator_id = 9; agent_id = 1 } ∷ [] }

abbrev answered_before : Db ℕ
answered_before = record mapped { externals = done_request ∷ [] }

submit-stored_example :
    (str_eq "d" (digest (canonical_payload request)) ≡ false
      → submit registry planner settings digest 9 request answered_before
        ≡ (raised idempotency_conflict, answered_before))
    × (str_eq "d" (digest (canonical_payload request)) ≡ true
        → is_terminal ExternalActionStatus.executed ≡ true
        → submit registry planner settings digest 9 request answered_before
          ≡ (returned (to_action_response done_request), answered_before))
unfolding find_existing
submit-stored_example =
    submit-stored registry planner settings digest 9 request answered_before agent done_request refl
      refl refl

-- The step of another request for the same tool.
abbrev other_step : ExecutionStep
other_step = record {
  id = 61;
  execution_id = 3;
  sequence = 1;
  step_type = StepType.tool_call;
  tool_request_id = none;
  status = StepStatus.completed;
  input = field "tool_name" (str "issue_refund") end;
  output = none;
  completed_at = some 990;
}

abbrev shared : Db ℕ
shared = record mapped { externals = pending_request ∷ []; steps = other_step ∷ [] }

abbrev answer : Outcome ActionResponse → ActionStatus
answer (returned r) = r.status
answer (raised e) = processing

-- A request that has not run is answered with the step of another one, as executed, and runs nothing.
answered_by_another :
    (answer (submit registry planner settings digest 9 request shared).0 ≡ executed)
    × ((submit registry planner settings digest 9 request shared).1.world ≡ 0)
unfolding submit ◌>>=◌ require_agent_mapping find_existing replay check_hash_or_conflict
    resolve_existing find_matching_step load_history safeops.Json.get write_back update_external
    synced safeops.Audit.commit_chunk safeops.Model.Db.commit_rows to_action_response
answered_by_another = (refl, refl)
