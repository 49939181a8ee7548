-- ===== src/Model/Db.antt =====
-- The database as the services see it: its tables, what other writers are about to commit, and the
-- rows that a transaction adds.
--
-- `world` holds the tables that the tools themselves read and write. `clock` is the current time in
-- seconds and `next_id` the supply of fresh UUIDs. `rivals` is a schedule of other transactions:
-- each attempt to commit meets the next one.
use safeops.Prelude.{
  ℕ, Bool, true, false, ◌&&◌, Option, none, some, List, [], ◌∷◌, ◌++◌, ◌==◌, if◌then◌else◌, any,
  str_eq,
}
use safeops.Model.Uuid.{Uuid}
use safeops.Model.Enums.{ExecutionStatus, ApprovalStatus}
use safeops.Model.Rows.{
  Agent, Tool, Policy, AgentToolPermission, Execution, ToolRequest, PolicyDecision, RiskAssessment,
  SecurityIncident, ApprovalRequest, AuditEvent, ExecutionStep, IntegrationAgentMapping,
  ExternalActionRequest,
}

-- Another writer's transaction: the audit events that it adds, the statuses to which it moves an
-- execution and an approval request, the steps and external requests that it adds, and a lease that
-- it takes (with its claim and the time) or frees.
pub record Rival : Type 0 where
  pub events : List AuditEvent
  pub moves : Option (Uuid × ExecutionStatus)
  pub resolves : Option (Uuid × ApprovalStatus)
  pub steps : List ExecutionStep
  pub leases : Option (Uuid × Option (Uuid × ℕ))
  pub externals : List ExternalActionRequest

pub record Db (W : Type 0) : Type 0 where
  pub agents : List Agent
  pub tools : List Tool
  pub permissions : List AgentToolPermission
  pub policies : List Policy
  pub executions : List Execution
  pub tool_requests : List ToolRequest
  pub policy_decisions : List PolicyDecision
  pub risk_assessments : List RiskAssessment
  pub incidents : List SecurityIncident
  pub approvals : List ApprovalRequest
  pub steps : List ExecutionStep
  pub mappings : List IntegrationAgentMapping
  pub externals : List ExternalActionRequest
  pub events : List AuditEvent
  pub world : W
  pub clock : ℕ
  pub next_id : ℕ
  pub rivals : List Rival

-- What `db.add` is given in `commit_chunk`.
pub data Row : Type 0 where
  audit_event : AuditEvent → Row
  tool_request : ToolRequest → Row
  policy_decision : PolicyDecision → Row
  risk_assessment : RiskAssessment → Row
  security_incident : SecurityIncident → Row
  approval_request : ApprovalRequest → Row

-- A row with the same key is written over; otherwise the row is new.
abbrev pub upsert : {A : Type 0} → (A → Uuid) → A → List A → List A
upsert key a [] = a ∷ []
upsert key a (x ∷ xs) = if key x == key a then a ∷ xs else x ∷ upsert key a xs

-- The unique constraint on (execution_id, sequence).
abbrev pub clashes : AuditEvent → AuditEvent → Bool
clashes e f = e.execution_id == f.execution_id && e.sequence == f.sequence

-- The audit events of a transaction are inserted, unless one of them clashes.
unfoldable pub insert_events : List AuditEvent → List AuditEvent → Option (List AuditEvent)
insert_events [] table = some table
insert_events (e ∷ es) table =
    let rest = insert_events es (table ++ e ∷ []) in if any (clashes e) table then none else rest

abbrev pub events_of : List Row → List AuditEvent
events_of [] = []
events_of (audit_event e ∷ rows) = e ∷ events_of rows
events_of (tool_request r ∷ rows) = events_of rows
events_of (policy_decision r ∷ rows) = events_of rows
events_of (risk_assessment r ∷ rows) = events_of rows
events_of (security_incident r ∷ rows) = events_of rows
events_of (approval_request r ∷ rows) = events_of rows

abbrev pub set_status : Uuid → ExecutionStatus → List Execution → List Execution
set_status id status [] = []
set_status id status (x ∷ xs) =
    (if x.id == id then record x { status = status } else x) ∷ set_status id status xs

abbrev pub move_status : Option (Uuid × ExecutionStatus) → List Execution → List Execution
move_status none xs = xs
move_status (some (id, status)) xs = set_status id status xs

-- An update of the row with this key.
abbrev pub amend : {A : Type 0} → (A → Uuid) → Uuid → (A → A) → List A → List A
amend key id f [] = []
amend key id f (x ∷ xs) = (if key x == id then f x else x) ∷ amend key id f xs

abbrev pub resolve_status :
    Option (Uuid × ApprovalStatus) → List ApprovalRequest → List ApprovalRequest
resolve_status none xs = xs
resolve_status (some (id, status)) xs = amend (λ x. x.id) id (λ x. record x { status = status }) xs

-- The unique constraint on (execution_id, sequence) of steps.
abbrev pub same_place : ExecutionStep → ExecutionStep → Bool
same_place a b = a.execution_id == b.execution_id && a.sequence == b.sequence

-- A step whose place is taken is not inserted.
abbrev pub add_steps : List ExecutionStep → List ExecutionStep → List ExecutionStep
add_steps [] table = table
add_steps (s ∷ ss) table =
    add_steps ss (if any (same_place s) table then table else table ++ s ∷ [])

-- The unique constraint on (operator_id, external_request_id).
abbrev pub same_request : ExternalActionRequest → ExternalActionRequest → Bool
same_request a b =
    a.operator_id == b.operator_id && str_eq a.external_request_id b.external_request_id

abbrev pub add_externals :
    List ExternalActionRequest → List ExternalActionRequest → List ExternalActionRequest
add_externals [] table = table
add_externals (e ∷ es) table =
    add_externals es (if any (same_request e) table then table else table ++ e ∷ [])

abbrev pub set_lease : Option (Uuid × ℕ) → Execution → Execution
set_lease none x = record x {
  stepping = false;
  stepping_claim_id = none;
  stepping_claimed_at = none;
}
set_lease (some (claim, time)) x = record x {
  stepping = true;
  stepping_claim_id = some claim;
  stepping_claimed_at = some time;
}

abbrev pub move_lease : Option (Uuid × Option (Uuid × ℕ)) → List Execution → List Execution
move_lease none xs = xs
move_lease (some (id, lease)) xs = amend (λ x. x.id) id (set_lease lease) xs

module _ {W : Type 0} where
  -- One row other than an audit event.
  abbrev pub write_row : Row → Db W → Db W
  write_row (audit_event e) db = db
  write_row (tool_request r) db = record db {
    tool_requests = upsert (λ x. x.id) r db.tool_requests;
  }
  write_row (policy_decision r) db = record db { policy_decisions = db.policy_decisions ++ r ∷ [] }
  write_row (risk_assessment r) db = record db { risk_assessments = db.risk_assessments ++ r ∷ [] }
  write_row (security_incident r) db = record db { incidents = db.incidents ++ r ∷ [] }
  write_row (approval_request r) db = record db { approvals = upsert (λ x. x.id) r db.approvals }

  unfoldable pub write_rows : List Row → Db W → Db W
  write_rows [] db = db
  write_rows (r ∷ rows) db = write_rows rows (write_row r db)

  abbrev pub or_clash : Option (List AuditEvent) → (List AuditEvent → Db W) → Option (Db W)
  or_clash none k = none
  or_clash (some events) k = some (k events)

  -- `db.commit()` of the added rows; `none` is the IntegrityError of the unique constraint.
  unfoldable pub commit_rows : List Row → Db W → Option (Db W)
  unfolding insert_events write_rows
  commit_rows rows db =
      or_clash (insert_events (events_of rows) db.events)
        (λ events. record (write_rows rows db) { events = events })

  abbrev pub settle_rival : Rival → Option (List AuditEvent) → Db W → Db W
  settle_rival r none db = db
  settle_rival r (some events) db = record db {
    events = events;
    executions = move_lease r.leases (move_status r.moves db.executions);
    steps = add_steps r.steps db.steps;
    externals = add_externals r.externals db.externals;
    approvals = resolve_status r.resolves db.approvals;
  }

  abbrev pub interfere_with : List Rival → Db W → Db W
  interfere_with [] db = db
  interfere_with (r ∷ rs) db =
      settle_rival r (insert_events r.events db.events) (record db { rivals = rs })

  -- The next rival transaction commits, or fails by the same constraint.
  unfoldable pub interfere : Db W → Db W
  unfolding insert_events
  interfere db = interfere_with db.rivals db
