-- ===== src/External/Granted.antt =====
-- When a submission changes the tools' tables: by the call of its own action, for a mapped operator.
use safeops.Prelude.{suc, true, ◌≡◌, ◌⊎◌, ◌==◌, All, map, List, Option, none, some, find}
use safeops.Model.Uuid.{Uuid}
use safeops.Model.Rows.{Agent, Execution, ExternalActionRequest}
use safeops.Model.Db.{Db, interfere}
use safeops.Exec.{returned}
use safeops.Exec.Keeps.{Keeps}
use safeops.Audit.Tables.{Same}
use safeops.Audit.Invariant.{Unless}
use safeops.Gateway.Tooling.{Registry}
use safeops.Planner.{untrusted, Source, ToolAction, Planner}
use safeops.Runtime.Lease.{find_execution}
use safeops.Runtime.Advance.{Settings}
use safeops.Runtime.Authorized.{IsAuthorized}
use safeops.External.Request.{
  SourceInput, SubmitActionRequest, Digest, canonical_payload, find_existing,
}
use safeops.External.Entry.{is_mapped, execution_for}

module _ {W : Type 0} (registry : Registry W) (db : Db W) (digest : Digest) (operator_id : Uuid)
    (r : SubmitActionRequest) where
  -- A row of these requests has the operator's request id, and was made with this payload.
  abbrev pub IsStored : List ExternalActionRequest → ExternalActionRequest → Type 0
  IsStored es e =
      (find_existing operator_id r.external_request_id es ≡ some e)
      × (e.payload_hash ≡ digest (canonical_payload r))

  -- An execution that is named is stored, and is the agent's.
  abbrev pub IsOwn : Agent → Execution → Option Uuid → Type 0
  IsOwn agent y none = Unit
  IsOwn agent y (some id) = (find_execution id db.executions ≡ some y) × (y.agent_id ≡ agent.id)

  -- The tables in which the new row is inserted: the execution has been looked up or started, and an id
  -- has been drawn.
  abbrev pub before_insert : Agent → Db W
  before_insert agent =
      let m = (execution_for agent r r.execution_id db).1 in record m { next_id = suc m.next_id }

  -- The row that the submission is about: the one that is stored at the start; or, where there is none,
  -- a new one of the submitted tool and of the execution that was looked up or started, or the one that
  -- another writer inserted just before.
  abbrev pub IsSubject : Agent → ExternalActionRequest → Type 0
  IsSubject agent e =
      IsStored db.externals e
      ⊎ ((find_existing operator_id r.external_request_id db.externals ≡ none)
          × (((y : Execution) × ((execution_for agent r r.execution_id db).0 ≡ returned y)
                × IsOwn agent y r.execution_id
                × (e.execution_id ≡ y.id)
                × (e.tool_name ≡ r.tool_name))
              ⊎ IsStored (interfere (before_insert agent)).externals e))

  -- The operator is mapped to the agent, and a call is authorized that has the tool and the execution
  -- of the row, the submitted arguments, and sources of the submitted contents, every one of them
  -- untrusted.
  abbrev pub IsGranted : Type 0
  IsGranted =
      (agent : Agent) × (e : ExternalActionRequest) × (x : Execution) × (act : ToolAction) × (find
          (λ (a : Agent). a.id == r.safeops_agent_id) db.agents
        ≡ some agent)
      × (is_mapped operator_id r.safeops_agent_id db.mappings ≡ true)
      × IsSubject agent e
      × (x.id ≡ e.execution_id)
      × (act.tool_name ≡ e.tool_name)
      × (act.arguments ≡ r.arguments)
      × All (λ (s : Source). s.trust ≡ untrusted) act.sources
      × (map (λ (s : Source). s.content) act.sources
          ≡ map (λ (s : SourceInput). s.content) r.sources)
      × IsAuthorized db registry x act

module _ {W : Type 0} (registry : Registry W) (planner : Planner) (settings : Settings)
    (digest : Digest) (operator_id : Uuid) (r : SubmitActionRequest) (db : Db W) where
  abbrev Granted : Type 0
  Granted = IsGranted registry db digest operator_id r

  abbrev Holds : Db W → Type 0
  Holds = Unless Granted (Same db)
