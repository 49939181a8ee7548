-- ===== src/Runtime/Authorized.antt =====
-- When the runtime changes the tools' tables: only by a call that was authorized.
use safeops.Prelude.{◌≡◌, ◌⊎◌, inl, inr, String, Option, some, List}
use safeops.Json.{Json, arr, obj, end, field}
use safeops.Model.Uuid.{Uuid}
use safeops.Model.Rows.{Execution, ExecutionStep}
use safeops.Model.Db.{Db}
use safeops.Exec.Keeps.{Keeps}
use safeops.Audit.Tables.{Same, Same-refl, Same-trans}
use safeops.Audit.Invariant.{IsInvariant, Same-IsInvariant, Unless, Unless-IsInvariant}
use safeops.Gateway.Tooling.{Registry}
use safeops.Gateway.Authorization.{Authorized, execute-Authorized}
use safeops.Planner.{Planner, ToolAction, dump_sources}
use safeops.Runtime.Call.{call_gateway}
use safeops.Runtime.Advance.{Settings}
use safeops.Runtime.Entry.{
  step, resume, submit_external_action, start_execution, cancel, reconcile_external_step,
}
use safeops.Runtime.Keeps.Entry.{
  Chosen, step-Keeps, resume-Keeps, submit_external_action-Keeps, start_execution-Keeps,
  cancel-Keeps, reconcile_external_step-Keeps,
}

-- What an action's sources become for the gateway.
abbrev pub context_of : ToolAction → Option Json
context_of a = some (obj (field "sources" (arr (dump_sources a.sources)) end))

module _ {W : Type 0} (a : Db W) (registry : Registry W) where
  -- The call of an action for an execution is authorized, at a moment when the tools' tables and the
  -- tables that authorize a call are those of the start.
  abbrev pub IsAuthorized : Execution → ToolAction → Type 0
  IsAuthorized x act =
      (moment : Db W) × Same a moment
      × Authorized moment registry x.agent_id x.id act.tool_name act.arguments (context_of act)

  -- Such a call for the execution with this id.
  abbrev pub IsAuthorizedAt : Uuid → ToolAction → Type 0
  IsAuthorizedAt id act = (x : Execution) × (x.id ≡ id) × IsAuthorized x act

  -- The same for an action that the planner asked for.
  abbrev pub IsPlannedAt : Planner → Uuid → Type 0
  IsPlannedAt planner id =
      (x : Execution) × (act : ToolAction) × (history : List ExecutionStep) × (x.id ≡ id)
      × Chosen planner x history act
      × IsAuthorized x act

  pub call_gateway-Keeps :
      {E : Type 0} (x : Execution) (act : ToolAction)
      → (IsAuthorized x act → E)
      → Keeps (Unless E (Same a)) (call_gateway registry x act)
  call_gateway-Keeps x act evidence = record {
    at = λ db h. elim h [
      | inr e ↦ inr e
      | inl same ↦
          elim (execute-Authorized registry x.agent_id x.id act.tool_name act.arguments
            (context_of act) db) [
              | inl (unchanged, not_run) ↦ inl (Same-trans a db _ same unchanged)
              | inr authorized ↦ inr (evidence (db, same, authorized))
            ]
    ];
  }

module _ {W : Type 0} (registry : Registry W) (planner : Planner) (settings : Settings) where
  pub advance-Authorized :
      (id : Uuid) (db : Db W)
      → (Same db (step registry planner settings id db).1 ⊎ IsPlannedAt db registry planner id)
        × (Same db (resume registry planner settings id db).1 ⊎ IsPlannedAt db registry planner id)
  advance-Authorized id db =
      let E : Type 0 = IsPlannedAt db registry planner id in
      let i : IsInvariant (Unless E (Same db)) = Unless-IsInvariant E (Same-IsInvariant db) in
      let called : (x : Execution)
          → x.id ≡ id
          → (act : ToolAction) (history : List ExecutionStep) → Chosen planner x history act
          → Keeps (Unless E (Same db)) (call_gateway registry x act) =
        λ x own act history chosen.
          call_gateway-Keeps db registry x act (λ h. (x, act, history, own, chosen, h)) in
      (
        (step-Keeps i registry planner settings id called).at db (inl (Same-refl db)),
        (resume-Keeps i registry planner settings id called).at db (inl (Same-refl db)),
      )

  pub submit-Authorized :
      (id : Uuid) (act : ToolAction) (db : Db W)
      → Same db (submit_external_action registry planner settings id act db).1
        ⊎ IsAuthorizedAt db registry id act
  submit-Authorized id act db =
      let E : Type 0 = IsAuthorizedAt db registry id act in
      (submit_external_action-Keeps (Unless-IsInvariant E (Same-IsInvariant db)) registry planner
          settings id act (λ x own. call_gateway-Keeps db registry x act (λ h. (x, own, h)))).at
        db (inl (Same-refl db))

  -- Starting and cancelling an execution and reconciling its pending step run no tool: they leave the
  -- tools' tables and the tables that authorize a call as they were.
  pub bookkeeping-Same :
      (id : Uuid) (objective : String) (context : Option Json) (db : Db W)
      → Same db (start_execution id objective context db).1
        × Same db (cancel id db).1
        × Same db (reconcile_external_step registry planner settings id db).1
  bookkeeping-Same id objective context db =
      let i = Same-IsInvariant db in
      (
        (start_execution-Keeps i id objective context).at db (Same-refl db),
        (cancel-Keeps i id).at db (Same-refl db),
        (reconcile_external_step-Keeps i registry planner settings id).at db (Same-refl db),
      )
