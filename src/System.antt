-- ===== src/System.antt =====
-- The services together: what may happen to the database, one operation after another.
--
-- An operation is a call of a public method of apps/api/app/services/: of the agent runtime, the
-- gateway, the approval engine or the external action service.
pub mod Invariants
pub mod Effects
use safeops.Prelude.{ℕ, ◌≤◌, String, Option, List}
use safeops.Json.{Json, Fields}
use safeops.Model.Uuid.{Uuid}
use safeops.Model.Db.{Db, Rival}
use safeops.Exec.{Exec}
use safeops.Gateway.Tooling.{Registry}
use safeops.Gateway.Entry.{execute}
use safeops.Approval.Entry.{Operator, Verdict, resolve}
use safeops.External.Request.{Digest, SubmitActionRequest}
use safeops.External.Entry.{submit, get_status}
use safeops.Planner.{Planner, ToolAction}
use safeops.Runtime.Advance.{Settings}
use safeops.Runtime.Entry.{
  start_execution, step, resume, cancel, submit_external_action, reconcile_external_step,
}

-- A call of a service, with its arguments.
pub data Operation : Type 0 where
  starting : Uuid → String → Option Json → Operation
  stepping resuming cancelling reconciling : Uuid → Operation
  submitting : Uuid → ToolAction → Operation
  calling : Uuid → Uuid → String → Fields → Option Json → Operation
  deciding : Operator → Uuid → Verdict → Operation
  receiving : Digest → Uuid → SubmitActionRequest → Operation
  asking : Uuid → String → Operation

module _ {W : Type 0} (registry : Registry W) (planner : Planner) (settings : Settings) where
  -- The database after an operation, whether it returned or raised.
  abbrev pub after : Operation → Db W → Db W
  after (starting agent_id objective context) db = (start_execution agent_id objective context db).1
  after (stepping id) db = (step registry planner settings id db).1
  after (resuming id) db = (resume registry planner settings id db).1
  after (cancelling id) db = (cancel id db).1
  after (reconciling id) db = (reconcile_external_step registry planner settings id db).1
  after (submitting id action) db =
      (submit_external_action registry planner settings id action db).1
  after (calling agent_id execution_id name args context) db =
      (execute registry agent_id execution_id name args context db).1
  after (deciding operator id v) db = (resolve registry operator id v db).1
  after (receiving digest operator_id r) db =
      (submit registry planner settings digest operator_id r db).1
  after (asking operator_id external_request_id) db =
      (get_status registry planner settings operator_id external_request_id db).1

  -- One thing that happens: an operation, time going by, or other writers getting ready to commit.
  pub data Happens : Db W → Db W → Type 0 where
    served : (o : Operation) (db : Db W) → Happens db (after o db)
    later : (db : Db W) (t : ℕ) → db.clock ≤ t → Happens db (record db { clock = t })
    raced : (db : Db W) (rivals : List Rival) → Happens db (record db { rivals = rivals })

  -- Any sequence of these.
  pub data Reaches : Db W → Db W → Type 0 where
    here : {db : Db W} → Reaches db db
    then : {a b c : Db W} → Happens a b → Reaches b c → Reaches a c
