-- ===== src/System/Invariants.antt =====
-- What any sequence of operations keeps: the growth of the audit log.
use safeops.Prelude.{ℕ, String, Option, List}
use safeops.Json.{Json, Fields}
use safeops.Model.Uuid.{Uuid}
use safeops.Model.Db.{Db, Rival}
use safeops.Exec.Keeps.{Keeps}
use safeops.Audit.Tables.{Grows, Grows-refl}
use safeops.Audit.Invariant.{IsInvariant, IgnoresWorld, Grows-IsInvariant, Grows-IgnoresWorld}
use safeops.Gateway.Tooling.{Registry}
use safeops.Gateway.Entry.{execute}
use safeops.Approval.Entry.{Operator, Verdict, resolve}
use safeops.Gateway.LogEntry.{execute-Keeps}
use safeops.Approval.Log.{resolve-Keeps}
use safeops.External.Keeps.{submit-Keeps, get_status-Keeps}
use safeops.Planner.{Planner}
use safeops.Runtime.Advance.{Settings}
use safeops.Runtime.Keeps.Entry.{
  start_execution-Keeps, step-Keeps, resume-Keeps, cancel-Keeps, submit_external_action-Keeps,
  reconcile_external_step-Keeps,
}
use safeops.System.{
  Operation, starting, stepping, resuming, cancelling, reconciling, submitting, calling, deciding,
  receiving, asking, after, Happens, served, later, raced, Reaches, here, then,
}

-- `P` says nothing of the time and of what other writers are about to do.
pub record IgnoresSchedule {W : Type 0} (P : Db W → Type 0) : Type 0 where
  pub clock : (db : Db W) (t : ℕ) → P db → P (record db { clock = t })
  pub schedule : (db : Db W) (rivals : List Rival) → P db → P (record db { rivals = rivals })

module _ {W : Type 0} (registry : Registry W) (planner : Planner) (settings : Settings)
    {P : Db W → Type 0} (inv : IsInvariant P)
    (gateway : (agent_id execution_id : Uuid) (name : String) (args : Fields)
        (context : Option Json)
      → Keeps P (execute registry agent_id execution_id name args context))
    (approvals : (operator : Operator) (id : Uuid) (v : Verdict)
      → Keeps P (resolve registry operator id v)) where
  after-keeps : (o : Operation) (db : Db W) → P db → P (after registry planner settings o db)
  after-keeps (starting agent_id objective context) db p =
      (start_execution-Keeps inv agent_id objective context).at db p
  after-keeps (stepping id) db p =
      (step-Keeps inv registry planner settings id
          λ x own a history chosen. gateway x.agent_id x.id a.tool_name a.arguments _).at
        db p
  after-keeps (resuming id) db p =
      (resume-Keeps inv registry planner settings id
          λ x own a history chosen. gateway x.agent_id x.id a.tool_name a.arguments _).at
        db p
  after-keeps (cancelling id) db p = (cancel-Keeps inv id).at db p
  after-keeps (reconciling id) db p =
      (reconcile_external_step-Keeps inv registry planner settings id).at db p
  after-keeps (submitting id action) db p =
      (submit_external_action-Keeps inv registry planner settings id action
          λ x own. gateway x.agent_id x.id action.tool_name action.arguments _).at
        db p
  after-keeps (calling agent_id execution_id name args context) db p =
      (gateway agent_id execution_id name args context).at db p
  after-keeps (deciding operator id v) db p = (approvals operator id v).at db p
  after-keeps (receiving digest operator_id r) db p =
      (submit-Keeps inv registry planner settings r
          (λ e x own. gateway x.agent_id x.id e.tool_name r.arguments _) digest operator_id).at
        db p
  after-keeps (asking operator_id external_request_id) db p =
      (get_status-Keeps inv registry planner settings operator_id external_request_id).at db p

  module _ (timeless : IgnoresSchedule P) where
    happens-keeps : {a b : Db W} → Happens registry planner settings a b → P a → P b
    happens-keeps (served o db) p = after-keeps o db p
    happens-keeps (later db t h) p = timeless.clock db t p
    happens-keeps (raced db rivals) p = timeless.schedule db rivals p

    pub reaches-keeps : {a b : Db W} → Reaches registry planner settings a b → P a → P b
    reaches-keeps here p = p
    reaches-keeps (then h r) p = reaches-keeps r (happens-keeps h p)

module _ {W : Type 0} (registry : Registry W) (planner : Planner) (settings : Settings) where
  -- An invariant that says nothing of the tools' tables either.
  pub reaches-keeps_idle :
      {P : Db W → Type 0}
      → IsInvariant P
      → IgnoresWorld P
      → IgnoresSchedule P
      → {a b : Db W} → Reaches registry planner settings a b
      → P a
      → P b
  reaches-keeps_idle inv idle timeless =
      reaches-keeps registry planner settings inv
        (λ agent_id execution_id name args context.
          execute-Keeps inv idle registry name args agent_id execution_id context)
        (resolve-Keeps inv idle registry) timeless

  -- However the operations of the runtime, the gateway and the approval engine follow each other,
  -- whatever they return or raise, and whatever other writers commit in between: no audit event is
  -- removed or changed; and if the sequence numbers of each execution's events were distinct at the
  -- start, they are distinct at the end.
  pub Reaches-Grows : {a b : Db W} → Reaches registry planner settings a b → Grows a b
  Reaches-Grows {a} r =
      reaches-keeps_idle (Grows-IsInvariant a) (Grows-IgnoresWorld a)
        (record {
          clock = λ db t p. record { added = p.added; appended = p.appended; unique = p.unique };
          schedule =
              λ db rs p. record { added = p.added; appended = p.appended; unique = p.unique };
        })
        r (Grows-refl a)
