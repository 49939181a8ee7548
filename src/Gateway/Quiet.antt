-- ===== src/Gateway/Quiet.antt =====
-- The builders and the final steps of the gateway under invariants of service calls.
use safeops.Prelude.{ℕ, ◌≡◌, refl, inl, inr, Bool, some, List, Bool-cases}
use safeops.Model.Enums.{ExecutionStatus}
use safeops.Model.Rows.{ToolRequest, ApprovalRequest}
use safeops.Model.Db.{Db, Row, set_status}
use safeops.Exec.{Exec, Outcome, returned, raised, approval_state_conflict}
use safeops.Exec.Keeps.{Keeps}
use safeops.Audit.Tables.{Quietly, Quietly-refl, IsQuiet}
use safeops.Audit.Invariant.{IgnoresWorld}
use safeops.Gateway.Tooling.{Call, GatewayResult, rows_only}
use safeops.Gateway.Record.{run_tool}
use safeops.Gateway.Escalate.{approval_builder, on_conflict, catch_conflict, has_running}

module _ {W : Type 0} where
  pub rows_only-IsQuiet : (rows : ℕ → List Row) → IsQuiet {W = W} (rows_only rows)
  rows_only-IsQuiet rows = record { quiet = λ n db rs db' e. alike db db' (cc) }
    where
      alike : (db db' : Db W) → db ≡ db' → Quietly db db'
      alike db db' e = rw (← e) (Quietly-refl db)

  pub approval_builder-IsQuiet :
      (c : Call W) (request : ToolRequest) (approval : ApprovalRequest) (escalated : Bool) (t : ℕ)
      → IsQuiet (approval_builder c request approval escalated t)
  approval_builder-IsQuiet c request approval escalated t = record { quiet = alike }
    where
      alike :
          (n : ℕ) (db : Db W) (rows : List Row) (db' : Db W)
          → approval_builder c request approval escalated t n db ≡ some (rows, db')
          → Quietly db db'
      alike n db rows db' e = elim (Bool-cases (has_running c.execution.id db.executions)) [
        | inr idle ↦ absurd (cc (rw idle at e))
        | inl running ↦
            (let q : record db {
              executions = set_status c.execution.id ExecutionStatus.waiting_approval db.executions;
            }
                  ≡ db' =
                cc (rw running at e) in
              rw (← q) (record {
                same = record {
                  world = refl;
                  agents = refl;
                  tools = refl;
                  permissions = refl;
                  policies = refl;
                  clock = refl;
                };
                events = refl;
                places = refl;
              }))
      ]

  pub Keeps-catch_conflict :
      {P : Db W → Type 0} (m : Exec W Unit) (created conflict : GatewayResult)
      → Keeps P m
      → Keeps P (catch_conflict m created conflict)
  unfolding catch_conflict
  Keeps-catch_conflict {P} m created conflict k = record {
    at = λ db h. let (r, db') = m db in go r db' (k.at db h);
  }
    where
      go : (r : Outcome Unit) (db : Db W) → P db → P (on_conflict (r, db) created conflict).1
      go (returned done) db h = h
      go (raised approval_state_conflict) db h = h
      go (raised e) db h = h

  -- A tool changes its own tables only.
  pub run_tool-Keeps : {P : Db W → Type 0} → IgnoresWorld P → (c : Call W) → Keeps P (run_tool c)
  unfolding run_tool
  run_tool-Keeps w c = record { at = λ db p. w.world db _ p }
