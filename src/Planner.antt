-- ===== src/Planner.antt =====
-- apps/api/app/services/planner.py: what a planner is given and may answer.
use safeops.Prelude.{String, List, [], ◌∷◌}
use safeops.Json.{Items, Fields, str, obj, nil, cons, end, field}
use safeops.Model.Rows.{Execution, ExecutionStep}

pub data Trust : Type 0 where
  trusted untrusted : Trust

pub record Source : Type 0 where
  pub kind : String
  pub trust : Trust
  pub content : String

pub record ToolAction : Type 0 where
  pub tool_name : String
  pub arguments : Fields
  pub reason : String
  pub sources : List Source

-- `ToolAction | Complete | Fail`
pub data PlannerDecision : Type 0 where
  tool_action : ToolAction → PlannerDecision
  complete : String → PlannerDecision
  fail : String → String → PlannerDecision

-- What a call of `next_action` may come to: an exception, a value of another type, or a decision.
pub data PlannerAnswer : Type 0 where
  crashed malformed : PlannerAnswer
  answered : PlannerDecision → PlannerAnswer

-- `next_action` of the execution, the context and the history.
abbrev pub Planner : Type 0
Planner = Execution → Fields → List ExecutionStep → PlannerAnswer

abbrev pub trust_text : Trust → String
trust_text trusted = "TRUSTED"
trust_text untrusted = "UNTRUSTED"

-- `[s.model_dump() for s in sources]`
abbrev pub dump_sources : List Source → Items
dump_sources [] = nil
dump_sources (s ∷ ss) =
    cons
      (obj (
        field "type" (str s.kind)
          (field "trust" (str (trust_text s.trust)) (field "content" (str s.content) end))))
      (dump_sources ss)
