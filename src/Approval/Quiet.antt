-- ===== src/Approval/Quiet.antt =====
-- The steps of a resolution under invariants of service calls.
use safeops.Prelude.{ℕ, ◌≡◌, refl, inl, inr, String, Bool, Option, none, some, List, Bool-cases}
use safeops.Model.Uuid.{Uuid}
use safeops.Model.Rows.{ApprovalRequest}
use safeops.Model.Db.{Db, Row, interfere}
use safeops.Exec.Keeps.{Keeps}
use safeops.Audit.Tables.{Same, Quietly, IsQuiet, interfere-Same}
use safeops.Audit.Invariant.{IsInvariant}
use safeops.Approval.Expire.{claim_found, claim, find_approval, expiry_builder}
use safeops.Approval.Run.{ActionOutcome, outcome_builder}
use safeops.Approval.Entry.{Operator, rejection_builder}

-- `P` outlives other writers and says nothing of the requests.
pub record IgnoresApprovals {W : Type 0} (P : Db W → Type 0) : Type 0 where
  pub rivals : (db : Db W) → P db → P (interfere db)
  pub requests : (db : Db W) (xs : List ApprovalRequest) → P db → P (record db { approvals = xs })

module _ {W : Type 0} where
  pub updates-IsQuiet :
      (rows : ℕ → Db W → List Row) (f : Db W → Db W)
      → ((db : Db W) → Quietly db (f db))
      → IsQuiet {W = W} (λ n db. some (rows n db, f db))
  updates-IsQuiet rows f h = record { quiet = λ n db rs db' e. alike db db' cc }
    where
      alike : (db db' : Db W) → f db ≡ db' → Quietly db db'
      alike db db' e = rw (← e) (h db)

  pub expiry_builder-IsQuiet : (p : ApprovalRequest) (t : ℕ) → IsQuiet {W = W} (expiry_builder p t)
  expiry_builder-IsQuiet p t = updates-IsQuiet _ _ λ db. record {
    same = record {
      world = refl;
      agents = refl;
      tools = refl;
      permissions = refl;
      policies = refl;
      clock = refl;
    };
    events = refl;
    places = refl;
  }

  pub outcome_builder-IsQuiet :
      (p : ApprovalRequest) (name : String) (o : ActionOutcome) (t : ℕ)
      → IsQuiet {W = W} (outcome_builder p name o t)
  outcome_builder-IsQuiet p name o t = updates-IsQuiet _ _ λ db. record {
    same = record {
      world = refl;
      agents = refl;
      tools = refl;
      permissions = refl;
      policies = refl;
      clock = refl;
    };
    events = refl;
    places = refl;
  }

  claim_found-Keeps :
      {P : Db W → Type 0} (guard : ApprovalRequest → Bool)
      (change : ApprovalRequest → ApprovalRequest) (o : Option ApprovalRequest)
      → IgnoresApprovals P
      → Keeps P (claim_found guard change o)
  claim_found-Keeps guard change none i = record { at = λ db h. h }
  claim_found-Keeps guard change (some p) i = record {
    at = λ db h. elim (Bool-cases (guard p)) [
      | inl free ↦ rw free (i.requests db _ h)
      | inr late ↦ rw late h
    ];
  }

  pub Keeps-claim :
      {P : Db W → Type 0} (id : Uuid) (guard : ApprovalRequest → Bool)
      (change : ApprovalRequest → ApprovalRequest)
      → IgnoresApprovals P
      → Keeps P (claim id guard change)
  unfolding claim
  Keeps-claim id guard change i = record {
    at = λ db h.
        (claim_found-Keeps guard change (find_approval id (interfere db).approvals) i).at
          (interfere db) (i.rivals db h);
  }

  pub Same-approvals : (a : Db W) → IgnoresApprovals (Same a)
  Same-approvals a = record {
    rivals = interfere-Same a;
    requests = λ db xs p. record {
      world = p.world;
      agents = p.agents;
      tools = p.tools;
      permissions = p.permissions;
      policies = p.policies;
      clock = p.clock;
    };
  }

  pub IsInvariant-approvals : {P : Db W → Type 0} → IsInvariant P → IgnoresApprovals P
  IsInvariant-approvals i = record { rivals = i.rivals; requests = i.approvals }

pub rejection_builder-IsQuiet :
    {W : Type 0} (operator : Operator) (p : ApprovalRequest) (t : ℕ) (message : String)
    → IsQuiet {W = W} (rejection_builder operator p t message)
rejection_builder-IsQuiet operator p t message = updates-IsQuiet _ _ λ db. record {
  same = record {
    world = refl;
    agents = refl;
    tools = refl;
    permissions = refl;
    policies = refl;
    clock = refl;
  };
  events = refl;
  places = refl;
}
