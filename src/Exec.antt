-- ===== src/Exec.antt =====
-- A service call: it reads and writes the database, and returns or raises. What was committed
-- before an exception stays committed.
pub mod Keeps
pub mod Agree
use safeops.Prelude.{ℕ, suc, String}
use safeops.Model.Uuid.{Uuid}
use safeops.Model.Db.{Db}

-- `approval_state_conflict` is an ApprovalStateConflictError; `integrity_error` is the IntegrityError
-- that `commit_chunk` raises after its last attempt; `external_action_error` is an
-- ExternalActionError with its status and code.
pub data Error : Type 0 where
  approval_state_conflict integrity_error : Error
  external_action_error : ℕ → String → Error

pub data Outcome (A : Type 0) : Type 0 where
  returned : A → Outcome A
  raised : Error → Outcome A

abbrev pub Exec : Type 0 → Type 0 → Type 0
Exec W A = Db W → Outcome A × Db W

module _ {W : Type 0} where
  pub pure : {A : Type 0} → A → Exec W A
  pure a db = (returned a, db)

  pub gets : {A : Type 0} → (Db W → A) → Exec W A
  gets f db = (returned (f db), db)

  -- `raise`
  pub throw : {A : Type 0} → Error → Exec W A
  throw e db = (raised e, db)

  -- `uuid.uuid4()`
  pub fresh : Exec W Uuid
  fresh db = (returned db.next_id, record db { next_id = suc db.next_id })

  -- `datetime.now(UTC)`
  pub now : Exec W ℕ
  now db = (returned db.clock, db)

  abbrev pub continue : {A B : Type 0} → Outcome A → (A → Exec W B) → Exec W B
  continue (returned a) f db = f a db
  continue (raised e) f db = (raised e, db)

  infixl 5 ◌>>=◌ ◌>>◌
  -- Opening this opens `pure`, `gets`, `throw`, `fresh` and `now` too.
  unfoldable pub ◌>>=◌ : {A B : Type 0} → Exec W A → (A → Exec W B) → Exec W B
  unfolding pure gets throw fresh now
  ◌>>=◌ m f db = let (r, db') = m db in continue r f db'

  abbrev pub ◌>>◌ : {A B : Type 0} → Exec W A → Exec W B → Exec W B
  m >> k = m >>= λ _. k
