-- ===== src/Tools/Payments.antt =====
-- apps/api/app/tools/payments.py: a refund of a payment. Amounts are in cents, and rows have the
-- columns that the tool reads or writes.
pub mod Cases
pub mod Sound
pub mod Repeat
use safeops.Prelude.{
  ℕ, String, Bool, true, false, Option, none, some, List, [], ◌∷◌, ◌++◌, ◌==◌, ltb, str_eq,
  if◌then◌else◌, find, any, append_text, nat_text,
}
use safeops.Model.Uuid.{Uuid, uuid_text}
use safeops.Model.Db.{amend}
use safeops.Tools.{ToolAnswer, done, tool_error, broken, or_unchanged, quoted}

pub data PaymentStatus : Type 0 where
  succeeded refunded : PaymentStatus

pub record Payment : Type 0 where
  pub id : Uuid
  pub payment_id : String
  pub amount : ℕ
  pub status : PaymentStatus

pub record Refund : Type 0 where
  pub id : Uuid
  pub payment_id : Uuid
  pub amount : ℕ
  pub reason : String
  pub idempotency_key : String
  pub created_at : ℕ

pub record Ledger : Type 0 where
  pub payments : List Payment
  pub refunds : List Refund

pub record RefundPaymentInput : Type 0 where
  pub payment_id : String
  pub amount : ℕ
  pub reason : String
  pub idempotency_key : String

pub record RefundPaymentOutput : Type 0 where
  pub payment_id : String
  pub refund_amount : ℕ
  pub reason : String
  pub status : PaymentStatus
  pub created_at : ℕ
  pub idempotent_replay : Bool

abbrev pub mark_refunded : Payment → Payment
mark_refunded p = record p { status = refunded }

abbrev pub find_refund : String → List Refund → Option Refund
find_refund key = find (λ r. str_eq r.idempotency_key key)

abbrev pub find_payment : String → List Payment → Option Payment
find_payment payment_id = find (λ p. str_eq p.payment_id payment_id)

-- The transaction that adds a refund and marks its payment; the key of a refund is unique.
unfoldable pub commit_refund : Refund → Ledger → Option Ledger
commit_refund r l =
    if any (λ s. str_eq s.idempotency_key r.idempotency_key) l.refunds
    then none
    else some (record {
      payments = amend (λ p. p.id) r.payment_id mark_refunded l.payments;
      refunds = l.refunds ++ r ∷ [];
    })

-- Refunds that other writers commit first.
abbrev pub settle : List Refund → Ledger → Ledger
settle [] l = l
settle (r ∷ rs) l = settle rs (or_unchanged l (commit_refund r l))

-- The payment's public id; a payment that has gone is named by the row's id.
abbrev pub name_of : Uuid → Option Payment → String
name_of id none = uuid_text id
name_of id (some p) = p.payment_id

unfoldable pub replay : Refund → Ledger → RefundPaymentOutput
replay r l = record {
  payment_id = name_of r.payment_id (find (λ p. p.id == r.payment_id) l.payments);
  refund_amount = r.amount;
  reason = r.reason;
  status = refunded;
  created_at = r.created_at;
  idempotent_replay = true;
}

abbrev pub fresh_output : Payment → Refund → RefundPaymentOutput
fresh_output p r = record {
  payment_id = p.payment_id;
  refund_amount = r.amount;
  reason = r.reason;
  status = refunded;
  created_at = r.created_at;
  idempotent_replay = false;
}

-- The row of the refund, with its id and time.
abbrev pub new_refund : Uuid → ℕ → RefundPaymentInput → Payment → Refund
new_refund id now input p = record {
  id = id;
  payment_id = p.id;
  amount = input.amount;
  reason = input.reason;
  idempotency_key = input.idempotency_key;
  created_at = now;
}

abbrev pub replay_or_raise : Option Refund → Ledger → ToolAnswer RefundPaymentOutput × Ledger
replay_or_raise none l = (broken, l)
replay_or_raise (some r) l = (done (replay r l), l)

-- The commit, after the refunds of `rivals`.
abbrev pub after_commit :
    Payment → Refund → Ledger → Option Ledger → ToolAnswer RefundPaymentOutput × Ledger
after_commit p r l none = replay_or_raise (find_refund r.idempotency_key l.refunds) l
after_commit p r l (some l') = (done (fresh_output p r), l')

module _ (rivals : List Refund) (id : Uuid) (now : ℕ) (input : RefundPaymentInput) where
  abbrev pub pay_back : Payment → Ledger → ToolAnswer RefundPaymentOutput × Ledger
  pay_back p l =
      let r = new_refund id now input p in
      let l' = settle rivals l in after_commit p r l' (commit_refund r l')

  abbrev pub if_enough : Payment → Bool → Ledger → ToolAnswer RefundPaymentOutput × Ledger
  if_enough p true l = (
    tool_error "INVALID_AMOUNT" (
        quoted "Refund amount " (nat_text input.amount)
          (append_text " exceeds original payment amount " (nat_text p.amount))),
    l,
  )
  if_enough p false l = pay_back p l

  abbrev pub with_status :
      Payment → PaymentStatus → Ledger → ToolAnswer RefundPaymentOutput × Ledger
  with_status p refunded l = (
    tool_error "ALREADY_REFUNDED"
        (quoted "Payment '" input.payment_id "' has already been refunded"),
    l,
  )
  with_status p succeeded l = if_enough p (ltb p.amount input.amount) l

  abbrev pub with_payment : Option Payment → Ledger → ToolAnswer RefundPaymentOutput × Ledger
  with_payment none l =
      (tool_error "NOT_FOUND" (quoted "Payment '" input.payment_id "' not found"), l)
  with_payment (some p) l = with_status p p.status l

  abbrev pub unless_replayed : Option Refund → Ledger → ToolAnswer RefundPaymentOutput × Ledger
  unless_replayed (some r) l = (done (replay r l), l)
  unless_replayed none l = with_payment (find_payment input.payment_id l.payments) l

  -- `RefundPaymentTool._run`
  unfoldable pub run : Ledger → ToolAnswer RefundPaymentOutput × Ledger
  run l = unless_replayed (find_refund input.idempotency_key l.refunds) l
