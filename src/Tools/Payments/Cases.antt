-- ===== src/Tools/Payments/Cases.antt =====
-- The ways in which a refund that nobody races with can end.
use safeops.Prelude.{
  ℕ, ◌≤◌, ◌≡◌, refl, sym, inl, inr, false, none, some, List, [], ◌∷◌, ◌++◌, ltb, str_eq, any, Elem,
  arith, Bool-cases, Option-cases,
}
use safeops.Model.Uuid.{Uuid}
use safeops.Model.Db.{amend}
use safeops.Tools.{ToolAnswer, done, tool_error}
use safeops.Tools.Payments.{
  PaymentStatus, succeeded, refunded, Payment, Refund, Ledger, RefundPaymentInput,
  RefundPaymentOutput, mark_refunded, find_refund, find_payment, commit_refund, new_refund, replay,
  fresh_output, pay_back, with_status, with_payment, run,
}

find_payment-Elem :
    (name : _) (ps : List Payment) {p : Payment} → find_payment name ps ≡ some p → Elem p ps
find_payment-Elem name [] h = absurd (cc)
find_payment-Elem name (q ∷ qs) {p} h = elim (Bool-cases (str_eq q.payment_id name)) [
  | inl hit ↦ (let e : q ≡ p = cc (rw hit at h) in inl (sym e))
  | inr miss ↦ inr (find_payment-Elem name qs (rw miss at h))
]

-- A key that no refund has.
find_refund-any :
    (key : _) (rs : List Refund)
    → find_refund key rs ≡ none
    → any (λ r. str_eq r.idempotency_key key) rs ≡ false
find_refund-any key [] h = refl
find_refund-any key (r ∷ rs) h = elim (Bool-cases (str_eq r.idempotency_key key)) [
  | inl hit ↦ absurd (cc (rw hit at h))
  | inr miss ↦ rw miss (find_refund-any key rs (rw miss at h))
]

-- The ledger with one more refund.
abbrev pub paid_ledger : Refund → Ledger → Ledger
paid_ledger r l = record {
  payments = amend (λ p. p.id) r.payment_id mark_refunded l.payments;
  refunds = l.refunds ++ r ∷ [];
}

module _ (id : Uuid) (now : ℕ) (input : RefundPaymentInput) (l : Ledger)
    (P : ToolAnswer RefundPaymentOutput × Ledger → Type 0)
    (refusal : (code message : _) → P (tool_error code message, l))
    (again : (r : Refund)
      → find_refund input.idempotency_key l.refunds ≡ some r
      → P (done (replay r l), l))
    (fresh : (p : Payment)
      → Elem p l.payments
      → p.status ≡ succeeded
      → input.amount ≤ p.amount
      → find_refund input.idempotency_key l.refunds ≡ none
      → P (
        done (fresh_output p (new_refund id now input p)),
        paid_ledger (new_refund id now input p) l,
      )) where
  pay_back-cases :
      (p : Payment)
      → Elem p l.payments
      → p.status ≡ succeeded
      → input.amount ≤ p.amount
      → find_refund input.idempotency_key l.refunds ≡ none
      → P (pay_back [] id now input p l)
  unfolding commit_refund
  pay_back-cases p m free few unused =
      rw (find_refund-any input.idempotency_key l.refunds unused) (fresh p m free few unused)

  with_status-cases :
      (p : Payment) (s : PaymentStatus)
      → Elem p l.payments
      → p.status ≡ s
      → find_refund input.idempotency_key l.refunds ≡ none
      → P (with_status [] id now input p s l)
  with_status-cases p refunded m e unused = refusal _ _
  with_status-cases p succeeded m e unused = elim (Bool-cases (ltb p.amount input.amount)) [
    | inl above ↦ rw above (refusal _ _)
    | inr within ↦ rw within (pay_back-cases p m e (ground (arith, within)) unused)
  ]

  with_payment-cases :
      find_refund input.idempotency_key l.refunds ≡ none
      → P (with_payment [] id now input (find_payment input.payment_id l.payments) l)
  with_payment-cases unused = elim (Option-cases (find_payment input.payment_id l.payments)) [
    | inl missing ↦ rw missing (refusal _ _)
    | inr (p, found) ↦ rw found (
        with_status-cases p p.status (find_payment-Elem input.payment_id l.payments found) refl
          unused)
  ]

  pub run-cases : P (run [] id now input l)
  unfolding run
  run-cases = elim (Option-cases (find_refund input.idempotency_key l.refunds)) [
    | inl unused ↦ rw unused (with_payment-cases unused)
    | inr (r, old) ↦ rw old (again r old)
  ]
