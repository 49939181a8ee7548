-- ===== src/Tests/Refunds.antt =====
-- Refunds of one payment of 50.00.
use safeops.Prelude.{◌≡◌, refl, sym, ◌∙◌, inl, inr, List, [], ◌∷◌, arith}
use safeops.Tools.{done}
use safeops.Tools.Payments.{
  succeeded, Payment, Refund, Ledger, RefundPaymentInput, settle, new_refund, fresh_output,
  commit_refund, run,
}
use safeops.Tools.Payments.Cases.{paid_ledger}
use safeops.Tools.Payments.Sound.{IsSound, paid_back, run-IsSound}
use safeops.Tools.Payments.Repeat.{as_replay, run-repeated}

abbrev payment : Payment
payment = record { id = 1; payment_id = "pay_1"; amount = 5000; status = succeeded }

abbrev ledger : Ledger
ledger = record { payments = payment ∷ []; refunds = [] }

abbrev input : RefundPaymentInput
input = record { payment_id = "pay_1"; amount = 4000; reason = "damaged"; idempotency_key = "k1" }

-- Another request, for the same payment.
abbrev rival : Refund
rival = record {
  id = 8;
  payment_id = 1;
  amount = 5000;
  reason = "late";
  idempotency_key = "k2";
  created_at = 3;
}

ledger-IsSound : IsSound ledger
ledger-IsSound = record {
  key = λ p q mp mq e. elim mp [
    | inl ep ↦ elim mq [ inl eq ↦ ep ∙ sym eq | inr mq' ↦ absurd mq' ]
    | inr mp' ↦ absurd mp'
  ];
  unpaid = λ p mp free. refl;
  bounded = λ p mp. ground arith;
}

run_input : run [] 7 4 input ledger ≡ (
  done (fresh_output payment (new_refund 7 4 input payment)),
  paid_ledger (new_refund 7 4 input payment) ledger,
)
unfolding run commit_refund
run_input = refl

run-IsSound_example : IsSound (run [] 7 4 input ledger).1
run-IsSound_example = run-IsSound 7 4 input ledger ledger-IsSound

-- Others refund under another key, and try to use the same one.
abbrev others : List Refund
others = rival ∷ record rival { id = 9; idempotency_key = "k1" } ∷ []

run-repeated_example :
    let paid = paid_ledger (new_refund 7 4 input payment) ledger in
    run [] 9 6 input (settle others paid)
    ≡ (done (as_replay (fresh_output payment (new_refund 7 4 input payment))), settle others paid)
run-repeated_example =
    run-repeated 7 4 input ledger (fresh_output payment (new_refund 7 4 input payment))
      (paid_ledger (new_refund 7 4 input payment) ledger) ledger-IsSound run_input others [] 9 6

-- The payment is read without a lock: when a refund under another key is committed between that read
-- and the commit, 90.00 are paid back of 50.00.
paid_twice : paid_back 1 (run (rival ∷ []) 7 4 input ledger).1.refunds ≡ 9000
unfolding run commit_refund
paid_twice = refl
