-- ===== src/Tools/Payments/Sound.antt =====
-- What is paid back of each payment, and what a repeated refund does.
use safeops.Prelude.{
  ℕ, ◌+◌, ◌≤◌, ◌≡◌, refl, sym, ap, ◌∙◌, subst, ◌⊎◌, inl, inr, true, false, List, [], ◌∷◌, ◌++◌,
  ◌==◌, ==_iff, if◌then◌else◌, Elem, arith, Bool-cases,
}
use safeops.Model.Uuid.{Uuid}
use safeops.Model.Db.{amend}
use safeops.Tools.Payments.Cases.{paid_ledger, run-cases}
use safeops.Tools.Payments.{
  succeeded, Payment, Refund, Ledger, RefundPaymentInput, mark_refunded, new_refund, run,
}

-- The sum of the refunds of a payment.
abbrev pub paid_back : Uuid → List Refund → ℕ
paid_back id [] = 0
paid_back id (r ∷ rs) =
    let rest = paid_back id rs in if r.payment_id == id then r.amount + rest else rest

-- Ids are unique, a payment that is not marked has not been paid back, and no payment was paid back
-- beyond its amount.
pub record IsSound (l : Ledger) : Type 0 where
  pub key : (p q : Payment) → Elem p l.payments → Elem q l.payments → p.id ≡ q.id → p ≡ q
  pub unpaid :
      (p : Payment) → Elem p l.payments → p.status ≡ succeeded → paid_back p.id l.refunds ≡ 0
  pub bounded : (p : Payment) → Elem p l.payments → paid_back p.id l.refunds ≤ p.amount

paid_back-snoc :
    (id : Uuid) (r : Refund) (rs : List Refund)
    → paid_back id (rs ++ r ∷ []) ≡ paid_back id rs + paid_back id (r ∷ [])
paid_back-snoc id r [] = ground arith
paid_back-snoc id r (s ∷ ss) = ground (arith, paid_back-snoc id r ss)

-- What marking does to a payment.
abbrev marked : Uuid → Payment → Payment
marked id p = if p.id == id then mark_refunded p else p

Elem-marked :
    (id : Uuid) (q : Payment) (ps : List Payment)
    → Elem q (amend (λ p. p.id) id mark_refunded ps)
    → (p : Payment) × Elem p ps × (q ≡ marked id p)
Elem-marked id q [] h = absurd h
Elem-marked id q (p ∷ ps) (inl e) = (p, inl refl, e)
Elem-marked id q (p ∷ ps) (inr m) = let (x, e, c) = Elem-marked id q ps m in (x, inr e, c)

marked-id : (id : Uuid) (p : Payment) → (marked id p).id ≡ p.id
marked-id id p = elim (Bool-cases (p.id == id)) [ inl hit ↦ rw hit refl | inr miss ↦ rw miss refl ]

marked-amount : (id : Uuid) (p : Payment) → (marked id p).amount ≡ p.amount
marked-amount id p = elim (Bool-cases (p.id == id)) [
  | inl hit ↦ rw hit refl
  | inr miss ↦ rw miss refl
]

module _ (l : Ledger) (sound : IsSound l) (p : Payment) (m : Elem p l.payments) (r : Refund)
    (own : r.payment_id ≡ p.id) (free : p.status ≡ succeeded) (few : r.amount ≤ p.amount) where
  -- A marked payment is the one that is paid back; another one is as it was.
  marked-cases :
      (a x : Payment)
      → Elem x l.payments
      → a ≡ marked r.payment_id x
      → ((x ≡ p) × (a ≡ mark_refunded p)) ⊎ ((a ≡ x) × (x.id == r.payment_id ≡ false))
  marked-cases a x mx e = elim (Bool-cases (x.id == r.payment_id)) [
    | inl hit ↦
        let same : x ≡ p = sound.key x p mx m ((==_iff x.id r.payment_id).0 hit ∙ own) in
        inl (same, rw hit at e ∙ ap mark_refunded same)
    | inr miss ↦ inr (rw miss at e, miss)
  ]

  paid_back-own : paid_back p.id (l.refunds ++ r ∷ []) ≡ r.amount
  paid_back-own =
      let none_yet = sound.unpaid p m free in
      let hit : r.payment_id == p.id ≡ true = (==_iff r.payment_id p.id).1 own in
      let more = paid_back-snoc p.id r l.refunds in ground (arith, none_yet, more, hit)

  paid_back-other :
      (x : Payment)
      → x.id == r.payment_id ≡ false
      → paid_back x.id (l.refunds ++ r ∷ []) ≡ paid_back x.id l.refunds
  paid_back-other x miss = let more = paid_back-snoc x.id r l.refunds in ground (arith, more, miss)

  -- A refund of an unmarked payment, within its amount, keeps the ledger sound.
  paid-IsSound : IsSound (paid_ledger r l)
  paid-IsSound = record {
    key = λ a b ma mb e.
        let (x, mx, ex) = Elem-marked r.payment_id a l.payments ma in
        let (y, my, ey) = Elem-marked r.payment_id b l.payments mb in
        let ids : x.id ≡ y.id =
          sym (marked-id r.payment_id x)
          ∙ sym (ap (λ (q : Payment). q.id) ex)
          ∙ e
          ∙ ap (λ (q : Payment). q.id) ey
          ∙ marked-id r.payment_id y in
        ex ∙ ap (marked r.payment_id) (sound.key x y mx my ids) ∙ sym ey;
    unpaid = λ a ma s.
        let (x, mx, ex) = Elem-marked r.payment_id a l.payments ma in
        elim (marked-cases a x mx ex) [
          | inl (same, e) ↦ absurd (cc (sym (ap (λ (q : Payment). q.status) e) ∙ s))
          | inr (e, miss) ↦
              subst (λ (q : Payment). paid_back q.id (l.refunds ++ r ∷ []) ≡ 0) (sym e)
                (paid_back-other x miss
                  ∙ sound.unpaid x mx (sym (ap (λ (q : Payment). q.status) e) ∙ s))
        ];
    bounded = λ a ma.
        let (x, mx, ex) = Elem-marked r.payment_id a l.payments ma in
        elim (marked-cases a x mx ex) [
          | inl (same, e) ↦
              subst (λ (q : Payment). paid_back q.id (l.refunds ++ r ∷ []) ≤ q.amount) (sym e)
                (rw paid_back-own few)
          | inr (e, miss) ↦
              subst (λ (q : Payment). paid_back q.id (l.refunds ++ r ∷ []) ≤ q.amount) (sym e)
                (rw (paid_back-other x miss) (sound.bounded x mx))
        ];
  }

-- A refund that nobody races with keeps the ledger sound: unique ids, at most its amount paid back of
-- each payment, and nothing of one that is not marked as refunded.
pub run-IsSound :
    (id : Uuid) (now : ℕ) (input : RefundPaymentInput) (l : Ledger)
    → IsSound l
    → IsSound (run [] id now input l).1
run-IsSound id now input l sound =
    run-cases id now input l (λ x. IsSound x.1) (λ code message. sound) (λ r old. sound)
      (λ p m free few unused. paid-IsSound l sound p m (new_refund id now input p) refl free few)
