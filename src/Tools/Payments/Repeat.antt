-- ===== src/Tools/Payments/Repeat.antt =====
-- A refund that is asked for again.
use safeops.Prelude.{
  ℕ, ◌≡◌, refl, sym, ap, ◌∙◌, subst, inl, inr, true, none, some, List, [], ◌∷◌, ◌++◌, ◌==◌, ==_iff,
  str_eq, eq_iff, find, any, String, Elem, Bool-cases,
}
use safeops.Model.Uuid.{Uuid}
use safeops.Model.Db.{amend}
use safeops.Tools.{ToolAnswer, done, tool_error, broken, or_unchanged}
use safeops.Tools.Payments.{
  commit_refund, settle, Payment, Refund, Ledger, RefundPaymentInput, RefundPaymentOutput,
  mark_refunded, find_refund, new_refund, name_of, replay, run,
}
use safeops.Tools.Payments.Cases.{paid_ledger, run-cases}
use safeops.Tools.Payments.Sound.{IsSound}

abbrev pub as_replay : RefundPaymentOutput → RefundPaymentOutput
as_replay out = record out { idempotent_replay = true }

find_refund-snoc :
    (key : _) (r : Refund) (rs : List Refund)
    → find_refund key rs ≡ none
    → str_eq r.idempotency_key key ≡ true
    → find_refund key (rs ++ r ∷ []) ≡ some r
find_refund-snoc key r [] h own = rw own refl
find_refund-snoc key r (s ∷ ss) h own = elim (Bool-cases (str_eq s.idempotency_key key)) [
  | inl hit ↦ absurd (cc (rw hit at h))
  | inr miss ↦ rw miss (find_refund-snoc key r ss (rw miss at h) own)
]

-- Marking a payment keeps its public id.
name_of-marked :
    (p : Payment) (ps : List Payment)
    → ((q : Payment) → Elem q ps → q.id ≡ p.id → q ≡ p)
    → Elem p ps
    → name_of p.id (find (λ q. q.id == p.id) (amend (λ q. q.id) p.id mark_refunded ps))
      ≡ p.payment_id
name_of-marked p [] only m = absurd m
name_of-marked p (q ∷ qs) only m = elim (Bool-cases (q.id == p.id)) [
  | inl hit ↦
      rw hit
        (rw hit (ap (λ (x : Payment). x.payment_id) (only q (inl refl) ((==_iff q.id p.id).0 hit))))
  | inr miss ↦ rw miss (
      rw miss (
        name_of-marked p qs (λ x mx. only x (inr mx))
          (elim m [
            | inl e ↦
                absurd (cc (sym miss ∙ (==_iff q.id p.id).1 (sym (ap (λ (x : Payment). x.id) e))))
            | inr later ↦ later
          ])))
]

-- The public id of a payment does not depend on the marks.
name_of-amend :
    (id k : Uuid) (ps : List Payment)
    → name_of id (find (λ p. p.id == id) (amend (λ p. p.id) k mark_refunded ps))
      ≡ name_of id (find (λ p. p.id == id) ps)
name_of-amend id k [] = refl
name_of-amend id k (p ∷ ps) = elim (Bool-cases (p.id == k)) [
  | inl marked ↦ elim (Bool-cases (p.id == id)) [
    | inl hit ↦ rw (marked, hit) refl
    | inr miss ↦ rw (marked, miss) (name_of-amend id k ps)
  ]
  | inr other ↦ elim (Bool-cases (p.id == id)) [
    | inl hit ↦ rw (other, hit) refl
    | inr miss ↦ rw (other, miss) (name_of-amend id k ps)
  ]
]

-- A refund that is found stays the one that is found, when rows are added.
find_refund-append :
    (key : _) (r s : Refund) (rs : List Refund)
    → find_refund key rs ≡ some r
    → find_refund key (rs ++ s ∷ []) ≡ some r
find_refund-append key r s [] h = absurd (cc)
find_refund-append key r s (x ∷ xs) h = elim (Bool-cases (str_eq x.idempotency_key key)) [
  | inl hit ↦ rw hit (rw hit at h)
  | inr miss ↦ rw miss (find_refund-append key r s xs (rw miss at h))
]

-- The refund has been made: it is found under the key, and its payment has this name.
abbrev Made : String → Refund → String → Ledger → Type 0
Made key r name l =
    (find_refund key l.refunds ≡ some r)
    × (name_of r.payment_id (find (λ p. p.id == r.payment_id) l.payments) ≡ name)

commit-Made :
    (key : String) (r : Refund) (name : String) (s : Refund) (l : Ledger)
    → Made key r name l
    → Made key r name (or_unchanged l (commit_refund s l))
unfolding commit_refund
commit-Made key r name s l (found, named) =
    elim (Bool-cases (any (λ (x : Refund). str_eq x.idempotency_key s.idempotency_key) l.refunds)) [
      | inl taken ↦ rw taken (found, named)
      | inr free ↦ rw free (
        find_refund-append key r s l.refunds found,
        name_of-amend r.payment_id s.payment_id l.payments ∙ named,
      )
    ]

settle-Made :
    (key : String) (r : Refund) (name : String) (others : List Refund) (l : Ledger)
    → Made key r name l
    → Made key r name (settle others l)
settle-Made key r name [] l made = made
settle-Made key r name (s ∷ others) l made =
    settle-Made key r name others (or_unchanged l (commit_refund s l))
      (commit-Made key r name s l made)

Made-again :
    (input : RefundPaymentInput) (r : Refund) (name : String) (l : Ledger)
    → Made input.idempotency_key r name l
    → (rivals : List Refund) (id : Uuid) (now : ℕ)
    → run rivals id now input l ≡ (done (record (replay r l) { payment_id = name }), l)
unfolding run replay
Made-again input r name l (found, named) rivals id now = rw found (rw named refl)

-- What a further request with the same key comes to, after refunds of others.
abbrev Repeats : RefundPaymentInput → ToolAnswer RefundPaymentOutput × Ledger → Type 0
Repeats input (done out, l') =
    (others rivals : List Refund) (id : Uuid) (now : ℕ)
    → run rivals id now input (settle others l') ≡ (done (as_replay out), settle others l')
Repeats input (tool_error code message, l') = Unit
Repeats input (broken, l') = Unit

run-Repeats :
    (id : Uuid) (now : ℕ) (input : RefundPaymentInput) (l : Ledger)
    → IsSound l
    → Repeats input (run [] id now input l)
unfolding replay
run-Repeats id now input l sound =
    run-cases id now input l (Repeats input) (λ code message. tt)
      (λ r old others rivals id' now'.
        Made-again input r _ (settle others l)
          (settle-Made input.idempotency_key r _ others l (old, refl)) rivals id' now')
      (λ p m free few unused others rivals id' now'.
        let r = new_refund id now input p in
        let old =
          find_refund-snoc input.idempotency_key r l.refunds unused
            ((eq_iff input.idempotency_key input.idempotency_key).1 refl) in
        let named = name_of-marked p l.payments (λ q mq e. sound.key q p mq m e) m in
        Made-again input r p.payment_id (settle others (paid_ledger r l))
          (settle-Made input.idempotency_key r p.payment_id others (paid_ledger r l) (old, named))
          rivals id' now')

-- On a sound ledger, after a refund that nobody races with was made or replayed, and after any refunds
-- of others since then: a further request with the same contents changes nothing and gets the same
-- answer, marked as a replay.
pub run-repeated :
    (id : Uuid) (now : ℕ) (input : RefundPaymentInput) (l : Ledger) (out : RefundPaymentOutput)
    (l' : Ledger)
    → IsSound l
    → run [] id now input l ≡ (done out, l')
    → (others rivals : List Refund) (id' : Uuid) (now' : ℕ)
    → run rivals id' now' input (settle others l') ≡ (done (as_replay out), settle others l')
run-repeated id now input l out l' sound e =
    subst (Repeats input) e (run-Repeats id now input l sound)
