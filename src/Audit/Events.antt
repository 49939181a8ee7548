-- ===== src/Audit/Events.antt =====
-- The audit log: it only grows, and no two events of an execution have one sequence number.
use safeops.Prelude.{
  ◌≡◌, refl, ◌∙◌, inl, inr, false, some, List, [], ◌∷◌, ◌++◌, append_assoc, append-nil, arith, any,
  Bool-cases,
}
use safeops.Model.Rows.{AuditEvent}
use safeops.Model.Db.{clashes, insert_events}

-- An insertion that succeeds appends the new events.
pub insert_events-append :
    (es table : List AuditEvent) {l : List AuditEvent}
    → insert_events es table ≡ some l
    → l ≡ table ++ es
unfolding insert_events
insert_events-append [] table h = rw append-nil (cc)
insert_events-append (e ∷ es) table h = elim (Bool-cases (any (clashes e) table)) [
  | inl hit ↦ absurd (cc (rw hit at h))
  | inr free ↦
      insert_events-append es (table ++ e ∷ []) (rw free at h) ∙ append_assoc table (e ∷ []) es
]

-- No two events of one execution have the same sequence number.
abbrev pub AreUnique : List AuditEvent → Type 0
AreUnique [] = Unit
AreUnique (e ∷ es) = (any (clashes e) es ≡ false) × AreUnique es

clashes_comm : (e f : AuditEvent) → clashes e f ≡ clashes f e
clashes_comm e f = ground arith

any-snoc :
    (e f : AuditEvent) (es : List AuditEvent)
    → any (clashes e) es ≡ false
    → clashes e f ≡ false
    → any (clashes e) (es ++ f ∷ []) ≡ false
any-snoc e f [] h k = rw k
any-snoc e f (x ∷ es) h k = ground (arith, any-snoc e f es)

AreUnique-snoc :
    (es : List AuditEvent) (f : AuditEvent)
    → AreUnique es
    → any (clashes f) es ≡ false
    → AreUnique (es ++ f ∷ [])
AreUnique-snoc [] f u h = (refl, tt)
AreUnique-snoc (e ∷ es) f u h =
    (any-snoc e f es u.0 (ground (arith, clashes_comm e f)), AreUnique-snoc es f u.1 (ground arith))

pub insert_events-AreUnique :
    (es table : List AuditEvent) {l : List AuditEvent}
    → AreUnique table
    → insert_events es table ≡ some l
    → AreUnique l
unfolding insert_events
insert_events-AreUnique [] table {l} u h = let e : table ≡ l = cc in rw (← e) u
insert_events-AreUnique (e ∷ es) table u h = elim (Bool-cases (any (clashes e) table)) [
  | inl hit ↦ absurd (cc (rw hit at h))
  | inr free ↦
      insert_events-AreUnique es (table ++ e ∷ []) (AreUnique-snoc table e u free) (rw free at h)
]
