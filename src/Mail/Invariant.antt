-- ===== src/Mail/Invariant.antt =====
-- The operations of src/mail/outbox.rs and the outbox step of src/jobs.rs in any order, and what
-- holds of the outbox after them.
use kohaku.Base.{
  ℕ, suc, ◌≤◌, ◌<◌, ◌≡◌, ◌≢◌, refl, sym, subst, Bool, true, Option, none, some, List, [], ◌∷◌, ◌++◌,
  arith, Bool-cases, inl, inr, All,
}
use kohaku.Base.Text.{Text}
use kohaku.Db.{Db, OutboxRow}
use kohaku.Mail.Kind.{kinds}
use kohaku.Mail.Enqueue.{
  NewMail, Recipient, address_recipient, user_recipient, queue, enqueue_to, enqueue,
}
use kohaku.Mail.Retry.{deadline}
use kohaku.Mail.GiveUp.{retain}
use kohaku.Mail.GiveUp.Evolution.{kinds-IsQuiet, retain-Evolves}
use kohaku.Mail.Attempt.{Outcome, record_outcome}
use kohaku.Mail.Attempt.Evolution.{record_outcome-Evolves}
use kohaku.Mail.Pick.{pick}
use kohaku.Mail.Pick.Evolution.{pick-Evolves}
use kohaku.Mail.Lifecycle.{
  Change, Changes, unchanged, and_then, count_failure, schedule, deliver, abandon, Evolves,
  Evolves-All, Evolves-DistinctIds, DistinctIds,
}

-- A row's id was given out, its next attempt is before its deadline, and a mail that carries a
-- token never gets an outcome: its row, and the token in its body, is deleted instead.
abbrev pub IsSound : ℕ → OutboxRow → Type 0
IsSound seq r =
    (r.id ≤ seq)
    × (r.next_attempt_at < deadline r.queued_at r.expires_at)
    × (r.token ≡ true → r.outcome ≡ none)

unfoldable pub IsValid : Db → Type 0
IsValid db = DistinctIds db.outbox × All (IsSound db.outbox_seq) db.outbox

-- A transaction on the outbox; an enqueue that is refused writes nothing.
pub data Event : Type 0 where
  enqueued : NewMail → ℕ → Event
  picked : ℕ → ℕ → Event
  recorded : ℕ → ℕ → Outcome → ℕ → Event
  retained : ℕ → ℕ → Event

-- The mails that are queued are of kinds that live for some time.
abbrev pub HasLifetime : Event → Type 0
HasLifetime (enqueued mail now) = 0 < mail.kind.lifetime
HasLifetime (picked clock now) = Unit
HasLifetime (recorded clock id outcome ended_at) = Unit
HasLifetime (retained clock now) = Unit

-- The state after a transaction that may have been refused.
abbrev pub committed : Db → Option (Db × ℕ) → Db
committed db none = db
committed db (some result) = result.0

module _ (valid : Text → Bool) (subject_rule : Text → Text) where
  pub step : Db → Event → Db
  step db (enqueued mail now) = committed db (enqueue valid subject_rule db mail now)
  step db (picked clock now) = (pick kinds clock db now).0
  step db (recorded clock id outcome ended_at) = record_outcome kinds clock db id outcome ended_at
  step db (retained clock now) = retain kinds clock db now

  unfoldable pub run : Db → List Event → Db
  unfolding step
  run db [] = db
  run db (e ∷ es) = run (step db e) es

Change-IsSound : (seq : ℕ) {r s : OutboxRow} → Change r s → IsSound seq r → IsSound seq s
Change-IsSound seq (count_failure o e) h = subst (IsSound seq) (sym e) h
Change-IsSound seq (schedule next o l e) h = subst (IsSound seq) (sym e) (h.0, l, h.2)
Change-IsSound seq (deliver o t e) h =
    subst (IsSound seq) (sym e) (h.0, h.1, λ t'. ground (arith, t, t'))
Change-IsSound seq (abandon o t e) h =
    subst (IsSound seq) (sym e) (h.0, h.1, λ t'. ground (arith, t, t'))

Changes-IsSound : (seq : ℕ) {r s : OutboxRow} → Changes r s → IsSound seq r → IsSound seq s
Changes-IsSound seq unchanged h = h
Changes-IsSound seq (and_then p c) h = Change-IsSound seq c (Changes-IsSound seq p h)

Evolves-IsValid :
    (db db' : Db)
    → Evolves db.outbox db'.outbox × (db'.outbox_seq ≡ db.outbox_seq)
    → IsValid db
    → IsValid db'
unfolding IsValid
Evolves-IsValid db db' p h = (
  Evolves-DistinctIds p.0 h.0,
  subst (λ seq. All (IsSound seq) db'.outbox) (sym p.1)
      (Evolves-All (IsSound db.outbox_seq) (λ r s c. Changes-IsSound db.outbox_seq c) p.0 h.1),
)

-- A new row at the end, with the next id.
append-DistinctIds :
    (seq : ℕ) (rs : List OutboxRow) (new : OutboxRow)
    → new.id ≡ suc seq
    → DistinctIds rs
    → All (IsSound seq) rs
    → DistinctIds (rs ++ (new ∷ []))
append-DistinctIds seq [] new e d a = (tt, tt)
append-DistinctIds seq (r ∷ rs) new e d a = (others rs d.0, append-DistinctIds seq rs new e d.1 a.1)
  where
    others :
        (xs : List OutboxRow)
        → All (λ x. x.id ≢ r.id) xs
        → All (λ x. x.id ≢ r.id) (xs ++ (new ∷ []))
    others [] h = (ground (arith, a.0.0, e), tt)
    others (x ∷ xs) h = (h.0, others xs h.1)

append-IsSound :
    (seq : ℕ) (rs : List OutboxRow) (new : OutboxRow)
    → IsSound (suc seq) new
    → All (IsSound seq) rs
    → All (IsSound (suc seq)) (rs ++ (new ∷ []))
append-IsSound seq [] new n a = (n, tt)
append-IsSound seq (r ∷ rs) new n a =
    ((omega (arith, a.0.0), a.0.1, a.0.2), append-IsSound seq rs new n a.1)

queue-IsValid :
    (subject_rule : Text → Text) (db : Db) (mail : NewMail) (user_id : Option ℕ)
    (address : Option Text) (now : ℕ)
    → 0 < mail.kind.lifetime
    → IsValid db
    → IsValid (queue subject_rule db mail user_id address now).0
unfolding IsValid queue deadline
queue-IsValid subject_rule db mail user_id address now l h = (
  append-DistinctIds db.outbox_seq db.outbox _ refl h.0 h.1,
  append-IsSound db.outbox_seq db.outbox _ (omega arith, omega (arith, l), λ t. refl) h.1,
)

module _ (valid : Text → Bool) (subject_rule : Text → Text) where
  enqueue_to-IsValid :
      (db : Db) (mail : NewMail) (now : ℕ) (r : Recipient)
      → 0 < mail.kind.lifetime
      → IsValid db
      → IsValid (committed db (enqueue_to valid subject_rule db mail now r))
  unfolding enqueue_to
  enqueue_to-IsValid db mail now (address_recipient address) l h =
      elim (Bool-cases (valid address)) [
        | inl v ↦ rw v (queue-IsValid subject_rule db mail none (some address) now l h)
        | inr v ↦ rw v h
      ]
  enqueue_to-IsValid db mail now (user_recipient id) l h =
      queue-IsValid subject_rule db mail (some id) none now l h

  step-IsValid :
      (db : Db) (e : Event) → HasLifetime e → IsValid db → IsValid (step valid subject_rule db e)
  unfolding step IsValid enqueue
  step-IsValid db (enqueued mail now) l h = enqueue_to-IsValid db mail now mail.recipient l h
  step-IsValid db (picked clock now) l h =
      Evolves-IsValid db (pick kinds clock db now).0
        (pick-Evolves kinds kinds-IsQuiet clock db now h.0) h
  step-IsValid db (recorded clock id outcome ended_at) l h =
      Evolves-IsValid db (record_outcome kinds clock db id outcome ended_at)
        (record_outcome-Evolves kinds kinds-IsQuiet clock db id ended_at outcome h.0) h
  step-IsValid db (retained clock now) l h =
      Evolves-IsValid db (retain kinds clock db now)
        (retain-Evolves kinds kinds-IsQuiet clock db now h.0) h

  -- From a valid outbox, such as an empty one, no sequence of queueing, picking, recording and
  -- retention reaches an invalid one, when the mails that are queued live for some time: ids stay
  -- distinct, every next attempt stays before the deadline of its row, and no row of a mail with
  -- a token has an outcome.
  pub run-IsValid :
      (db : Db) (es : List Event)
      → All HasLifetime es
      → IsValid db
      → IsValid (run valid subject_rule db es)
  unfolding run
  run-IsValid db [] l h = h
  run-IsValid db (e ∷ es) l h =
      run-IsValid (step valid subject_rule db e) es l.1 (step-IsValid db e l.0 h)

  -- From a valid outbox, a transaction other than a queueing only counts a failure of an unsent
  -- row, sets its next attempt within the deadline, gives a row without a token its outcome, or
  -- deletes rows; the order is kept, and a row with an outcome is not written again.
  pub step-Evolves :
      (db : Db) (e : Event)
      → IsValid db
      → ((mail : NewMail) (now : ℕ) → e ≢ enqueued mail now)
      → Evolves db.outbox (step valid subject_rule db e).outbox
  unfolding step IsValid
  step-Evolves db (enqueued mail now) h n = absurd (n mail now refl)
  step-Evolves db (picked clock now) h n = (pick-Evolves kinds kinds-IsQuiet clock db now h.0).0
  step-Evolves db (recorded clock id outcome ended_at) h n =
      (record_outcome-Evolves kinds kinds-IsQuiet clock db id ended_at outcome h.0).0
  step-Evolves db (retained clock now) h n = (retain-Evolves kinds kinds-IsQuiet clock db now h.0).0
