-- ===== src/Mail/Pick.antt =====
-- `pick` of src/mail/outbox.rs: the row that the worker attempts next.
pub mod Evolution
use kohaku.Base.{
  ℕ, Bool, ◌&&◌, Option, none, some, List, [], ◌∷◌, ltb, leb, ◌==◌, if◌then◌else◌, keep,
}
use kohaku.Base.Table.{delete, find}
use kohaku.Base.Text.{Text}
use kohaku.Db.{Db, User, OutboxRow, Priority, security, normal}
use kohaku.Mail.Kind.{MailKind}
use kohaku.Mail.GiveUp.{is_unsent, give_up_expired}

pub record DueRow : Type 0 where
  pub id : ℕ
  pub kind : Text
  pub address : Text
  pub subject : Text
  pub body : Text
  pub priority : Priority
  pub attempts : ℕ

-- `unreadable` is the error of a row whose account is gone, which rolls the transaction back; the
-- foreign key rules it out.
pub data Pick : Type 0 where
  due : DueRow → Pick
  wait : Option ℕ → Pick
  unreadable : Pick

abbrev pub rank : Priority → ℕ
rank security = 0
rank normal = 1

-- `ORDER BY priority = 'security' DESC, next_attempt_at, queued_at, id`.
unfoldable pub goes_before : OutboxRow → OutboxRow → Bool
goes_before a b =
    if rank a.priority == rank b.priority
    then if a.next_attempt_at == b.next_attempt_at
      then if a.queued_at == b.queued_at then ltb a.id b.id else ltb a.queued_at b.queued_at
      else ltb a.next_attempt_at b.next_attempt_at
    else ltb (rank a.priority) (rank b.priority)

-- The first row of a `SELECT` in that order.
unfoldable pub first_row : List OutboxRow → Option OutboxRow
unfolding goes_before
first_row [] = none
first_row (r ∷ rs) = elim (first_row rs) [
  | none ↦ some r
  | some best ↦ some (if goes_before best r then best else r)
]

unfoldable pub earlier : OutboxRow → Option ℕ → Option ℕ
earlier r none = if is_unsent r then some r.next_attempt_at else none
earlier r (some at) =
    some (if is_unsent r && ltb r.next_attempt_at at then r.next_attempt_at else at)

-- `SELECT min(next_attempt_at) FROM outbox WHERE outcome IS NULL`.
unfoldable pub next_wake : List OutboxRow → Option ℕ
next_wake [] = none
next_wake (r ∷ rs) = earlier r (next_wake rs)

-- `coalesce(o.address, u.email)` over the left join.
unfoldable pub delivery_address : Db → OutboxRow → Option Text
delivery_address db r = elim r.address [
  | some address ↦ some address
  | none ↦ elim r.user_id [
    | none ↦ none
    | some user_id ↦ elim (find (λ (u : User). u.id == user_id) db.users) [
      | none ↦ none
      | some u ↦ some u.email
    ]
  ]
]

abbrev pub is_due : ℕ → OutboxRow → Bool
is_due now r = is_unsent r && leb r.next_attempt_at now

unfoldable pub due_row : Text → OutboxRow → DueRow
due_row address r = record {
  id = r.id;
  kind = r.kind;
  address = address;
  subject = r.subject;
  body = r.body;
  priority = r.priority;
  attempts = r.attempts;
}

-- The rows that `pick` leaves: expired ones are given up, due placeholders deleted unsent.
unfoldable pub tidy : List MailKind → ℕ → Db → ℕ → Db
tidy kinds clock db now =
    let given = (give_up_expired kinds clock db now).0 in
    record given { outbox = delete (λ r. r.placeholder && is_due now r) given.outbox }

unfoldable pub pick : List MailKind → ℕ → Db → ℕ → Db × Pick
unfolding due_row
pick kinds clock db now =
    let left = tidy kinds clock db now in
    elim (first_row (keep (is_due now) left.outbox)) [
      | some r ↦ elim (delivery_address left r) [
        | some address ↦ (left, due (due_row address r))
        | none ↦ (db, unreadable)
      ]
      | none ↦ (left, wait (next_wake left.outbox))
    ]
