-- ===== src/Mail/Attempt.antt =====
-- `record` of src/mail/outbox.rs: the outcome of an attempt.
pub mod Evolution
pub mod Settled
use kohaku.Base.{ℕ, ◌+◌, ◌&&◌, Option, none, some, List, if◌then◌else◌}
use kohaku.Base.Table.{update, delete, find}
use kohaku.Db.{Db, OutboxRow, sent}
use kohaku.Mail.Kind.{MailKind}
use kohaku.Mail.Retry.{deadline, next_attempt}
use kohaku.Mail.GiveUp.{is_unsent, has_id, give_up}

-- How an attempt ended; the failure's class is only logged.
pub data Outcome : Type 0 where
  delivered failed : Outcome

retry_or_give_up : List MailKind → ℕ → Db → ℕ → ℕ → Option ℕ → Db
retry_or_give_up kinds clock db id attempts (some next) = record db {
  outbox =
      update (has_id id) (λ r. record r { attempts = attempts; next_attempt_at = next }) db.outbox;
}
retry_or_give_up kinds clock db id attempts none =
    give_up kinds clock
      (record db { outbox = update (has_id id) (λ r. record r { attempts = attempts }) db.outbox })
      id

finish : List MailKind → ℕ → Db → ℕ → OutboxRow → Outcome → ℕ → Db
unfolding retry_or_give_up
finish kinds clock db id row delivered ended_at =
    if row.token then record db { outbox = delete (has_id id) db.outbox } else record db {
      outbox =
          update (has_id id) (λ r. record r { outcome = some sent; attempts = row.attempts + 1 })
            db.outbox;
    }
finish kinds clock db id row failed ended_at =
    let attempts = row.attempts + 1 in
    retry_or_give_up kinds clock db id attempts
      (next_attempt attempts ended_at (deadline row.queued_at row.expires_at))

-- `record`, by row id; a row deleted meanwhile stays deleted.
unfoldable pub record_outcome : List MailKind → ℕ → Db → ℕ → Outcome → ℕ → Db
unfolding finish
record_outcome kinds clock db id outcome ended_at =
    elim (find (λ r. has_id id r && is_unsent r) db.outbox) [
      | none ↦ db
      | some row ↦ finish kinds clock db id row outcome ended_at
    ]
