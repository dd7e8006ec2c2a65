-- ===== src/Mail/Attempt/Evolution.antt =====
-- What the outcome of an attempt does to the rows of the outbox (src/mail/outbox.rs).
use kohaku.Base.{
  ℕ, ◌+◌, ◌≡◌, refl, ◌&&◌, Option, none, some, List, arith, Bool-cases, Option-cases, inl, inr, All,
}
use kohaku.Base.Table.{update, find, find-holds}
use kohaku.Db.{Db, OutboxRow, sent}
use kohaku.Mail.Kind.{MailKind}
use kohaku.Mail.Retry.{deadline, next_attempt, next_attempt_bounds}
use kohaku.Mail.GiveUp.{is_unsent, has_id}
use kohaku.Mail.GiveUp.Evolution.{IsQuiet, give_up-Evolves, give_up-seq}
use kohaku.Mail.Attempt.{Outcome, delivered, failed, retry_or_give_up, finish, record_outcome}
use kohaku.Mail.Lifecycle.{
  Evolves, Evolves-refl, Evolves-trans, Evolves-DistinctIds, delete-Evolves, update_id-Evolves,
  DistinctIds, count_failure, schedule, deliver,
}

module _ (kinds : List MailKind) (quiet : All IsQuiet kinds) (clock : ℕ) where
  retry_or_give_up-Evolves :
      (db : Db) (id ended_at : ℕ) (row : OutboxRow) (next : Option ℕ)
      → DistinctIds db.outbox
      → find (λ r. has_id id r && is_unsent r) db.outbox ≡ some row
      → next_attempt (row.attempts + 1) ended_at (deadline row.queued_at row.expires_at) ≡ next
      → Evolves db.outbox (retry_or_give_up kinds clock db id (row.attempts + 1) next).outbox
        × ((retry_or_give_up kinds clock db id (row.attempts + 1) next).outbox_seq ≡ db.outbox_seq)
  unfolding retry_or_give_up
  retry_or_give_up-Evolves db id ended_at row (some next) d e n =
      let limit = deadline row.queued_at row.expires_at in
      (
        update_id-Evolves id (has_id id)
            (λ r. record r { attempts = row.attempts + 1; next_attempt_at = next }) row db.outbox
            (λ r h. h) d e
            (schedule next (ground (arith, find-holds _ db.outbox row e))
              ((next_attempt_bounds (row.attempts + 1) ended_at limit).0 next n).2 refl),
        refl,
      )
  retry_or_give_up-Evolves db id ended_at row none d e n =
      let counted =
        update_id-Evolves id (has_id id) (λ r. record r { attempts = row.attempts + 1 }) row
          db.outbox (λ r h. h) d e
          (count_failure (ground (arith, find-holds _ db.outbox row e)) refl) in
      let db' : Db = record db {
        outbox = update (has_id id) (λ r. record r { attempts = row.attempts + 1 }) db.outbox;
      } in
      (
        Evolves-trans counted
            (give_up-Evolves kinds quiet clock db' id (Evolves-DistinctIds counted d)),
        give_up-seq kinds quiet clock db' id,
      )

  finish-Evolves :
      (db : Db) (id ended_at : ℕ) (row : OutboxRow) (outcome : Outcome)
      → DistinctIds db.outbox
      → find (λ r. has_id id r && is_unsent r) db.outbox ≡ some row
      → Evolves db.outbox (finish kinds clock db id row outcome ended_at).outbox
        × ((finish kinds clock db id row outcome ended_at).outbox_seq ≡ db.outbox_seq)
  unfolding finish
  finish-Evolves db id ended_at row delivered d e = elim (Bool-cases row.token) [
    | inl t ↦ rw t (delete-Evolves (has_id id) db.outbox, refl)
    | inr t ↦ rw t (
      update_id-Evolves id (has_id id)
          (λ r. record r { outcome = some sent; attempts = row.attempts + 1 }) row db.outbox
          (λ r h. h) d e (deliver (ground (arith, find-holds _ db.outbox row e)) t refl),
      refl,
    )
  ]
  finish-Evolves db id ended_at row failed d e =
      retry_or_give_up-Evolves db id ended_at row _ d e refl

  pub record_outcome-Evolves :
      (db : Db) (id ended_at : ℕ) (outcome : Outcome)
      → DistinctIds db.outbox
      → Evolves db.outbox (record_outcome kinds clock db id outcome ended_at).outbox
        × ((record_outcome kinds clock db id outcome ended_at).outbox_seq ≡ db.outbox_seq)
  unfolding record_outcome
  record_outcome-Evolves db id ended_at outcome d =
      elim (Option-cases (find (λ r. has_id id r && is_unsent r) db.outbox)) [
        | inl e ↦ rw (record_outcome, e) (Evolves-refl db.outbox, refl)
        | inr e ↦ rw (record_outcome, e.1) (finish-Evolves db id ended_at e.0 outcome d e.1)
      ]
