-- ===== src/Mail/Attempt/Settled.antt =====
-- A recorded outcome settles the row for a while (src/mail/outbox.rs).
use kohaku.Base.{
  All-imp, ℕ, ◌+◌, ◌*◌, ◌≤◌, ◌≡◌, refl, true, ◌&&◌, Option, none, some, List, [], ◌∷◌, arith,
  Bool-cases, Option-cases, inl, inr, All,
}
use kohaku.Base.Table.{update, find}
use kohaku.Db.{Db, OutboxRow, sent}
use kohaku.Mail.Kind.{MailKind}
use kohaku.Mail.Retry.{deadline, next_attempt, next_attempt_bounds}
use kohaku.Mail.GiveUp.{is_unsent, has_id}
use kohaku.Mail.GiveUp.Gone.{Gone, give_up-Gone, delete-Gone, find-none}
use kohaku.Mail.Attempt.{delivered, failed, retry_or_give_up, finish, record_outcome}

-- An unsent row with the id is attempted a minute to two hours after the time, within its deadline.
abbrev pub IsSettled : ℕ → ℕ → OutboxRow → Type 0
IsSettled id ended_at r =
    (has_id id r && is_unsent r) ≡ true
    → (ended_at + 60 ≤ r.next_attempt_at) × (r.next_attempt_at ≤ ended_at + 2 * 60 * 60)

Gone-IsSettled :
    (id ended_at : ℕ) (rs : List OutboxRow) → Gone id rs → All (IsSettled id ended_at) rs
Gone-IsSettled id ended_at rs g = All-imp rs (λ r h k. absurd (ground (arith, h, k))) g

update-IsSettled :
    (id ended_at attempts next : ℕ) (rs : List OutboxRow)
    → ended_at + 60 ≤ next
    → next ≤ ended_at + 2 * 60 * 60
    → All
        (IsSettled id ended_at)
        (update (has_id id) (λ r. record r { attempts = attempts; next_attempt_at = next }) rs)
update-IsSettled id ended_at attempts next [] l h = tt
update-IsSettled id ended_at attempts next (r ∷ rs) l h = elim (Bool-cases (has_id id r)) [
  | inl t ↦ rw t ((λ k. (l, h)), update-IsSettled id ended_at attempts next rs l h)
  | inr f ↦
      rw f ((λ k. absurd (ground (arith, f, k))), update-IsSettled id ended_at attempts next rs l h)
]

deliver-Gone :
    (id attempts : ℕ) (rs : List OutboxRow)
    → Gone id (update (has_id id) (λ r. record r { outcome = some sent; attempts = attempts }) rs)
deliver-Gone id attempts [] = tt
deliver-Gone id attempts (r ∷ rs) = elim (Bool-cases (has_id id r)) [
  | inl t ↦ rw t (ground arith, deliver-Gone id attempts rs)
  | inr f ↦ rw f (ground (arith, f), deliver-Gone id attempts rs)
]

module _ (kinds : List MailKind) (clock : ℕ) where
  retry_or_give_up-IsSettled :
      (db : Db) (id attempts ended_at limit : ℕ) (next : Option ℕ)
      → next_attempt attempts ended_at limit ≡ next
      → All (IsSettled id ended_at) (retry_or_give_up kinds clock db id attempts next).outbox
  unfolding retry_or_give_up
  retry_or_give_up-IsSettled db id attempts ended_at limit (some next) e =
      let b = (next_attempt_bounds attempts ended_at limit).0 next e in
      update-IsSettled id ended_at attempts next db.outbox b.0 b.1
  retry_or_give_up-IsSettled db id attempts ended_at limit none e =
      Gone-IsSettled id ended_at _ (give_up-Gone kinds clock _ id)

  finish-IsSettled :
      (db : Db) (id ended_at : ℕ) (row : OutboxRow)
      → Gone id (finish kinds clock db id row delivered ended_at).outbox
        × All (IsSettled id ended_at) (finish kinds clock db id row failed ended_at).outbox
  unfolding finish
  finish-IsSettled db id ended_at row = (
    delivered_gone,
    retry_or_give_up-IsSettled db id (row.attempts + 1) ended_at
        (deadline row.queued_at row.expires_at) _ refl,
  )
    where
      delivered_gone : Gone id (finish kinds clock db id row delivered ended_at).outbox
      delivered_gone = elim (Bool-cases row.token) [
        | inl t ↦ rw t (delete-Gone id db.outbox)
        | inr f ↦ rw f (deliver-Gone id (row.attempts + 1) db.outbox)
      ]

  -- Once an attempt is recorded as delivered, no unsent row with its id is left; once it is
  -- recorded as failed, such a row is attempted again no sooner than a minute and no later than
  -- two hours after it ended.
  pub record_outcome-IsSettled :
      (db : Db) (id ended_at : ℕ)
      → Gone id (record_outcome kinds clock db id delivered ended_at).outbox
        × All (IsSettled id ended_at) (record_outcome kinds clock db id failed ended_at).outbox
  unfolding record_outcome
  record_outcome-IsSettled db id ended_at =
      elim (Option-cases (find (λ r. has_id id r && is_unsent r) db.outbox)) [
        | inl e ↦
            let g = find-none _ db.outbox e in
            rw (record_outcome, e) (g, Gone-IsSettled id ended_at db.outbox g)
        | inr e ↦ rw (record_outcome, e.1) (finish-IsSettled db id ended_at e.0)
      ]
