-- ===== src/Mail/Choice.antt =====
-- What `pick` of src/mail/outbox.rs returns: the row that is due first, or how long to wait.
use kohaku.Base.{ℕ, ◌≤◌, ◌<◌, ◌≡◌, true, false, ◌&&◌, none, some, List, All}
use kohaku.Base.Text.{Text}
use kohaku.Db.{Db, OutboxRow}
use kohaku.Mail.Retry.{deadline}
use kohaku.Mail.GiveUp.{is_unsent, is_expired}
use kohaku.Mail.Lifecycle.{Evolves}
use kohaku.Mail.Pick.{Pick, due, wait, unreadable, goes_before, is_due, delivery_address, due_row}
use kohaku.Mail.Order.{In, IsWake}

-- A row that `pick` may still return.
abbrev pub IsLeft : ℕ → OutboxRow → Type 0
IsLeft now r = (is_expired now r ≡ false) × ((r.placeholder && is_due now r) ≡ false)

-- The row is due, before its deadline and no placeholder, and no due row goes before it.
abbrev pub IsNext : ℕ → List OutboxRow → OutboxRow → Type 0
IsNext now rows r =
    In r rows
    × (is_unsent r ≡ true)
    × (r.next_attempt_at ≤ now)
    × (now < deadline r.queued_at r.expires_at)
    × (r.placeholder ≡ false)
    × All (λ s. is_due now s ≡ true → goes_before s r ≡ false) rows

-- A due row comes with its address; a wait means that nothing is due before the wake time; an
-- error means that the first due row has no address.
abbrev pub IsRight : ℕ → Db → Pick → Type 0
IsRight now left (due d) =
    (r : OutboxRow) × IsNext now left.outbox r
    × ((address : Text) × (delivery_address left r ≡ some address) × (d ≡ due_row address r))
IsRight now left (wait at) = All (λ s. is_due now s ≡ false) left.outbox × IsWake left.outbox at
IsRight now left unreadable =
    (r : OutboxRow) × IsNext now left.outbox r × (delivery_address left r ≡ none)

-- The outbox with its expired rows given up and its due placeholders deleted: none of either is left,
-- every other row is as it was, and rows only change as the lifecycle allows.
abbrev pub IsTidied : ℕ → List OutboxRow → List OutboxRow → Type 0
IsTidied now before after =
    All (IsLeft now) after
    × ((r : OutboxRow) → In r before → IsLeft now r → In r after)
    × Evolves before after

-- The state that is stored with the answer; an error stores nothing.
abbrev pub IsPicked : ℕ → Db → Db → Pick → Type 0
IsPicked now before after (due d) =
    IsTidied now before.outbox after.outbox × IsRight now after (due d)
IsPicked now before after (wait at) =
    IsTidied now before.outbox after.outbox × IsRight now after (wait at)
IsPicked now before after unreadable =
    (after ≡ before)
    × ((left : Db) × IsTidied now before.outbox left.outbox × IsRight now left unreadable)
