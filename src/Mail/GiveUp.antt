-- ===== src/Mail/GiveUp.antt =====
-- `give_up` and `give_up_expired` of src/mail/outbox.rs, and the outbox step of src/jobs.rs. The
-- clock of the database, `unixepoch()`, is an argument where a give-up action reads it.
pub mod Evolution
pub mod Gone
pub mod Kept
pub mod Tokens
use kohaku.Base.{
  ℕ, Bool, true, false, not, ◌&&◌, Option, none, some, List, [], ◌∷◌, map, leb, ◌==◌, is_some, keep,
  length,
}
use kohaku.Base.Table.{update, delete, find}
use kohaku.Base.Text.{Text, text_eq}
use kohaku.Db.{Db, OutboxRow, given_up}
use kohaku.Mail.Kind.{MailKind}
use kohaku.Mail.Retry.{deadline}

abbrev pub is_unsent : OutboxRow → Bool
is_unsent r = not (is_some r.outcome)

abbrev pub has_id : ℕ → OutboxRow → Bool
has_id id r = r.id == id

pub find_kind : List MailKind → Text → Option MailKind
unfolding find
find_kind kinds name = find (λ k. text_eq k.name name) kinds

unfoldable pub run_action : Option MailKind → ℕ → Db → ℕ → Db
run_action none clock db id = db
run_action (some kind) clock db id = elim kind.give_up [
  | none ↦ db
  | some action ↦ action clock db id
]

close : Bool → Db → ℕ → Db
close true db id = record db { outbox = delete (has_id id) db.outbox }
close false db id = record db {
  outbox =
      update (λ r. has_id id r && is_unsent r) (λ r. record r { outcome = some given_up })
        db.outbox;
}

unfoldable pub give_up : List MailKind → ℕ → Db → ℕ → Db
unfolding find_kind run_action close
give_up kinds clock db id = elim (find (λ r. has_id id r && is_unsent r) db.outbox) [
  | none ↦ db
  | some row ↦ close row.token (run_action (find_kind kinds row.kind) clock db id) id
]

give_up_all : List MailKind → ℕ → Db → List ℕ → Db
unfolding give_up
give_up_all kinds clock db [] = db
give_up_all kinds clock db (id ∷ ids) = give_up_all kinds clock (give_up kinds clock db id) ids

abbrev pub is_expired : ℕ → OutboxRow → Bool
is_expired now r = is_unsent r && leb (deadline r.queued_at r.expires_at) now

unfoldable pub give_up_expired : List MailKind → ℕ → Db → ℕ → Db × ℕ
unfolding give_up_all
give_up_expired kinds clock db now =
    let ids = map (λ r. r.id) (keep (is_expired now) db.outbox) in
    (give_up_all kinds clock db ids, length ids)

-- The outbox step of `retention` in src/jobs.rs.
unfoldable pub retain : List MailKind → ℕ → Db → ℕ → Db
retain kinds clock db now =
    let given = (give_up_expired kinds clock db now).0 in
    record given { outbox = delete (λ r. is_some r.outcome) given.outbox }
