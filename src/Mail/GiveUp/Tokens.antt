-- ===== src/Mail/GiveUp/Tokens.antt =====
-- What giving up a reset mail does to the tokens (src/mail/outbox.rs, src/auth/mail.rs).
use kohaku.Base.{
  ℕ, ◌≡◌, refl, ap, ◌∙◌, Bool, true, false, ◌&&◌, some, List, [], ◌∷◌, arith, Bool-cases, inl, inr,
  All,
}
use kohaku.Base.Table.{update, find}
use kohaku.Db.{Db, OutboxRow}
use kohaku.Mail.Kind.{kinds, reset_link, expire_reset_token, is_open_reset}
use kohaku.Mail.GiveUp.{is_unsent, has_id, find_kind, run_action, close, give_up}
use kohaku.Mail.GiveUp.Gone.{Gone, give_up-Gone}
use kohaku.Mail.Lifecycle.{find_unique}
use kohaku.Mail.Invariant.{IsValid}

find-All :
    (id : ℕ) (row : OutboxRow) (rs : List OutboxRow)
    → All (λ r. has_id id r ≡ true → r ≡ row) rs
    → find (λ r. has_id id r && is_unsent r) rs ≡ some row
    → find (has_id id) rs ≡ some row
unfolding find
find-All id row [] a e = e
find-All id row (r ∷ rs) a e = elim (Bool-cases (has_id id r)) [
  | inl t ↦ rw t (ap some (a.0 t))
  | inr f ↦ rw f (find-All id row rs a.1 (ground (arith, f, e)))
]

close-tokens : (b : Bool) (db : Db) (id : ℕ) → (close b db id).tokens ≡ db.tokens
unfolding close
close-tokens true db id = refl
close-tokens false db id = refl

reset-found : find_kind kinds reset_link.name ≡ some reset_link
unfolding find_kind find kinds reset_link
reset-found = refl

reset-action :
    (clock id : ℕ) (db : Db)
    → run_action (some reset_link) clock db id ≡ expire_reset_token clock db id
unfolding run_action reset_link
reset-action clock id db = refl

expire_reset_token-tokens :
    (clock id : ℕ) (db : Db) (row : OutboxRow) (user_id : ℕ)
    → find (has_id id) db.outbox ≡ some row
    → row.user_id ≡ some user_id
    → (expire_reset_token clock db id).tokens
      ≡ update (is_open_reset user_id) (λ t. record t { used_at = some clock }) db.tokens
unfolding expire_reset_token
expire_reset_token-tokens clock id db row user_id e u = rw (expire_reset_token, e, u) refl

-- Giving up a reset mail of an account, from a valid outbox where the mail waits: every unused
-- reset token of the account is used up, whichever mail carries it, no other token changes, and
-- no unsent row with the mail's id is left.
pub give_up-reset :
    (clock id : ℕ) (db : Db) (row : OutboxRow) (user_id : ℕ)
    → IsValid db
    → find (λ r. has_id id r && is_unsent r) db.outbox ≡ some row
    → row.kind ≡ reset_link.name
    → row.user_id ≡ some user_id
    → ((give_up kinds clock db id).tokens
        ≡ update (is_open_reset user_id) (λ t. record t { used_at = some clock }) db.tokens)
      × Gone id (give_up kinds clock db id).outbox
unfolding give_up IsValid
give_up-reset clock id db row user_id v e k u =
    let here = find-All id row db.outbox (find_unique id row db.outbox v.0 e) e in
    (
      rw (give_up, e, k, reset-found)
          (close-tokens row.token _ id
            ∙ (ap (λ d. d.tokens) (reset-action clock id db)
                ∙ expire_reset_token-tokens clock id db row user_id here u)),
      give_up-Gone kinds clock db id,
    )
