-- ===== src/Auth/Credentials/Accepted.antt =====
-- A second factor is accepted once (`code_accepted` of src/auth/credentials.rs).
use kohaku.Base.{
  ℕ, ◌≡◌, refl, sym, subst, Bool, true, false, Option, none, some, List, [], ◌∷◌, arith, count, All,
  Bool-cases, Option-cases, inl, inr,
}
use kohaku.Base.Int.{ℤ, ◌≤ℤ◌}
use kohaku.Base.Table.{update, delete}
use kohaku.Base.Text.{Text, is_ascii_whitespace, trim_matches}
use kohaku.Db.{Db, User}
use kohaku.Auth.Crypto.{Crypto}
use kohaku.Auth.Recovery.{consumed, consume, is_row, normalize}
use kohaku.Auth.Totp.{matching_step, is_code}
use kohaku.Auth.Credentials.{accept, consume_step, is_newer, code_accepted}

module _ {R : Type 0} where
  count_zero : (p : R → Bool) (rs : List R) → All (λ r. p r ≡ false) rs → count p rs ≡ 0
  count_zero p [] a = refl
  count_zero p (r ∷ rs) a = ground (arith, a.0, count_zero p rs a.1)

  delete_none : (p : R → Bool) (rs : List R) → All (λ r. p r ≡ false) (delete p rs)
  delete_none p [] = tt
  delete_none p (r ∷ rs) = elim (Bool-cases (p r)) [
    | inl t ↦ rw t (delete_none p rs)
    | inr f ↦ rw f (f, delete_none p rs)
  ]

-- After the write of a step, no row of the account takes that step or an earlier one.
update_older :
    (user_id : ℕ) (step older : ℤ) (us : List User)
    → older ≤ℤ step
    → All
        (λ u. is_newer user_id older u ≡ false)
        (update (is_newer user_id step) (λ u. record u { totp_last_step = some step }) us)
update_older user_id step older [] h = tt
update_older user_id step older (u ∷ us) h =
    (ground (arith, h), update_older user_id step older us h)

abbrev pub answer : Option (Db × Bool) → Option Bool
answer none = none
answer (some p) = some p.1

refused :
    (db : Db) (user_id : ℕ) (step : ℤ)
    → All (λ u. is_newer user_id step u ≡ false) db.users
    → answer (consume_step db user_id step) ≡ some false
unfolding consume_step consumed
refused db user_id step a = rw (count_zero (is_newer user_id step) db.users a) refl

consume_step-writes :
    (db db' : Db) (user_id : ℕ) (step : ℤ) (b : Bool)
    → consume_step db user_id step ≡ some (db', b)
    → db'.users
      ≡ update (is_newer user_id step) (λ u. record u { totp_last_step = some step }) db.users
unfolding consume_step
consume_step-writes db db' user_id step b e =
    elim (Option-cases (consumed (count (is_newer user_id step) db.users))) [
      | inl n ↦ ground (arith, n, e)
      | inr n ↦ ground (arith, n.1, e)
    ]

consume-writes :
    (crypto : Crypto) (db db' : Db) (user_id : ℕ) (code : Text) (b : Bool)
    → consume crypto db user_id code ≡ some (db', b)
    → db'.recovery_codes ≡ delete (is_row user_id (crypto.sha256 code)) db.recovery_codes
unfolding consume
consume-writes crypto db db' user_id code b e =
    elim (Option-cases (consumed (count (is_row user_id (crypto.sha256 code)) db.recovery_codes))) [
      | inl n ↦ ground (arith, n, e)
      | inr n ↦ ground (arith, n.1, e)
    ]

consume-used :
    (crypto : Crypto) (db : Db) (user_id : ℕ) (code : Text)
    → All (λ r. is_row user_id (crypto.sha256 code) r ≡ false) db.recovery_codes
    → answer (consume crypto db user_id code) ≡ some false
unfolding consume consumed
consume-used crypto db user_id code a =
    rw (count_zero (is_row user_id (crypto.sha256 code)) db.recovery_codes a) refl

step-once :
    (crypto : Crypto) (db db' : Db) (user_id : ℕ) (step : ℤ) (found : Option ℤ)
    → consume_step db user_id step ≡ some (db', true)
    → ((later : ℤ) → found ≡ some later → later ≤ℤ step)
    → answer (elim found [ none ↦ some (db', false) | some s ↦ consume_step db' user_id s ])
      ≡ some false
step-once crypto db db' user_id step none e h = refl
step-once crypto db db' user_id step (some later) e h = refused db' user_id later (
    subst (All (λ u. is_newer user_id later u ≡ false))
      (sym (consume_step-writes db db' user_id step true e))
      (update_older user_id step later db.users (h later refl)))

module _ (crypto : Crypto) (db db' : Db) (user_id : ℕ) (seed code : Text) (now later : ℕ) where
  accept-once :
      accept crypto db user_id seed code now ≡ some (db', true)
      → ((step step' : ℤ)
          → matching_step crypto seed code now ≡ some step
          → matching_step crypto seed code later ≡ some step'
          → step' ≤ℤ step)
      → answer (accept crypto db' user_id seed code later) ≡ some false
  unfolding accept
  accept-once e h = elim (Bool-cases (is_code code)) [
    | inl c ↦ elim (Option-cases (matching_step crypto seed code now)) [
      | inl n ↦ ground (arith, c, n, e)
      | inr n ↦
          rw (accept, c)
            (step-once crypto db db' user_id n.0 (matching_step crypto seed code later)
              (ground (arith, c, n.1, e)) (λ s k. h n.0 s n.1 k))
    ]
    | inr c ↦ elim (Option-cases (normalize code)) [
      | inl n ↦ ground (arith, c, n, e)
      | inr n ↦
          rw (accept, c, n.1)
            (consume-used crypto db' user_id n.0 (
              subst (All (λ r. is_row user_id (crypto.sha256 n.0) r ≡ false))
                (sym (consume-writes crypto db db' user_id n.0 true (ground (arith, c, n.1, e))))
                (delete_none (is_row user_id (crypto.sha256 n.0)) db.recovery_codes)))
    ]
  ]

-- A code that was accepted is refused when it is submitted again right after, at the same time or at
-- another whose window gives the code no later step: a recovery code because it is deleted, a TOTP
-- code because its step is recorded.
pub code_accepted-once :
    (crypto : Crypto) (db db' : Db) (user_id : ℕ) (seed code : Text) (now later : ℕ)
    → code_accepted crypto db user_id seed code now ≡ some (db', true)
    → ((step step' : ℤ)
        → matching_step crypto seed (trim_matches is_ascii_whitespace code) now ≡ some step
        → matching_step crypto seed (trim_matches is_ascii_whitespace code) later ≡ some step'
        → step' ≤ℤ step)
    → answer (code_accepted crypto db' user_id seed code later) ≡ some false
unfolding code_accepted
code_accepted-once crypto db db' user_id seed code now later e h =
    accept-once crypto db db' user_id seed (trim_matches is_ascii_whitespace code) now later e h
