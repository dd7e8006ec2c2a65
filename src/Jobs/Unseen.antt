-- ===== src/Jobs/Unseen.antt =====
-- The sign-in step of retention (src/jobs.rs) removes only what no request can use.
use kohaku.Base.{
  ℕ, ◌+◌, ◌≤◌, ◌≡◌, refl, ap, sym, ◌∙◌, Bool, true, false, ◌&&◌, ◌||◌, List, [], ◌∷◌, arith, any,
  leb, Bool-cases, inl, inr, is_some,
}
use kohaku.Base.Table.{find, delete}
use kohaku.Base.Text.{Text}
use kohaku.Db.{Db, Session, Device, Token}
use kohaku.Mail.Kind.{is_reset}
use kohaku.Auth.Session.{
  current, is_live, is_known_device, idle_seconds, absolute_seconds, device_seconds,
}
use kohaku.Auth.Session.Reader.{reader, current-reader}
use kohaku.Auth.Reset.{token_valid, has_enabled}
use kohaku.Jobs.{drop_sign_in}

module _ {R : Type 0} (p q : R → Bool) (apart : (r : R) → p r ≡ true → q r ≡ false) where
  find-delete : (rs : List R) → find p (delete q rs) ≡ find p rs
  unfolding find
  find-delete [] = refl
  find-delete (r ∷ rs) = elim (Bool-cases (q r)) [
    | inl t ↦ elim (Bool-cases (p r)) [
      | inl h ↦ absurd (ground (arith, apart r h, t))
      | inr h ↦ rw (t, h) (find-delete rs)
    ]
    | inr f ↦ elim (Bool-cases (p r)) [
      | inl h ↦ rw (f, h) refl
      | inr h ↦ rw (f, h) (find-delete rs)
    ]
  ]

  any-delete : (rs : List R) → any p (delete q rs) ≡ any p rs
  any-delete [] = refl
  any-delete (r ∷ rs) = elim (Bool-cases (q r)) [
    | inl t ↦ elim (Bool-cases (p r)) [
      | inl h ↦ absurd (ground (arith, apart r h, t))
      | inr h ↦ rw (t, h) (any-delete rs)
    ]
    | inr f ↦ rw f (ap (λ b. p r || b) (any-delete rs))
  ]

-- At the time of the step and later, the same sessions are current, the same devices are known and
-- the same reset links are valid as without it.
pub drop_sign_in-unseen :
    (db : Db) (now later user_id : ℕ) (hash : Text)
    → now ≤ later
    → ((current (drop_sign_in db now) hash later).1 ≡ (current db hash later).1)
      × (is_known_device (drop_sign_in db now) user_id hash later
          ≡ is_known_device db user_id hash later)
      × (token_valid (drop_sign_in db now) hash later ≡ token_valid db hash later)
unfolding is_known_device token_valid drop_sign_in has_enabled
drop_sign_in-unseen db now later user_id hash l = (
  current-reader (drop_sign_in db now) hash later
      ∙ (ap (λ o. reader o db.users)
            (find-delete (is_live hash later)
              (λ (s : Session).
                leb (s.last_seen + idle_seconds) now || leb (s.created_at + absolute_seconds) now)
              (λ s h. ground (arith, h)) db.sessions)
          ∙ sym (current-reader db hash later)),
  any-delete _ (λ (d : Device). leb (d.created_at + device_seconds) now) (λ d h. ground (arith, h))
      db.known_devices,
  any-delete _ (λ (t : Token). is_reset t.purpose && (is_some t.used_at || leb t.expires_at now))
      (λ t h. ground (arith, h)) db.tokens,
)
