-- ===== src/Auth/Account/Enrolled.antt =====
-- What confirming an enrollment does (`confirm_totp` of src/admin/account.rs).
use kohaku.Base.{
  ℕ, ◌≤◌, ◌≡◌, ◌≢◌, refl, none, some, List, [], ◌∷◌, arith, All, Bool-cases, inl, inr, ◌==◌, length,
}
use kohaku.Base.Int.{ℤ}
use kohaku.Base.Table.{update, delete}
use kohaku.Base.Text.{Text}
use kohaku.Db.{Db, User, Role, Session, Device}
use kohaku.Auth.Audit.{audit}
use kohaku.Auth.Crypto.{Crypto}
use kohaku.Auth.Totp.{derive, matching_step}
use kohaku.Auth.Recovery.Replaced.{different, hashes, replace_lem}
use kohaku.Auth.Account.{
  not_started, wrong_code, enrolled, pending, enroll, finish_enroll, confirm_totp, end_others,
}

-- The account uses the new seed, with the step that was typed back as its last one.
abbrev pub Uses : ℕ → Text → ℤ → User → Type 0
Uses user_id nonce step u =
    u.id ≡ user_id → (u.totp_nonce ≡ some nonce) × (u.totp_last_step ≡ some step)

abbrev pub IsThis : ℕ → ℕ → Session → Type 0
IsThis user_id session_id s =
    s.user_id ≡ user_id → (s.id ≡ session_id) × (s.pending_totp_nonce ≡ none)

stored_users :
    (user_id : ℕ) (nonce : Text) (step : ℤ) (us : List User)
    → All (Uses user_id nonce step) (
        update
          (λ (u : User). u.id == user_id)
          (λ u. record u { totp_nonce = some nonce; totp_last_step = some step })
          us)
stored_users user_id nonce step [] = tt
stored_users user_id nonce step (u ∷ us) = elim (Bool-cases (u.id == user_id)) [
  | inl t ↦ rw t ((λ h. (refl, refl)), stored_users user_id nonce step us)
  | inr f ↦ rw f ((λ h. absurd (ground (arith, f, h))), stored_users user_id nonce step us)
]

end_others-IsThis :
    (user_id session_id : ℕ) (ss : List Session)
    → All (IsThis user_id session_id) (
        update
          (λ s. s.id == session_id)
          (λ s. record s { pending_totp_nonce = none })
          (end_others user_id session_id ss))
end_others-IsThis user_id session_id [] = tt
end_others-IsThis user_id session_id (s ∷ ss) = elim (Bool-cases (s.user_id == user_id)) [
  | inl t ↦ elim (Bool-cases (s.id == session_id)) [
    | inl h ↦
        rw (t, h) (rw h (λ k. (ground (arith, h), refl)), end_others-IsThis user_id session_id ss)
    | inr h ↦ rw (t, h) (end_others-IsThis user_id session_id ss)
  ]
  | inr f ↦ elim (Bool-cases (s.id == session_id)) [
    | inl h ↦
        rw f (rw h (λ k. absurd (ground (arith, f, k))), end_others-IsThis user_id session_id ss)
    | inr h ↦
        rw f (rw h (λ k. absurd (ground (arith, f, k))), end_others-IsThis user_id session_id ss)
  ]
]

no_devices :
    (user_id : ℕ) (ds : List Device)
    → All (λ d. d.user_id ≢ user_id) (delete (λ (d : Device). d.user_id == user_id) ds)
no_devices user_id [] = tt
no_devices user_id (d ∷ ds) = elim (Bool-cases (d.user_id == user_id)) [
  | inl t ↦ rw t (no_devices user_id ds)
  | inr f ↦ rw f ((λ k. ground (arith, f, k)), no_devices user_id ds)
]

-- The state and the codes of an enrollment.
abbrev pub IsEnrolled : ℕ → ℕ → Text → ℤ → Db → List Text → Type 0
IsEnrolled session_id user_id nonce step db' codes =
    (length codes ≡ 10)
    × All (Uses user_id nonce step) db'.users
    × All (IsThis user_id session_id) db'.sessions
    × All (λ d. d.user_id ≢ user_id) db'.known_devices

-- Without a pending enrollment, or with a code of no step in the window, nothing changes. With a
-- matching code, and codes of ten different hashes from the random source, the account uses the
-- new seed and the typed code's step is its last one, ten recovery codes are shown, its other
-- sessions and all its device cookies are gone, and the enrollment is no longer pending.
pub confirm_totp_lem :
    (crypto : Crypto) (db : Db) (session_id user_id : ℕ) (role : Role) (code : Text)
    (draws : List Text) (now : ℕ)
    → 10 ≤ different [] (hashes crypto draws)
    → (pending db session_id ≡ none
        → confirm_totp crypto db session_id user_id role code draws now ≡ some (db, not_started))
      × ((nonce : Text)
          → pending db session_id ≡ some nonce
          → matching_step crypto (derive crypto user_id nonce) code now ≡ none
          → confirm_totp crypto db session_id user_id role code draws now
            ≡ some (db, wrong_code nonce))
      × ((nonce : Text) (step : ℤ)
          → pending db session_id ≡ some nonce
          → matching_step crypto (derive crypto user_id nonce) code now ≡ some step
          → (db' : Db) × (codes : List Text) × (confirm_totp crypto db session_id user_id role code
                draws now
              ≡ some (db', enrolled codes))
            × IsEnrolled session_id user_id nonce step db' codes)
unfolding confirm_totp enroll finish_enroll audit
confirm_totp_lem crypto db session_id user_id role code draws now l = (
  λ p. rw (confirm_totp, p) refl,
  λ nonce p m. rw (confirm_totp, p, m) refl,
  λ nonce step p m.
      let stored : Db = record db {
        users =
            update (λ (u : User). u.id == user_id)
              (λ u. record u { totp_nonce = some nonce; totp_last_step = some step }) db.users;
      } in
      let r = replace_lem crypto stored user_id draws l in
      (
        finish_enroll session_id user_id role now (record stored { recovery_codes = r.0 }),
        r.1,
        rw (confirm_totp, p, m, enroll, r.2) refl,
        (
          r.3,
          stored_users user_id nonce step db.users,
          end_others-IsThis user_id session_id db.sessions,
          no_devices user_id db.known_devices,
        ),
      ),
)
