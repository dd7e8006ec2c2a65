-- ===== src/Auth/Reset/Submitted.antt =====
-- Which reset links set a password, and what that changes (`link_submit` of src/admin/reset.rs).
use kohaku.Base.{
  ℕ, ◌≡◌, refl, sym, ap, ◌∙◌, subst, Bool, true, false, not, ◌&&◌, Option, none, some, List, [],
  ◌∷◌, map, arith, All, any, keep, Bool-cases, Option-cases, inl, inr, ◌==◌, if◌then◌else◌,
  is_some_and,
}
use kohaku.Base.Table.{find, update, delete, find-holds}
use kohaku.Base.Text.{Text, text_eq}
use kohaku.Db.{Db, User, Token}
use kohaku.Mail.Kind.{is_open_reset}
use kohaku.Auth.Reset.{Post, use_open, is_valid_token, has_enabled, consumed_account, submit}
use kohaku.Auth.Reset.Effect.{AfterReset, submit-AfterReset}
use kohaku.Auth.Reset.Links.{
  find-In, none-In, DistinctUsers, IsLink, find_user, valid-IsLink, IsLink-valid,
}

module _ {R : Type 0} where
  keep-update :
      (p q : R → Bool) (f : R → R) (rs : List R)
      → ((r : R) → q r ≡ true → p r ≡ false)
      → ((r : R) → p (f r) ≡ p r)
      → keep p (update q f rs) ≡ keep p rs
  keep-update p q f [] h k = refl
  keep-update p q f (r ∷ rs) h k = elim (Bool-cases (q r)) [
    | inl t ↦ rw (t, k r, h r t) (keep-update p q f rs h k)
    | inr n ↦ rw n (ap (λ l. if p r then r ∷ l else l) (keep-update p q f rs h k))
  ]

  keep-delete :
      (q : R → Bool) (rs : List R) → keep (λ r. not (q r)) (delete q rs) ≡ keep (λ r. not (q r)) rs
  keep-delete q [] = refl
  keep-delete q (r ∷ rs) = elim (Bool-cases (q r)) [
    | inl t ↦ rw t (keep-delete q rs)
    | inr n ↦ rw n (rw n (ap (λ l. r ∷ l) (keep-delete q rs)))
  ]

  delete-All : (q : R → Bool) (rs : List R) → All (λ r. q r ≡ false) (delete q rs)
  delete-All q [] = tt
  delete-All q (r ∷ rs) = elim (Bool-cases (q r)) [
    | inl t ↦ rw t (delete-All q rs)
    | inr n ↦ rw n (n, delete-All q rs)
  ]

-- Tokens that are neither the account's nor carry the hash.
abbrev pub is_spared : ℕ → Text → Token → Bool
is_spared id token_hash t =
    not (is_some_and t.user_id (λ u. u == id)) && not (text_eq t.token_hash token_hash)

abbrev pub forget_password : User → User
forget_password u = record u { password_hash = none }

-- The state after a reset of an account's password.
abbrev pub IsReset : Db → Text → Text → User → Db → Type 0
IsReset db token_hash hash u db' =
    All (λ x. x.password_hash ≡ some hash) (keep (λ x. x.id == u.id) db'.users)
    × (map forget_password db'.users ≡ map forget_password db.users)
    × (keep (λ x. not (x.id == u.id)) db'.users ≡ keep (λ x. not (x.id == u.id)) db.users)
    × All (λ s. (s.user_id == u.id) ≡ false) db'.sessions
    × (keep (λ s. not (s.user_id == u.id)) db'.sessions
        ≡ keep (λ s. not (s.user_id == u.id)) db.sessions)
    × All (λ d. (d.user_id == u.id) ≡ false) db'.known_devices
    × (keep (λ d. not (d.user_id == u.id)) db'.known_devices
        ≡ keep (λ d. not (d.user_id == u.id)) db.known_devices)
    × All (λ t. is_open_reset u.id t ≡ false) db'.tokens
    × (keep (is_spared u.id token_hash) db'.tokens ≡ keep (is_spared u.id token_hash) db.tokens)

abbrev pub IsSubmitted : Db → Text → Text → ℕ → Db × Bool → Type 0
IsSubmitted db token_hash hash now (db', true) =
    (t : Token) × (u : User) × IsLink db token_hash now t u × IsReset db token_hash hash u db'
IsSubmitted db token_hash hash now (db', false) =
    (db' ≡ db) × ((t : Token) (u : User) → IsLink db token_hash now t u → ⊥)

set_hash : ℕ → Text → List User → List User
set_hash id hash = update (λ (x : User). x.id == id) (λ u. record u { password_hash = some hash })

set_hash-All :
    (id : ℕ) (hash : Text) (us : List User)
    → All (λ x. x.password_hash ≡ some hash) (keep (λ x. x.id == id) (set_hash id hash us))
unfolding set_hash
set_hash-All id hash [] = tt
set_hash-All id hash (x ∷ us) = elim (Bool-cases (x.id == id)) [
  | inl t ↦ rw t (rw t (refl, set_hash-All id hash us))
  | inr f ↦ rw f (rw f (set_hash-All id hash us))
]

set_hash-forget :
    (id : ℕ) (hash : Text) (us : List User)
    → map forget_password (set_hash id hash us) ≡ map forget_password us
unfolding set_hash
set_hash-forget id hash [] = refl
set_hash-forget id hash (x ∷ us) = elim (Bool-cases (x.id == id)) [
  | inl t ↦ rw t (ap (λ l. forget_password x ∷ l) (set_hash-forget id hash us))
  | inr f ↦ rw f (ap (λ l. forget_password x ∷ l) (set_hash-forget id hash us))
]

AfterReset-IsReset :
    (db db' : Db) (token_hash hash : Text) (now : ℕ) (u : User)
    → AfterReset db token_hash hash now u db'
    → IsReset db token_hash hash u db'
unfolding set_hash use_open
AfterReset-IsReset db db' token_hash hash now u (users, sessions, devices, tokens, closed) =
    let used = λ (t : Token). record t { used_at = some now } in
    (
      subst (λ us. All (λ x. x.password_hash ≡ some hash) (keep (λ x. x.id == u.id) us)) (sym users)
          (set_hash-All u.id hash db.users),
      ap (map forget_password) users ∙ set_hash-forget u.id hash db.users,
      ap (keep (λ x. not (x.id == u.id))) users
          ∙ keep-update (λ x. not (x.id == u.id)) (λ (x : User). x.id == u.id)
              (λ x. record x { password_hash = some hash }) db.users (λ r h. ground (arith, h))
              (λ r. refl),
      subst (All (λ s. (s.user_id == u.id) ≡ false)) (sym sessions) (delete-All _ db.sessions),
      ap (keep (λ s. not (s.user_id == u.id))) sessions ∙ keep-delete _ db.sessions,
      subst (All (λ s. (s.user_id == u.id) ≡ false)) (sym devices) (delete-All _ db.known_devices),
      ap (keep (λ s. not (s.user_id == u.id))) devices ∙ keep-delete _ db.known_devices,
      closed,
      ap (keep (is_spared u.id token_hash)) tokens
          ∙ keep-update (is_spared u.id token_hash) (is_open_reset u.id) used _
              (λ r h. ground (arith, h)) (λ r. refl)
          ∙ keep-update (is_spared u.id token_hash)
              (λ t. is_valid_token token_hash now t && has_enabled db t) used db.tokens
              (λ r h. ground (arith, h)) (λ r. refl),
    )

-- A token of an enabled account names an account that the lookup finds.
owner-found :
    (db : Db) (t : Token)
    → has_enabled db t ≡ true
    → (id : ℕ) × (u : User) × (t.user_id ≡ some id)
      × (find (λ (x : User). x.id == id) db.users ≡ some u)
unfolding has_enabled
owner-found db t e = go t.user_id e
  where
    go :
        (o : Option ℕ)
        → is_some_and o (λ i. any (λ (x : User). x.id == i && not x.disabled) db.users) ≡ true
        → (id : ℕ) × (u : User) × (o ≡ some id)
          × (find (λ (x : User). x.id == id) db.users ≡ some u)
    go none h = ground (arith, h)
    go (some id) h = elim (Option-cases (find (λ (x : User). x.id == id) db.users)) [
      | inl n ↦ absurd (find_user db.users id h n)
      | inr (u, f) ↦ (id, u, refl, f)
    ]

-- Account ids distinct: a submitted link always gets an answer, and it is "set" exactly when the
-- link's token is in the table, has that hash, is an unused reset token before its expiry and names
-- an account that is not disabled. Then all rows of that account carry the new hash, it has no
-- session, no device cookie and no open reset token left, every other account keeps its row, every
-- other field of its own row stays, and so do the sessions and cookies of other accounts and the
-- tokens that are neither its own nor carry the hash. A link refused changes nothing.
pub submit-IsSubmitted :
    (post : Post) (db : Db) (token_hash hash : Text) (now : ℕ)
    → DistinctUsers db.users
    → (outcome : Db × Bool) × (submit post db token_hash hash now ≡ some outcome)
      × IsSubmitted db token_hash hash now outcome
submit-IsSubmitted post db token_hash hash now d =
    let valid = λ (t : Token). is_valid_token token_hash now t && has_enabled db t in
    let both = submit-AfterReset post db token_hash hash now in
    elim (Option-cases (find valid db.tokens))
      as (λ _.
        (outcome : Db × Bool) × (submit post db token_hash hash now ≡ some outcome)
        × IsSubmitted db token_hash hash now outcome) [
          | inl n ↦ (
            (db, false),
            both.1 (rw (consumed_account, n) refl),
            (
              refl,
              λ t u link. ground (
                arith,
                none-In valid db.tokens t n link.0,
                IsLink-valid db token_hash now t u link,
              ),
            ),
          )
          | inr (t, e) ↦
              let valid_t = find-holds valid db.tokens t e in
              let owner = owner-found db t (ground (arith, valid_t)) in
              let link =
                valid-IsLink db token_hash now owner.0 t owner.1 d (find-In valid db.tokens t e)
                  valid_t owner.2 owner.3 in
              let done = both.0 owner.1 (rw (consumed_account, e, owner.2) owner.3) in
              (
                (done.0, true),
                done.1,
                (t, owner.1, link, AfterReset-IsReset db done.0 token_hash hash now owner.1 done.2),
              )
        ]
