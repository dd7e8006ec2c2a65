-- ===== src/Auth/Reset/Effect.antt =====
-- A reset link that is submitted, and submitted again (`link_submit` of src/admin/reset.rs).
use kohaku.Base.{
  ℕ, ◌≤◌, ◌≡◌, refl, sym, subst, Bool, true, false, not, ◌&&◌, Option, none, some, List, [], ◌∷◌,
  arith, All, any, Bool-cases, Option-cases, inl, inr, ◌==◌, is_some_and,
}
use kohaku.Base.Table.{find, update, delete}
use kohaku.Base.Text.{Text}
use kohaku.Db.{Db, User, Session, Device, Token}
use kohaku.Mail.Kind.{is_open_reset}
use kohaku.Mail.Enqueue.{enqueue, enqueue_to, queue}
use kohaku.Auth.Audit.{audit}
use kohaku.Auth.Session.{end_all}
use kohaku.Auth.Reset.{
  Post, use_open, is_valid_token, has_enabled, set_password, consumed_account, submit,
}
use kohaku.Auth.Reset.Single.{use_open-closed}

-- The tables after the token of an account was consumed.
abbrev pub AfterReset : Db → Text → Text → ℕ → User → Db → Type 0
AfterReset db token_hash hash now u db' =
    (db'.users
      ≡ update (λ (x : User). x.id == u.id) (λ x. record x { password_hash = some hash }) db.users)
    × (db'.sessions ≡ delete (λ (s : Session). s.user_id == u.id) db.sessions)
    × (db'.known_devices ≡ delete (λ (d : Device). d.user_id == u.id) db.known_devices)
    × (db'.tokens
        ≡ use_open u.id now (
            update (λ t. is_valid_token token_hash now t && has_enabled db t)
              (λ t. record t { used_at = some now }) db.tokens))
    × All (λ t. is_open_reset u.id t ≡ false) db'.tokens

-- What follows from the account that the lookup finds.
pub submit-AfterReset :
    (post : Post) (db : Db) (token_hash hash : Text) (now : ℕ)
    → ((u : User)
        → consumed_account db token_hash now ≡ some u
        → (db' : Db) × (submit post db token_hash hash now ≡ some (db', true))
          × AfterReset db token_hash hash now u db')
      × (consumed_account db token_hash now ≡ none
          → submit post db token_hash hash now ≡ some (db, false))
unfolding submit set_password enqueue enqueue_to queue end_all audit
submit-AfterReset post db token_hash hash now = (
  λ u e. rw (submit, e) (_, refl, (refl, refl, refl, refl, use_open-closed u.id now _)),
  λ e. rw (submit, e) refl,
)

any-password :
    (id other : ℕ) (hash : Text) (us : List User)
    → any
        (λ (u : User). u.id == other && not u.disabled)
        (update (λ (u : User). u.id == id) (λ u. record u { password_hash = some hash }) us)
      ≡ any (λ (u : User). u.id == other && not u.disabled) us
any-password id other hash [] = refl
any-password id other hash (u ∷ us) = ground (arith, any-password id other hash us)

-- Whether a token's account is enabled depends on the accounts only, and not on their passwords.
has_enabled-password :
    (db db' : Db) (id : ℕ) (hash : Text) (t : Token)
    → db'.users
      ≡ update (λ (u : User). u.id == id) (λ u. record u { password_hash = some hash }) db.users
    → has_enabled db' t ≡ has_enabled db t
unfolding has_enabled
has_enabled-password db db' id hash t e = go t.user_id
  where
    go :
        (o : Option ℕ)
        → is_some_and o (λ i. any (λ (u : User). u.id == i && not u.disabled) db'.users)
          ≡ is_some_and o (λ i. any (λ (u : User). u.id == i && not u.disabled) db.users)
    go none = refl
    go (some i) = rw e (any-password id i hash db.users)

still_invalid :
    (token_hash : Text) (now later : ℕ) (enabled : Bool) (t : Token)
    → now ≤ later
    → (is_valid_token token_hash now t && enabled) ≡ false
    → (is_valid_token token_hash later t && enabled) ≡ false
still_invalid token_hash now later enabled t l h = ground arith

used_invalid :
    (token_hash : Text) (now later : ℕ) (enabled : Bool) (t : Token)
    → (is_valid_token token_hash later (record t { used_at = some now }) && enabled) ≡ false
used_invalid token_hash now later enabled t = ground arith

module _ (P : Token → Type 0) (p : Token → Bool) (f : Token → Token)
    (written : (t : Token) → P (f t)) where
  update-All : (ts : List Token) → All P ts → All P (update p f ts)
  update-All [] a = tt
  update-All (t ∷ ts) a = elim (Bool-cases (p t)) [
    | inl h ↦ rw h (written t, update-All ts a.1)
    | inr h ↦ rw h (a.0, update-All ts a.1)
  ]

  update_covers : (ts : List Token) → ((t : Token) → p t ≡ false → P t) → All P (update p f ts)
  update_covers [] h = tt
  update_covers (t ∷ ts) h = elim (Bool-cases (p t)) [
    | inl e ↦ rw e (written t, update_covers ts h)
    | inr e ↦ rw e (h t e, update_covers ts h)
  ]

-- No token with the hash is valid any more, now or later.
used_up :
    (db : Db) (token_hash : Text) (now later user_id : ℕ) (ts : List Token)
    → now ≤ later
    → All
        (λ t. (is_valid_token token_hash later t && has_enabled db t) ≡ false)
        (use_open user_id now (
          update
            (λ t. is_valid_token token_hash now t && has_enabled db t)
            (λ t. record t { used_at = some now })
            ts))
unfolding use_open
used_up db token_hash now later user_id ts l =
    let P = λ (t : Token). (is_valid_token token_hash later t && has_enabled db t) ≡ false in
    let used = λ (t : Token). record t { used_at = some now } in
    let written = λ (t : Token). used_invalid token_hash now later (has_enabled db (used t)) t in
    update-All P (is_open_reset user_id) used written
      (update (λ t. is_valid_token token_hash now t && has_enabled db t) used ts)
      (update_covers P (λ t. is_valid_token token_hash now t && has_enabled db t) used written ts
        (λ t h. still_invalid token_hash now later (has_enabled db t) t l h))

find-none : (p : Token → Bool) (ts : List Token) → All (λ t. p t ≡ false) ts → find p ts ≡ none
unfolding find
find-none p [] a = refl
find-none p (t ∷ ts) a = rw a.0 (find-none p ts a.1)

All-weaken :
    {P Q : Token → Type 0} (ts : List Token) → ((t : Token) → P t → Q t) → All P ts → All Q ts
All-weaken [] h a = tt
All-weaken (t ∷ ts) h a = (h t a.0, All-weaken ts h a.1)

consumed-none :
    (db : Db) (token_hash : Text) (now : ℕ)
    → All (λ t. (is_valid_token token_hash now t && has_enabled db t) ≡ false) db.tokens
    → consumed_account db token_hash now ≡ none
consumed-none db token_hash now a =
    rw
      (
        consumed_account,
        find-none (λ t. is_valid_token token_hash now t && has_enabled db t) db.tokens a,
      )
      refl

-- A reset link that set a password is refused from then on, whatever password it is submitted with,
-- and changes nothing more.
pub submit-once :
    (post : Post) (db db' : Db) (token_hash hash other_hash : Text) (now later : ℕ)
    → submit post db token_hash hash now ≡ some (db', true)
    → now ≤ later
    → submit post db' token_hash other_hash later ≡ some (db', false)
submit-once post db db' token_hash hash other_hash now later e l =
    elim (Option-cases (consumed_account db token_hash now)) [
      | inl n ↦ ground (arith, e, (submit-AfterReset post db token_hash hash now).1 n)
      | inr n ↦
          let done = (submit-AfterReset post db token_hash hash now).0 n.0 n.1 in
          let same : done.0 ≡ db' = ground (arith, e, done.1) in
          let after : AfterReset db token_hash hash now n.0 db' =
            subst (AfterReset db token_hash hash now n.0) same done.2 in
          (submit-AfterReset post db' token_hash other_hash later).1 (
            consumed-none db' token_hash later (
              All-weaken db'.tokens
                (λ t h.
                  subst (λ b. (is_valid_token token_hash later t && b) ≡ false)
                    (sym (has_enabled-password db db' n.0.id hash t after.0)) h)
                (subst (All (λ t. (is_valid_token token_hash later t && has_enabled db t) ≡ false))
                  (sym after.3) (used_up db token_hash now later n.0.id db.tokens l))))
    ]
