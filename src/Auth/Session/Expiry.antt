-- ===== src/Auth/Session/Expiry.antt =====
-- Which sessions are current, and how they end (src/auth/session.rs).
use kohaku.Base.{
  ℕ, suc, ◌+◌, ◌<◌, ◌≡◌, ◌≢◌, refl, ap, subst, Bool, true, false, none, some, List, [], ◌∷◌, ◌++◌,
  arith, any, Bool-cases, Option-cases, inl, inr, ◌==◌, is_some,
}
use kohaku.Base.Table.{find, find-holds, delete, max_id}
use kohaku.Base.Text.{Text, text_eq}
use kohaku.Db.{Db, User, Session, Device}
use kohaku.Auth.Session.{
  SessionUser, is_live, may_act, session_user, current, create, end_all, is_known_device,
  idle_seconds, absolute_seconds,
}

module _ {R : Type 0} where
  find-kept : (p q : R → Bool) (rs : List R) (r : R) → find p (delete q rs) ≡ some r → q r ≡ false
  unfolding find
  find-kept p q [] r e = ground (arith, e)
  find-kept p q (x ∷ xs) r e = elim (Bool-cases (q x)) [
    | inl t ↦ find-kept p q xs r (subst (λ l. find p l ≡ some r) (kept_out t) e)
    | inr f ↦ elim (Bool-cases (p x)) [
      | inl h ↦ ground (arith, f, h, e)
      | inr h ↦ find-kept p q xs r (ground (arith, f, h, e))
    ]
  ]
    where
      kept_out : q x ≡ true → delete q (x ∷ xs) ≡ delete q xs
      kept_out t = ground (arith, t)

  find-append :
      (p : R → Bool) (rs : List R) (r : R)
      → find p rs ≡ none
      → p r ≡ true
      → find p (rs ++ (r ∷ [])) ≡ some r
  unfolding find
  find-append p [] r e h = ground (arith, h)
  find-append p (x ∷ xs) r e h = elim (Bool-cases (p x)) [
    | inl t ↦ ground (arith, t, e)
    | inr f ↦ rw f (find-append p xs r (ground (arith, f, e)) h)
  ]

  any-delete :
      (p q : R → Bool) (rs : List R)
      → ((r : R) → p r ≡ true → q r ≡ true)
      → any p (delete q rs) ≡ false
  any-delete p q [] h = refl
  any-delete p q (r ∷ rs) h = elim (Bool-cases (q r)) [
    | inl t ↦ rw t (any-delete p q rs h)
    | inr f ↦ ground (arith, f, any-delete p q rs h, h r)
  ]

-- The session and the account behind a signed-in request.
abbrev pub IsCurrent : Db → Text → ℕ → SessionUser → Type 0
IsCurrent db hash now su =
    (s : Session) × (u : User) × (find (is_live hash now) db.sessions ≡ some s)
    × (find (may_act s.user_id) db.users ≡ some u)
    × (now < s.last_seen + idle_seconds)
    × (now < s.created_at + absolute_seconds)
    × (text_eq s.token_hash hash ≡ true)
    × (u.disabled ≡ false)
    × (is_some u.password_hash ≡ true)
    × (su ≡ session_user s u)

-- A request is signed in only by a session with its token's hash, used in the last twelve hours and
-- begun in the last seven days, of an enabled account with a password; it gets that account.
pub current-IsCurrent :
    (db : Db) (hash : Text) (now : ℕ) (su : SessionUser)
    → (current db hash now).1 ≡ some su
    → IsCurrent db hash now su
unfolding current
current-IsCurrent db hash now su e = elim (Option-cases (find (is_live hash now) db.sessions)) [
  | inl n ↦ ground (arith, n, e)
  | inr n ↦ elim (Option-cases (find (may_act n.0.user_id) db.users)) [
    | inl m ↦ ground (arith, n.1, m, e)
    | inr m ↦
        let live = find-holds (is_live hash now) db.sessions n.0 n.1 in
        let acts = find-holds (may_act n.0.user_id) db.users m.0 m.1 in
        (
          n.0,
          m.0,
          n.1,
          m.1,
          ground (arith, live),
          ground (arith, live),
          ground (arith, live),
          ground (arith, acts),
          ground (arith, acts),
          ground (arith, n.1, m.1, e),
        )
  ]
]

-- After `end_all` of an account, no cookie signs a request in as the account, and none is a known
-- device of it.
pub end_all-ends :
    (db : Db) (user_id : ℕ) (hash : Text) (now : ℕ)
    → ((su : SessionUser)
        → (current (end_all db user_id) hash now).1 ≡ some su
        → su.user_id ≢ user_id)
      × (is_known_device (end_all db user_id) user_id hash now ≡ false)
unfolding end_all is_known_device session_user
end_all-ends db user_id hash now = (
  λ su e. ended su (current-IsCurrent (end_all db user_id) hash now su e),
  any-delete _ (λ (d : Device). d.user_id == user_id) db.known_devices (λ d h. ground (arith, h)),
)
  where
    ended : (su : SessionUser) → IsCurrent (end_all db user_id) hash now su → su.user_id ≢ user_id
    ended su c =
        let other =
          find-kept (is_live hash now) (λ (s : Session). s.user_id == user_id) db.sessions c.0
            c.2 in
        let same : su.user_id ≡ c.0.user_id = ap (λ (x : SessionUser). x.user_id) c.9 in
        λ k. ground (arith, other, same, k)

text_eq_refl : (s : Text) → text_eq s s ≡ true
text_eq_refl [] = refl
text_eq_refl (x ∷ xs) = ground (arith, text_eq_refl xs)

-- A new session signs its account in, with its own CSRF value, for twelve hours, if no other current
-- session has the hash of its token, and the account is enabled and has a password.
pub create-current :
    (db : Db) (user_id : ℕ) (hash csrf : Text) (now later : ℕ) (u : User)
    → find (is_live hash later) db.sessions ≡ none
    → find (may_act user_id) db.users ≡ some u
    → later < now + idle_seconds
    → (su : SessionUser) × ((current (create db user_id hash csrf now) hash later).1 ≡ some su)
      × (su.user_id ≡ user_id)
      × (su.csrf ≡ csrf)
      × (su.role ≡ u.role)
unfolding create session_user current
create-current db user_id hash csrf now later u fresh acts l =
    let s : Session = record {
      id = suc (max_id (λ (x : Session). x.id) db.sessions);
      token_hash = hash;
      user_id = user_id;
      csrf_token = csrf;
      created_at = now;
      last_seen = now;
      pending_totp_nonce = none;
    } in
    (
      session_user s u,
      rw
          (
            current,
            find-append (is_live hash later) db.sessions s fresh
                (ground (arith, text_eq_refl hash, l)),
            acts,
          )
          refl,
      refl,
      refl,
      refl,
    )
