-- ===== src/Auth/Credentials/Granted.antt =====
-- When `decide` of src/auth/credentials.rs lets someone in, and what it does to one who is blocked.
use kohaku.Base.{
  ℕ, ◌≡◌, ◌≢◌, refl, Bool, true, false, Option, none, some, arith, Bool-cases, Option-cases, inl,
  inr, ◌==◌,
}
use kohaku.Base.Table.{update}
use kohaku.Base.Text.{Text}
use kohaku.Db.{Db, User}
use kohaku.Auth.Crypto.{Crypto}
use kohaku.Auth.Lockout.{blocked}
use kohaku.Auth.Totp.{derive}
use kohaku.Auth.Credentials.{
  Mailer, success, requires_two_factor, find_id, password_ok, cleared, code_accepted, count_failure,
  decide, decide_account, second_factor, finish, succeed, fail,
}

-- The second factor of an account that has one was accepted; an account without one needs none.
abbrev pub HasSecondFactor : Crypto → Db → User → Text → ℕ → Option Text → Db → Type 0
HasSecondFactor crypto db account code now none after =
    (requires_two_factor account.role ≡ false) × (after ≡ db)
HasSecondFactor crypto db account code now (some nonce) after =
    code_accepted crypto db account.id (derive crypto account.id nonce) code now
    ≡ some (after, true)

module _ {T : Type 0} (crypto : Crypto) (mailer : Mailer)
    (work : Db → User → ℕ → Option (Db × T)) where
  -- Every condition of a success, and the state that the success work meets.
  abbrev pub IsGranted : Db → User → Option Text → Bool → Text → ℕ → Db → T → Type 0
  IsGranted db account hash known_device code now db' t =
      (blocked account known_device now ≡ false)
      × (password_ok hash account ≡ true)
      × ((after : Db) × HasSecondFactor crypto db account code now account.totp_nonce after
          × (work (record after { users = update (λ u. u.id == account.id) cleared after.users })
                account now
              ≡ some (db', t)))

  fail-outcome :
      (db db' : Db) (account : User) (known_device : Bool) (now : ℕ) (t : T)
      → fail crypto mailer work db account known_device now ≢ some (db', success t)
  unfolding fail
  fail-outcome db db' account known_device now t e =
      elim (Option-cases (count_failure mailer db account known_device now)) [
        | inl n ↦ ground (arith, n, e)
        | inr n ↦ ground (arith, n.1, e)
      ]

  succeed-work :
      (db db' : Db) (account : User) (now : ℕ) (t : T)
      → succeed crypto mailer work db account now ≡ some (db', success t)
      → work (record db { users = update (λ u. u.id == account.id) cleared db.users }) account now
        ≡ some (db', t)
  unfolding succeed
  succeed-work db db' account now t e =
      elim (Option-cases (
        work (record db { users = update (λ u. u.id == account.id) cleared db.users }) account
          now)) [ inl n ↦ ground (arith, n, e) | inr n ↦ ground (arith, n.1, e) ]

  finish-accepted :
      (db' : Db) (account : User) (known_device : Bool) (now : ℕ) (t : T) (o : Option (Db × Bool))
      → finish crypto mailer work account known_device now o ≡ some (db', success t)
      → (after : Db) × (o ≡ some (after, true))
        × (work
              (record after { users = update (λ u. u.id == account.id) cleared after.users })
              account
              now
            ≡ some (db', t))
  unfolding finish
  finish-accepted db' account known_device now t none e = ground (arith, e)
  finish-accepted db' account known_device now t (some (after, true)) e =
      (after, refl, succeed-work after db' account now t e)
  finish-accepted db' account known_device now t (some (after, false)) e =
      absurd (fail-outcome after db' account known_device now t e)

  second_factor-accepted :
      (db db' : Db) (account : User) (known_device : Bool) (code : Text) (now : ℕ) (t : T)
      (nonce : Option Text)
      → second_factor crypto mailer work db account known_device code now nonce
        ≡ some (db', success t)
      → (after : Db) × HasSecondFactor crypto db account code now nonce after
        × (work
              (record after { users = update (λ u. u.id == account.id) cleared after.users })
              account
              now
            ≡ some (db', t))
  unfolding second_factor
  second_factor-accepted db db' account known_device code now t none e =
      elim (Bool-cases (requires_two_factor account.role)) [
        | inl r ↦ ground (arith, r, e)
        | inr r ↦
            let f =
              finish-accepted db' account known_device now t (some (db, true))
                (ground (arith, r, e)) in
            (f.0, (r, ground (arith, f.1)), f.2)
      ]
  second_factor-accepted db db' account known_device code now t (some nonce) e =
      finish-accepted db' account known_device now t
        (code_accepted crypto db account.id (derive crypto account.id nonce) code now) e

  decide_account-IsGranted :
      (db db' : Db) (account : User) (hash : Option Text) (known_device : Bool) (code : Text)
      (now : ℕ) (t : T)
      → decide_account crypto mailer work db account hash known_device code now
        ≡ some (db', success t)
      → IsGranted db account hash known_device code now db' t
  unfolding decide_account
  decide_account-IsGranted db db' account hash known_device code now t e =
      elim (Bool-cases (blocked account known_device now)) [
        | inl b ↦ ground (arith, b, e)
        | inr b ↦ elim (Bool-cases (password_ok hash account)) [
          | inl p ↦ (
            b,
            p,
            second_factor-accepted db db' account known_device code now t account.totp_nonce
                (ground (arith, b, p, e)),
          )
          | inr p ↦
              absurd (fail-outcome db db' account known_device now t (ground (arith, b, p, e)))
        ]
      ]

  -- Someone is let in only to an account that exists, is not blocked for the request and is enabled,
  -- with the hash that is stored now, and after the second factor was accepted in the same
  -- transaction, or, for an account without one, only if the role needs none; the success work
  -- then meets the accounts with the counters cleared, and its result is the outcome.
  pub decide-IsGranted :
      (db db' : Db) (id : ℕ) (hash : Option Text) (known_device : Bool) (code : Text) (now : ℕ)
      (t : T)
      → decide crypto mailer work db id hash known_device code now ≡ some (db', success t)
      → (account : User) × (find_id db id ≡ some account)
        × IsGranted db account hash known_device code now db' t
  unfolding decide
  decide-IsGranted db db' id hash known_device code now t e = elim (Option-cases (find_id db id)) [
    | inl n ↦ ground (arith, n, e)
    | inr n ↦ (
      n.0,
      n.1,
      decide_account-IsGranted db db' n.0 hash known_device code now t (ground (arith, n.1, e)),
    )
  ]
