-- ===== src/Auth/Credentials/Isolation.antt =====
-- What a failed attempt may write (`count_failure` of src/auth/credentials.rs).
use kohaku.Base.{
  ℕ, ◌≡◌, refl, ap, ap₂, Bool, true, false, ◌&&◌, none, some, List, [], ◌∷◌, map, Bool-cases, inl,
  inr, ◌==◌, is_some_and,
}
use kohaku.Base.Table.{update, find}
use kohaku.Db.{Db, User}
use kohaku.Mail.Enqueue.{enqueue, enqueue_to, queue}
use kohaku.Auth.Lockout.{
  count_device_failure, counts_device_failure, count_login_failure, counts_login_failure,
}
use kohaku.Auth.Credentials.{Mailer, count_failure, started, lockout_mail}

-- A row without the counters of the lock, and without those of the device window.
abbrev pub without_lock : User → User
without_lock u = record u { failed_logins = 0; locked_until = none; lockout_mailed_at = none }

abbrev pub without_window : User → User
without_window u = record u { device_failures = 0; device_window_start = none }

-- The tables that a failure never writes.
abbrev pub SameBesides : Db → Db → Type 0
SameBesides db db' =
    (db'.sessions ≡ db.sessions)
    × (db'.known_devices ≡ db.known_devices)
    × (db'.recovery_codes ≡ db.recovery_codes)
    × (db'.tokens ≡ db.tokens)
    × (db'.audit_log ≡ db.audit_log)

update-view :
    {A : Type 0} (view : User → A) (p : User → Bool) (f : User → User) (us : List User)
    → ((u : User) → view (f u) ≡ view u)
    → map view (update p f us) ≡ map view us
update-view view p f [] h = refl
update-view view p f (u ∷ us) h = elim (Bool-cases (p u)) [
  | inl t ↦ rw t (ap₂ (λ x xs. x ∷ xs) (h u) (update-view view p f us h))
  | inr n ↦ rw n (ap (λ xs. view u ∷ xs) (update-view view p f us h))
]

-- Counting a failure always succeeds. Without a device cookie it writes, of the accounts, no field
-- but the lock's, and with one no field but the device window's; neither touches a session, device,
-- recovery code, token or audit entry. So nobody without the cookie can block a browser that has
-- it, nor the other way round.
pub count_failure-isolated :
    (mailer : Mailer) (db : Db) (account : User) (now : ℕ)
    → ((db' : Db) × (count_failure mailer db account false now ≡ some db')
        × (map without_lock db'.users ≡ map without_lock db.users)
        × SameBesides db db')
      × ((db' : Db) × (count_failure mailer db account true now ≡ some db')
          × (map without_window db'.users ≡ map without_window db.users)
          × SameBesides db db')
unfolding count_failure enqueue enqueue_to queue count_login_failure count_device_failure
count_failure-isolated mailer db account now =
    let counts = λ (u : User). u.id == account.id && counts_login_failure now u in
    let counted : Db = record db { users = update counts (count_login_failure now) db.users } in
    let seen : map without_lock counted.users ≡ map without_lock db.users =
      update-view without_lock counts (count_login_failure now) db.users (λ u. refl) in
    (
      elim (Bool-cases
          (is_some_and (find counts db.users) (λ u. started now (count_login_failure now u)))) [
            | inl t ↦ (
              (queue mailer.subject_rule counted (lockout_mail mailer account.id now)
                  (some account.id) none now).0,
              rw (count_failure, t) refl,
              seen,
              (refl, refl, refl, refl, refl),
            )
            | inr f ↦ (counted, rw (count_failure, f) refl, seen, (refl, refl, refl, refl, refl))
          ],
      (
        record db {
          users =
              update (λ u. u.id == account.id && counts_device_failure now u)
                (count_device_failure now) db.users;
        },
        refl,
        update-view without_window (λ u. u.id == account.id && counts_device_failure now u)
            (count_device_failure now) db.users (λ u. refl),
        (refl, refl, refl, refl, refl),
      ),
    )
