-- ===== src/Auth/Lockout/Guesses.antt =====
-- How many passwords can be tried against an account (src/auth/credentials.rs).
use kohaku.Base.{
  ℕ, suc, ◌+◌, ◌-◌, ◌*◌, ◌≤◌, ◌≡◌, refl, Bool, true, false, not, ◌&&◌, none, some, List, [], ◌∷◌,
  arith, if◌then◌else◌, Bool-cases, inl, inr, ◌⊎◌,
}
use kohaku.Db.{User}
use kohaku.Auth.Lockout.{blocked, after_failure, count_login_failure, count_device_failure}

-- A failed attempt: with a device cookie or without, at a time.
abbrev pub Failure : Type 0
Failure = Bool × ℕ

unfoldable pub after_failures : User → List Failure → User
after_failures u [] = u
after_failures u ((known, now) ∷ fs) = after_failures (after_failure known now u) fs

abbrev pub InTime : ℕ → ℕ → List Failure → Type 0
InTime first last [] = first ≤ last
InTime first last ((known, now) ∷ fs) = (first ≤ now) × InTime now last fs

-- How many attempts without a device cookie found the account unlocked, so that a right password
-- would have been accepted.
unfoldable pub guesses : User → List Failure → ℕ
guesses u [] = 0
guesses u ((known, now) ∷ fs) =
    let rest = guesses (after_failure known now u) fs in
    if not known && not (blocked u false now) then suc rest else rest

-- The end of the lock, or zero.
abbrev lock_end : User → ℕ
lock_end u = elim u.locked_until [ none ↦ 0 | some until ↦ until ]

InTime-le : (first last : ℕ) (fs : List Failure) → InTime first last fs → first ≤ last
InTime-le first last [] h = h
InTime-le first last ((known, now) ∷ fs) h = omega (arith, h.0, InTime-le now last fs h.1)

-- Ten guesses in fifteen minutes are ninety seconds for each.
abbrev IsBounded : ℕ → User → ℕ → ℕ → Type 0
IsBounded g u first last =
    (g ≡ 0)
    ⊎ ((g * 90 + first + 90 * u.failed_logins ≤ last + 900)
        × (g * 90 + lock_end u + 90 * u.failed_logins ≤ last + 900))

device-step :
    (u : User) (now : ℕ)
    → ((after_failure true now u).failed_logins ≡ u.failed_logins)
      × ((after_failure true now u).locked_until ≡ u.locked_until)
unfolding after_failure count_device_failure
device-step u now = ground arith

blocked-step : (u : User) (now : ℕ) → blocked u false now ≡ true → after_failure false now u ≡ u
unfolding after_failure blocked
blocked-step u now e = ground arith

-- An attempt that finds the account unlocked moves the counter, or locks.
guess-step :
    (u : User) (now : ℕ)
    → blocked u false now ≡ false
    → u.failed_logins ≤ 9
    → (lock_end u ≤ now)
      × (((after_failure false now u).failed_logins ≡ suc u.failed_logins)
            × (lock_end (after_failure false now u) ≡ lock_end u)
            × (u.failed_logins ≤ 8)
          ⊎ ((after_failure false now u).failed_logins ≡ 0)
            × (lock_end (after_failure false now u) ≡ now + 900)
            × (u.failed_logins ≡ 9))
unfolding after_failure blocked count_login_failure
guess-step u now e h = ground arith

guesses-IsBounded :
    (u : User) (first last : ℕ) (fs : List Failure)
    → u.failed_logins ≤ 9
    → InTime first last fs
    → IsBounded (guesses u fs) u first last
unfolding guesses
guesses-IsBounded u first last [] h o = inl refl
guesses-IsBounded u first last ((true, now) ∷ fs) h o =
    let s = device-step u now in
    let rest =
      guesses-IsBounded (after_failure true now u) now last fs (omega (arith, h, s.0)) o.1 in
    ground (arith, rest, s.0, s.1, o.0)
guesses-IsBounded u first last ((false, now) ∷ fs) h o = elim (Bool-cases (blocked u false now)) [
  | inl b ↦
      let rest = guesses-IsBounded u now last fs h o.1 in
      rw (b, blocked-step u now b) (ground (arith, rest, o.0))
  | inr b ↦
      let s = guess-step u now b h in
      let rest =
        guesses-IsBounded (after_failure false now u) now last fs (ground (arith, s, h)) o.1 in
      rw b (ground (arith, rest, s, o.0, InTime-le now last fs o.1))
]

-- However the failed attempts on an account are made, one after another, with a device cookie or
-- without: those without one that find the account unlocked are at most ten, and one more for every
-- ninety seconds between the first and the last.
pub guesses-limit :
    (u : User) (first last : ℕ) (fs : List Failure)
    → u.failed_logins ≤ 9
    → InTime first last fs
    → guesses u fs * 90 ≤ last - first + 900
guesses-limit u first last fs h o =
    ground (arith, guesses-IsBounded u first last fs h o, InTime-le first last fs o)
