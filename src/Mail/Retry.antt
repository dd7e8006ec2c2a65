-- ===== src/Mail/Retry.antt =====
-- When src/mail/outbox.rs attempts a row again: `deadline` and `next_attempt`.
pub mod Schedule
use kohaku.Base.{
  ℕ, zero, suc, ◌+◌, ◌-◌, ◌*◌, ◌≤◌, ◌<◌, min, ◌≡◌, Option, none, some, List, [], ◌∷◌, arith, ltb,
  if◌then◌else◌, length, get_or,
}

abbrev pub max_age : ℕ
max_age = 24 * 60 * 60

abbrev pub retry_delays : List ℕ
retry_delays = 60 ∷ (5 * 60) ∷ (30 * 60) ∷ (2 * 60 * 60) ∷ []

-- The delay after the `failures`-th failure; the index never leaves the array.
unfoldable pub retry_delay : ℕ → ℕ
retry_delay failures = get_or retry_delays (min (failures - 1) (length retry_delays - 1)) 0

unfoldable pub deadline : ℕ → ℕ → ℕ
deadline queued_at expires_at = min (queued_at + max_age) expires_at

unfoldable pub next_attempt : ℕ → ℕ → ℕ → Option ℕ
next_attempt failures ended_at deadline =
    let next = ended_at + retry_delay failures in if ltb next deadline then some next else none

delay_bounds :
    (i : ℕ) → i ≤ 3 → (60 ≤ get_or retry_delays i 0) × (get_or retry_delays i 0 ≤ 2 * 60 * 60)
delay_bounds zero h = omega arith
delay_bounds (suc zero) h = omega arith
delay_bounds (suc (suc zero)) h = omega arith
delay_bounds (suc (suc (suc zero))) h = omega arith
delay_bounds (suc (suc (suc (suc i)))) h = absurd (omega arith)

pub retry_delay_bounds :
    (failures : ℕ) → (60 ≤ retry_delay failures) × (retry_delay failures ≤ 2 * 60 * 60)
unfolding retry_delay
retry_delay_bounds failures = delay_bounds (min (failures - 1) 3) (omega arith)

-- A retry starts a minute or more after the failure, two hours at most, and before the deadline; a
-- row that gets none would have started too late.
pub next_attempt_bounds :
    (failures ended_at deadline : ℕ)
    → ((next : ℕ)
        → next_attempt failures ended_at deadline ≡ some next
        → (ended_at + 60 ≤ next) × (next ≤ ended_at + 2 * 60 * 60) × (next < deadline))
      × (next_attempt failures ended_at deadline ≡ none
          → deadline ≤ ended_at + retry_delay failures)
unfolding next_attempt
next_attempt_bounds failures ended_at deadline =
    (λ next e. ground (arith, retry_delay_bounds failures), λ e. ground arith)
