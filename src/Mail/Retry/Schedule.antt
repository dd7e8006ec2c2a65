-- ===== src/Mail/Retry/Schedule.antt =====
-- When a mail is attempted that fails each time (`next_attempt` of src/mail/outbox.rs).
use kohaku.Base.{
  ℕ, zero, suc, ◌+◌, ◌*◌, ◌≤◌, ◌≡◌, refl, ap, ◌∙◌, true, false, Option, none, some, List, [], ◌∷◌,
  map, arith, ltb, Bool-cases, Option-cases, inl, inr,
}
use mathlib.Core.Option
use kohaku.Mail.Retry.{deadline, next_attempt, retry_delay}

-- The times of all attempts of a row that has failed some times already, when each fails at once;
-- `none` if the fuel is used up before a row gets no more attempt.
pub attempt_times : ℕ → ℕ → ℕ → ℕ → Option (List ℕ)
attempt_times zero failures now end = none
attempt_times (suc fuel) failures now end = elim (next_attempt (suc failures) now end) [
  | none ↦ some (now ∷ [])
  | some next ↦ Option.map (λ times. now ∷ times) (attempt_times fuel (suc failures) next end)
]

next_attempt-later :
    (failures queued t end : ℕ)
    → next_attempt failures (queued + t) (queued + end)
      ≡ Option.map (λ n. queued + n) (next_attempt failures t end)
unfolding next_attempt
next_attempt-later failures queued t end = elim (Bool-cases (ltb (t + retry_delay failures) end)) [
  | inl h ↦
      let later : ltb (queued + t + retry_delay failures) (queued + end) ≡ true =
        ground (arith, h) in
      rw (h, later) (ap (λ n. some n) (omega arith))
  | inr h ↦
      let later : ltb (queued + t + retry_delay failures) (queued + end) ≡ false =
        ground (arith, h) in
      rw (h, later) refl
]

map_cons :
    (queued t : ℕ) (times : Option (List ℕ))
    → Option.map (λ l. (queued + t) ∷ l) (Option.map (map (λ n. queued + n)) times)
      ≡ Option.map (map (λ n. queued + n)) (Option.map (λ l. t ∷ l) times)
map_cons queued t none = refl
map_cons queued t (some times) = refl

attempt_times-later :
    (fuel failures queued t end : ℕ)
    → attempt_times fuel failures (queued + t) (queued + end)
      ≡ Option.map (map (λ n. queued + n)) (attempt_times fuel failures t end)
unfolding attempt_times
attempt_times-later zero failures queued t end = refl
attempt_times-later (suc fuel) failures queued t end =
    elim (Option-cases (next_attempt (suc failures) t end)) [
      | inl n ↦ rw (attempt_times, next_attempt-later (suc failures) queued t end, n) refl
      | inr (next, n) ↦
          rw (attempt_times, next_attempt-later (suc failures) queued t end, n)
            (rw (attempt_times-later fuel (suc failures) queued next end)
              (map_cons queued t (attempt_times fuel (suc failures) next end)))
    ]

from_zero :
    attempt_times 16 0 0 86400
    ≡ some (
        map
          (λ minutes. 60 * minutes)
          (0 ∷ 1 ∷ 6 ∷ 36 ∷ 156 ∷ 276 ∷ 396 ∷ 516 ∷ 636 ∷ 756 ∷ 876 ∷ 996 ∷ 1116 ∷ 1236 ∷ 1356
            ∷ []))
unfolding attempt_times next_attempt retry_delay
from_zero = refl

-- A mail that lives for a day or longer and whose attempts all fail at once is attempted when it is
-- queued, and then one minute, six minutes, 36 minutes and 2 hours 36 minutes later, and every two
-- hours from there on until 22 hours 36 minutes: fifteen times in all, and never again.
pub attempt_times-schedule :
    (queued expires : ℕ)
    → queued + 24 * 60 * 60 ≤ expires
    → attempt_times 16 0 queued (deadline queued expires)
      ≡ some (
          map
            (λ minutes. queued + 60 * minutes)
            (0 ∷ 1 ∷ 6 ∷ 36 ∷ 156 ∷ 276 ∷ 396 ∷ 516 ∷ 636 ∷ 756 ∷ 876 ∷ 996 ∷ 1116 ∷ 1236 ∷ 1356
              ∷ []))
unfolding deadline
attempt_times-schedule queued expires h =
    let end : deadline queued expires ≡ queued + 86400 = omega arith in
    let start : queued ≡ queued + 0 = omega arith in
    ap (λ d. attempt_times 16 0 queued d) end
    ∙ (ap (λ n. attempt_times 16 0 n (queued + 86400)) start
        ∙ (attempt_times-later 16 0 queued 0 86400
            ∙ ap (Option.map (map (λ n. queued + n))) from_zero))
