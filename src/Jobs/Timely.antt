-- ===== src/Jobs/Timely.antt =====
-- No job is lost and none runs twice in a period (`Schedule::due` of src/jobs.rs).
use kohaku.Base.{
  ℕ, zero, suc, ◌+◌, ◌*◌, ◌≤◌, ◌<◌, ◌≡◌, refl, Bool, true, false, arith, any, leb, Bool-cases, inl,
  inr, ◌⊎◌,
}
use kohaku.Jobs.{
  Schedule, Job, sweep_job, retention_job, advance, due, sweep_every, retention_every,
}

-- The time that a job was due is moved by whole periods to the first one after now.
abbrev pub IsMoved : ℕ → ℕ → ℕ → ℕ → Type 0
IsMoved every next now next' =
    (now < next')
    × ((periods : ℕ) × (next' ≡ next + periods * every))
    × ((next' ≡ next) ⊎ (next' ≤ now + every))

advance-IsMoved :
    (every fuel next now : ℕ)
    → 0 < every
    → now < next + fuel
    → IsMoved every next now (advance every fuel next now)
unfolding advance
advance-IsMoved every zero next now p f = (omega (arith, f), (0, omega arith), inl refl)
advance-IsMoved every (suc fuel) next now p f = elim (Bool-cases (leb next now)) [
  | inl t ↦
      let rest = advance-IsMoved every fuel (next + every) now p (omega (arith, p, f)) in
      rw t (rest.0, (suc rest.1.0, grind (arith, rest.1.1)), inr (ground (arith, rest.2, t)))
  | inr n ↦ rw n (ground (arith, n), (0, omega arith), inl refl)
]

abbrev pub is_sweep : Job → Bool
is_sweep sweep_job = true
is_sweep retention_job = false

abbrev pub is_retention : Job → Bool
is_retention sweep_job = false
is_retention retention_job = true

-- At any time, a job is handed out exactly if its time has come, and after that each job's time lies
-- ahead: moved by whole periods, no further than one period ahead, and not at all when nothing was
-- due.
pub due-IsMoved :
    (s : Schedule) (now : ℕ)
    → (any is_sweep (due s now).1 ≡ leb s.next_sweep now)
      × (any is_retention (due s now).1 ≡ leb s.next_retention now)
      × IsMoved sweep_every s.next_sweep now (due s now).0.next_sweep
      × IsMoved retention_every s.next_retention now (due s now).0.next_retention
unfolding due
due-IsMoved s now = (
  ground arith,
  ground arith,
  advance-IsMoved sweep_every (suc now) s.next_sweep now (omega arith) (omega arith),
  advance-IsMoved retention_every (suc now) s.next_retention now (omega arith) (omega arith),
)
