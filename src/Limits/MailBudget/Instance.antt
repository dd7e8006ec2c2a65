-- ===== src/Limits/MailBudget/Instance.antt =====
-- The public mail budget of src/limits/mail_budget.rs in a run of mails and other limiter calls.
use kohaku.Base.{
  ℕ, suc, ◌+◌, ◌-◌, ◌*◌, ◌/◌, ◌≤◌, ◌<◌, ◌≡◌, refl, ap, ◌∙◌, subst, Bool, false, ◌&&◌, some, List,
  [], ◌∷◌, arith, if◌then◌else◌, Bool-cases, inl, inr,
}
use kohaku.Limits.Address.{IpAddr}
use kohaku.Limits.Bucket
use kohaku.Limits.Bucket.{Budget, per, full, admits}
use kohaku.Limits.Bucket.Slot.{Move, idle, spend, Chain, done, next, Chain-limit, Move-HasBudget}
use kohaku.Limits.MailBudget.{MailBudget, take, new, source_budget, hour}
use kohaku.Limits.Rate.{Limiter, mail_source_demand, admit_with, admitted, elapsed}
use kohaku.Limits.Rate.Moves.{step-start}
use kohaku.Limits.Rate.Trace.{Call, requests, time, step, admit_with-request}

-- A mail that a public form asks for, or any other call of the limiter.
pub data Event : Type 0 where
  mails : IpAddr → ℕ → Event
  calls : Call → Event

abbrev pub event_time : Event → ℕ
event_time (mails address now) = now
event_time (calls c) = time c

pub record State : Type 0 where
  pub limiter : Limiter
  pub budget : MailBudget

unfoldable pub handle : State → Event → State
handle s (mails address now) =
    let (limiter, budget, sent) = take s.budget s.limiter address now in
    record { limiter = limiter; budget = budget }
handle s (calls c) = record s { limiter = step s.limiter c }

unfoldable pub is_sent : State → Event → Bool
is_sent s (mails address now) = (take s.budget s.limiter address now).2
is_sent s (calls c) = false

-- How many mails of a run pass the budget.
unfoldable pub sent : State → List Event → ℕ
sent s [] = 0
sent s (e ∷ es) = let rest = sent (handle s e) es in if is_sent s e then suc rest else rest

abbrev pub InOrder : ℕ → ℕ → List Event → Type 0
InOrder first last [] = first ≤ last
InOrder first last (e ∷ es) = (first ≤ event_time e) × InOrder (event_time e) last es

handle-Move :
    (s : State) (e : Event)
    → Move s.budget.instance_bucket.budget
        (elapsed s.limiter (event_time e))
        (some s.budget.instance_bucket)
        (some (handle s e).budget.instance_bucket)
        (is_sent s e)
unfolding handle is_sent take admit_with
handle-Move s (mails address now) =
    let t = elapsed s.limiter now in
    let d = mail_source_demand address source_budget in
    elim (Bool-cases (admitted s.limiter d t && admits s.budget.instance_bucket t)) [
      | inr e ↦ idle (ground (arith, e)) (ground (arith, e))
      | inl e ↦ spend (ground (arith, e)) (ground (arith, e)) (ground (arith, e))
    ]
handle-Move s (calls c) = idle refl refl

handle-start : (s : State) (e : Event) → (handle s e).limiter.start ≡ s.limiter.start
unfolding handle take step
handle-start s (mails address now) =
    let d = mail_source_demand address source_budget in
    let extra = admits s.budget.instance_bucket (elapsed s.limiter now) in
    ap (λ l. l.start)
      (admit_with-request (λ t (b : MailBudget). admits b.instance_bucket t)
        (λ t (b : MailBudget). record b { instance_bucket = Bucket.take b.instance_bucket t })
        s.limiter s.budget d now)
    ∙ step-start s.limiter (requests d now extra)
handle-start s (calls c) = step-start s.limiter c

InOrder-le : (first last : ℕ) (es : List Event) → InOrder first last es → first ≤ last
InOrder-le first last [] o = o
InOrder-le first last (e ∷ es) o = omega (arith, o.0, InOrder-le (event_time e) last es o.1)

sent-Chain :
    (budget : Budget) (start : ℕ) (s : State) (es : List Event) (first last : ℕ)
    → s.budget.instance_bucket.budget ≡ budget
    → s.limiter.start ≡ start
    → InOrder first last es
    → Chain budget (last - start) (first - start) (some s.budget.instance_bucket) (sent s es)
unfolding sent elapsed
sent-Chain budget start s [] first last b at o = done
sent-Chain budget start s (e ∷ es) first last b at o =
    let move =
      subst
        (λ k.
          Move budget (event_time e - k) (some s.budget.instance_bucket)
            (some (handle s e).budget.instance_bucket) (is_sent s e))
        at
        (subst
          (λ k.
            Move k (elapsed s.limiter (event_time e)) (some s.budget.instance_bucket)
              (some (handle s e).budget.instance_bucket) (is_sent s e))
          b (handle-Move s e)) in
    next (omega (arith, o.0)) (omega (arith, InOrder-le (event_time e) last es o.1)) move
      (sent-Chain budget start (handle s e) es (event_time e) last
        (Move-HasBudget budget (event_time e - start) move b) (handle-start s e ∙ at) o.1)
      refl

-- Public forms send at most the configured number of mails an hour: in any run from the start, in
-- order and whatever else the limiter serves between, the mails that pass fill at most the window
-- and one more hour's budget, counted in intervals of an hour over `per_hour`.
pub sent-limit :
    (per_hour start first last : ℕ) (limiter : Limiter) (es : List Event)
    → 0 < per_hour
    → limiter.start ≡ start
    → InOrder first last es
    → sent (record { limiter = limiter; budget = new per_hour }) es * (hour / per_hour)
      ≤ last - first + per_hour * (hour / per_hour)
unfolding new per full
sent-limit per_hour start first last limiter es positive at o =
    let limit = Chain-limit refl positive (
      sent-Chain (per per_hour hour) start (record { limiter = limiter; budget = new per_hour }) es
        first last refl at o) in
    omega (arith, limit)
