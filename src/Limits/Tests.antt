-- ===== src/Limits/Tests.antt =====
-- Runs of src/limits on concrete requests.
use kohaku.Base.{◌+◌, ◌-◌, ◌*◌, ◌/◌, ◌≤◌, ◌≡◌, refl, true, List, [], ◌∷◌, map, arith, replicate}
use kohaku.Limits.Address.{IpAddr, Prefix}
use kohaku.Limits.Bucket.{full}
use kohaku.Limits.Bucket.Burst.{serve, serve-burst}
use kohaku.Limits.MailBudget.{new as new_budget, hour}
use kohaku.Limits.MailBudget.Instance.{Event as MailEvent, mails, calls, sent, sent-limit}
use kohaku.Limits.Rate.{
  login, class_key, Key, mail_source_overflow, new, class_demand, mail_source_demand, class_budget,
  second,
}
use kohaku.Limits.Rate.Invariant.{IsValid, run-new-IsValid}
use kohaku.Limits.Rate.Answers.{answers, unswept, length-run}
use kohaku.Limits.Served.Answered.{answers-sweeps}
use kohaku.Limits.Rate.Trace.{requests, sweeps, run, tally, charges_key, charges_overflow}
use kohaku.Limits.Served.{
  Event, asks, cleans, class, source, call_of, budget_of, overflow_budget_of, served-key-limit,
  served-overflow-limit,
}

abbrev client : IpAddr
client = IpAddr.v4 2130706433

abbrev events : List Event
events = asks (class login client) 0 true ∷ cleans 5 ∷ asks (source client) 10 true ∷ []

abbrev client_key : Key
client_key = class_key login (Prefix.v4 2130706433)

served-key-limit_example :
    tally (charges_key client_key) (new 0) (map call_of events) * (budget_of client_key).interval
    ≤ 10 - 0 + (budget_of client_key).capacity * (budget_of client_key).interval
served-key-limit_example =
    served-key-limit 0 0 10 events client_key
      (omega arith, (omega arith, (omega arith, omega arith)))

served-overflow-limit_example :
    tally (charges_overflow mail_source_overflow) (new 0) (map call_of events)
      * (overflow_budget_of mail_source_overflow).interval
    ≤ 10
      - 0
      + (overflow_budget_of mail_source_overflow).capacity
        * (overflow_budget_of mail_source_overflow).interval
served-overflow-limit_example =
    served-overflow-limit 0 0 10 events mail_source_overflow
      (omega arith, (omega arith, (omega arith, omega arith)))

run-new-IsValid_example :
    IsValid (run (new 7) (requests (class_demand login client) 8 true ∷ sweeps 9 ∷ []))
run-new-IsValid_example =
    run-new-IsValid 7 (requests (class_demand login client) 8 true ∷ sweeps 9 ∷ [])

-- Requests of one client, the last long after its bucket was full and swept.
abbrev earlier : List Event
earlier = asks (class login client) 0 true ∷ asks (class login client) 1 true ∷ []

abbrev later : List Event
later =
    cleans 2
    ∷ asks (class login client) 3 true
    ∷ cleans 4
    ∷ asks (source client) 5 true
    ∷ cleans (900 * second)
    ∷ asks (class login client) (900 * second + 1) true
    ∷ []

answers-sweeps_example :
    answers (run (new 0) (map call_of earlier)) (map call_of later)
    ≡ answers (run (new 0) (map call_of earlier)) (unswept (map call_of later))
unfolding new class_demand mail_source_demand
answers-sweeps_example =
    answers-sweeps 0 2 (900 * second + 1) earlier later
      (
        omega arith,
        (omega arith, (omega arith, (omega arith, (omega arith, (omega arith, omega arith))))),
      )
      (omega (arith, length-run (new 0) (map call_of earlier)))

abbrev mail_events : List MailEvent
mail_events = mails client 1 ∷ mails client 2 ∷ calls (sweeps 3) ∷ []

sent-limit_example :
    sent (record { limiter = new 0; budget = new_budget 100 }) mail_events * (hour / 100)
    ≤ 3 - 0 + 100 * (hour / 100)
unfolding new
sent-limit_example =
    sent-limit 100 0 0 3 (new 0) mail_events (omega arith) refl
      (omega arith, (omega arith, (omega arith, omega arith)))

-- The eleventh of twelve requests is the first that the login budget refuses.
burst_of_twelve : (serve (full (class_budget login) 3) (replicate 12 3)).1 ≡ 10
unfolding class_budget
burst_of_twelve = serve-burst (class_budget login) 3 12 (omega arith) (omega arith)
