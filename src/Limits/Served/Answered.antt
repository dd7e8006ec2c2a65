-- ===== src/Limits/Served/Answered.antt =====
-- The sweeps of src/limits/rate.rs between the requests that the program makes.
use kohaku.Base.{ℕ, ◌+◌, ◌≤◌, ◌≡◌, refl, List, map, All-map, length}
use kohaku.Limits.Address.{IpAddr}
use kohaku.Limits.Rate.{class_demand, mail_source_demand, mail_address_demand, max_buckets, new}
use kohaku.Limits.Rate.Sweep.{IsOwned}
use kohaku.Limits.Rate.Answers.{answers, named, unswept, answers-unswept, run-Follows}
use kohaku.Limits.Rate.Trace.{run, Ordered}
use kohaku.Limits.Served.{
  Event, asks, cleans, class, source, recipient, call_of, budget_of, call_of-IsProper,
}

-- Each demand of the program offers a key its own budget.
call_of-IsOwned : (e : Event) → IsOwned budget_of (call_of e)
unfolding class_demand mail_source_demand mail_address_demand budget_of
call_of-IsOwned (asks (class c (IpAddr.v4 bits)) now extra) =
    ((refl, tt), call_of-IsProper (asks (class c (IpAddr.v4 bits)) now extra))
call_of-IsOwned (asks (class c (IpAddr.v6 bits)) now extra) =
    ((refl, (refl, tt)), call_of-IsProper (asks (class c (IpAddr.v6 bits)) now extra))
call_of-IsOwned (asks (source address) now extra) =
    ((refl, tt), call_of-IsProper (asks (source address) now extra))
call_of-IsOwned (asks (recipient key) now extra) =
    ((refl, tt), call_of-IsProper (asks (recipient key) now extra))
call_of-IsOwned (cleans now) = tt

-- Take the limiter after any run of the program's requests and sweeps, and a further run, in order
-- from an instant on, whose keys all have room in the map. Every request of the further run gets
-- the answer that it gets when none of the sweeps of that run takes place: however early, late or
-- often the sweeps come, no client's answers show whether they ran.
pub answers-sweeps :
    (start first last : ℕ) (before after : List Event)
    → Ordered first last (map call_of after)
    → length (run (new start) (map call_of before)).buckets + named (map call_of after)
      ≤ max_buckets
    → answers (run (new start) (map call_of before)) (map call_of after)
      ≡ answers (run (new start) (map call_of before)) (unswept (map call_of after))
answers-sweeps start first last before after o room =
    let owned = All-map (IsOwned budget_of) call_of before call_of-IsOwned in
    answers-unswept budget_of (map call_of after) _ _ first last o
      (All-map (IsOwned budget_of) call_of after call_of-IsOwned) room room
      (run-Follows budget_of start _ (map call_of before) owned)
