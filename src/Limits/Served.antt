-- ===== src/Limits/Served.antt =====
-- The requests that the program makes of its limiter, with the budget of each key: src/limits/rate.rs
-- for the classes, src/limits/mail_budget.rs and src/limits/mail_address.rs for mail.
pub mod Answered
use kohaku.Base.{ℕ, ◌+◌, ◌-◌, ◌*◌, ◌≤◌, ◌<◌, refl, Bool, List, map, arith, All-map}
use kohaku.Base.Assoc.{get}
use kohaku.Limits.Address.{IpAddr, Prefix, v6_slash64, v6_slash48}
use kohaku.Limits.Bucket.{Budget, per, times}
use kohaku.Limits.MailAddress.{address_budget}
use kohaku.Limits.MailBudget.{source_budget}
use kohaku.Limits.Rate.{
  RateClass, Key, class_key, mail_source_key, mail_address_key, Key-discrete, Overflow,
  class_overflow, mail_source_overflow, mail_address_overflow, Demand, class_demand, class_budget,
  aggregate_factor, mail_source_demand, mail_address_demand, new,
}
use kohaku.Limits.Rate.Moves.{Offers, OffersOverflow}
use kohaku.Limits.Rate.Trace.{
  Call, requests, sweeps, IsProper, charges_key, charges_overflow, tally, Ordered,
}
use kohaku.Limits.Rate.Window.{tally-key-limit, tally-overflow-limit}

-- Who asks: a route of a class, a mail's source, a mail's recipient.
pub data Origin : Type 0 where
  class : RateClass → IpAddr → Origin
  source : IpAddr → Origin
  recipient : List ℕ → Origin

abbrev pub demand : Origin → Demand
demand (class c address) = class_demand c address
demand (source address) = mail_source_demand address source_budget
demand (recipient key) = mail_address_demand key address_budget

pub data Event : Type 0 where
  asks : Origin → ℕ → Bool → Event
  cleans : ℕ → Event

abbrev pub call_of : Event → Call
call_of (asks origin now extra) = requests (demand origin) now extra
call_of (cleans now) = sweeps now

-- The budget that the program gives a key, written without the demands.
pub budget_of : Key → Budget
budget_of (class_key c (Prefix.v4 bits)) = class_budget c
budget_of (class_key c (v6_slash64 top)) = class_budget c
budget_of (class_key c (v6_slash48 top)) = times (class_budget c) aggregate_factor
budget_of (mail_source_key p) = source_budget
budget_of (mail_address_key key) = address_budget

pub overflow_budget_of : Overflow → Budget
overflow_budget_of (class_overflow c) = class_budget c
overflow_budget_of mail_source_overflow = source_budget
overflow_budget_of mail_address_overflow = address_budget

pub call_of-IsProper : (e : Event) → IsProper (call_of e)
unfolding get class_demand mail_source_demand mail_address_demand Key-discrete
call_of-IsProper (asks (class c (IpAddr.v4 bits)) now extra) = (refl, tt)
call_of-IsProper (asks (class c (IpAddr.v6 bits)) now extra) = (ground arith, (refl, tt))
call_of-IsProper (asks (source address) now extra) = (refl, tt)
call_of-IsProper (asks (recipient key) now extra) = (refl, tt)
call_of-IsProper (cleans now) = tt

call_of-Offers : (k : Key) (e : Event) → Offers k (budget_of k) (call_of e)
unfolding get class_demand mail_source_demand mail_address_demand budget_of
call_of-Offers k (asks (class c (IpAddr.v4 bits)) now extra) = λ b e. ground arith
call_of-Offers k (asks (class c (IpAddr.v6 bits)) now extra) = λ b e. ground arith
call_of-Offers k (asks (source address) now extra) = λ b e. ground arith
call_of-Offers k (asks (recipient key) now extra) = λ b e. ground arith
call_of-Offers k (cleans now) = tt

call_of-OffersOverflow :
    (o : Overflow) (e : Event) → OffersOverflow o (overflow_budget_of o) (call_of e)
unfolding class_demand mail_source_demand mail_address_demand overflow_budget_of
call_of-OffersOverflow o (asks (class c address) now extra) = λ e. ground arith
call_of-OffersOverflow o (asks (source address) now extra) = λ e. ground arith
call_of-OffersOverflow o (asks (recipient key) now extra) = λ e. ground arith
call_of-OffersOverflow o (cleans now) = tt

budget_of-positive : (k : Key) → 0 < (budget_of k).capacity
unfolding budget_of class_budget per times source_budget address_budget
budget_of-positive (class_key c p) = ground arith
budget_of-positive (mail_source_key p) = omega arith
budget_of-positive (mail_address_key key) = omega arith

overflow_budget_of-positive : (o : Overflow) → 0 < (overflow_budget_of o).capacity
unfolding overflow_budget_of class_budget per source_budget address_budget
overflow_budget_of-positive o = ground arith

-- In any run of the program's requests and sweeps from an empty limiter, in order between two
-- instants, each key's own bucket gives at most the budget of that key plus what it regains in
-- between: with `n` tokens given, `n` intervals fit into the window and one full budget.
pub served-key-limit :
    (start first last : ℕ) (es : List Event) (k : Key)
    → Ordered first last (map call_of es)
    → tally (charges_key k) (new start) (map call_of es) * (budget_of k).interval
      ≤ last - first + (budget_of k).capacity * (budget_of k).interval
served-key-limit start first last es k o =
    tally-key-limit start first last (map call_of es) o (budget_of k) (budget_of-positive k) k
      (All-map IsProper call_of es call_of-IsProper)
      (All-map (Offers k (budget_of k)) call_of es (call_of-Offers k))

-- The clients without a bucket of their own, while the map is full, share one budget of their class
-- or kind of mail, however many they are.
pub served-overflow-limit :
    (start first last : ℕ) (es : List Event) (k : Overflow)
    → Ordered first last (map call_of es)
    → tally (charges_overflow k) (new start) (map call_of es) * (overflow_budget_of k).interval
      ≤ last - first + (overflow_budget_of k).capacity * (overflow_budget_of k).interval
served-overflow-limit start first last es k o =
    tally-overflow-limit start first last (map call_of es) o (overflow_budget_of k)
      (overflow_budget_of-positive k) k
      (All-map (OffersOverflow k (overflow_budget_of k)) call_of es (call_of-OffersOverflow k))
