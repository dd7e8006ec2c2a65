-- ===== src/Limits/MailBudget.antt =====
-- src/limits/mail_budget.rs: the instance-wide bucket of public mail beside the bucket of each
-- source, both behind the limiter's lock.
pub mod Instance
use kohaku.Base.{ℕ, ◌*◌, Bool}
use kohaku.Limits.Address.{IpAddr}
use kohaku.Limits.Bucket
use kohaku.Limits.Bucket.{Budget, Bucket, per, full, admits}
use kohaku.Limits.Rate.{Limiter, mail_source_demand, admit_with, second}

abbrev per_source_per_hour : ℕ
per_source_per_hour = 10

abbrev pub hour : ℕ
hour = 3600 * second

-- `MailBudget` holds one `SingleBucket`.
pub record MailBudget : Type 0 where
  pub instance_bucket : Bucket

unfoldable pub new : ℕ → MailBudget
new per_hour = record { instance_bucket = full (per per_hour hour) 0 }

unfoldable pub source_budget : Budget
unfolding per
source_budget = per per_source_per_hour hour

-- The instance-wide bucket is the extra bucket of `admit_with`.
unfoldable pub take : MailBudget → Limiter → IpAddr → ℕ → Limiter × MailBudget × Bool
take budget limiter address now =
    admit_with (λ t b. admits b.instance_bucket t)
      (λ t b. record b { instance_bucket = Bucket.take b.instance_bucket t }) limiter budget
      (mail_source_demand address source_budget) now
