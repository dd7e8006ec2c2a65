-- ===== src/Limits/MailAddress.antt =====
-- src/limits/mail_address.rs: the limit of mails to one address, keyed by the MAC of the
-- normalized address. HMAC-SHA256 under the per-boot key is a parameter.
use kohaku.Base.{ℕ, ◌*◌, Bool, none, some, List, [], ◌∷◌, ◌++◌}
use kohaku.Base.Text.{
  Text, to_ascii_lowercase, is_ascii_whitespace, trim_matches, split_once, rsplit_once,
}
use kohaku.Keys.{mac_input, mail_address}
use kohaku.Limits.Bucket.{Budget, per}
use kohaku.Limits.Rate.{Limiter, mail_address_demand, admit, second}

abbrev per_address_per_hour : ℕ
per_address_per_hour = 3

-- The local part up to its first `+`.
pub without_tag : Text → Text
without_tag local = elim (split_once b'+' local) [ some p ↦ p.0 | none ↦ local ]

unfoldable pub normalize : Text → Text
unfolding without_tag
normalize address =
    let lower = to_ascii_lowercase (trim_matches is_ascii_whitespace address) in
    elim (rsplit_once b'@' lower) [ some p ↦ without_tag p.0 ++ (b'@' ∷ p.1) | none ↦ lower ]

unfoldable pub address_budget : Budget
unfolding per
address_budget = per per_address_per_hour (60 * 60 * second)

unfoldable pub take : (Text → List ℕ) → Limiter → Text → ℕ → Limiter × Bool
take hmac_sha256 limiter address now =
    let key = hmac_sha256 (mac_input mail_address (normalize address ∷ [])) in
    admit limiter (mail_address_demand key address_budget) now
