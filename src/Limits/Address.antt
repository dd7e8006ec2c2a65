-- ===== src/Limits/Address.antt =====
-- The networks that src/limits/rate.rs counts: `prefixes` and `mail_source`.
use kohaku.Base.{ℕ, ◌/◌, ◌^◌, Option, none, some}

-- `std::net::IpAddr`: an address by its 32 or 128 bits.
pub data IpAddr : Type 0 where
  v4 : ℕ → IpAddr
  v6 : ℕ → IpAddr

pub data Prefix : Type 0 where
  v4 : ℕ → Prefix
  v6_slash64 : ℕ → Prefix
  v6_slash48 : ℕ → Prefix

unfoldable pub prefixes : IpAddr → Prefix × Option Prefix
prefixes (IpAddr.v4 bits) = (Prefix.v4 bits, none)
prefixes (IpAddr.v6 bits) =
    let top = bits / 2 ^ 64 in (v6_slash64 top, some (v6_slash48 (top / 2 ^ 16)))

abbrev source_of : Prefix × Option Prefix → Prefix
source_of (own, none) = own
source_of (own, some slash48) = slash48

unfoldable pub mail_source : IpAddr → Prefix
unfolding prefixes
mail_source address = source_of (prefixes address)
