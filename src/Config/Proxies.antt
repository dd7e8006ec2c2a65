-- ===== src/Config/Proxies.antt =====
-- `parse_trusted_proxies` of src/config.rs. The standard library's parser of addresses is an
-- argument.
use kohaku.Base.{
  ℕ, ◌-◌, ◌/◌, ◌%◌, ◌^◌, Bool, false, not, ◌&&◌, Option, none, some, List, [], ◌∷◌, ltb, leb, ◌==◌,
  if◌then◌else◌,
}
use kohaku.Base.Result.{Result, ok, ok_or}
use kohaku.Base.Text.{Text, codes, text_eq, split, split_once}
use kohaku.Config.Decimal.{parse_decimal}
use kohaku.Config.Rule.{Rule, trusted_proxies_rule}
use kohaku.Limits.Address.{IpAddr, v4, v6}
use kohaku.Limits.ClientIp.{IpNet}

abbrev pub width : IpAddr → ℕ
width (v4 bits) = 32
width (v6 bits) = 128

abbrev pub bits_of : IpAddr → ℕ
bits_of (v4 bits) = bits
bits_of (v6 bits) = bits

abbrev in_width : ℕ → ℕ → Option ℕ
in_width max p = if ltb p 256 && (leb 1 p && leb p max) then some p else none

abbrev prefix_text : IpAddr → Option Text → Option ℕ
prefix_text address none = some (width address)
prefix_text address (some text) = elim (parse_decimal text) [
  | none ↦ none
  | some p ↦ in_width (width address) p
]

-- The bits past the prefix are clear.
abbrev pub host_bits_clear : IpAddr → ℕ → Bool
host_bits_clear address prefix = (bits_of address % 2 ^ (width address - prefix)) == 0

-- An IPv4-mapped IPv6 address, `::ffff:a.b.c.d`.
abbrev is_mapped : IpAddr → ℕ → Bool
is_mapped (v4 bits) prefix = false
is_mapped (v6 bits) prefix = ((bits / 2 ^ 32) == 65535) && leb 96 prefix

unfoldable pub to_net : IpAddr → Option ℕ → Option IpNet
to_net address none = none
to_net address (some prefix) =
    if host_bits_clear address prefix && not (is_mapped address prefix)
    then some (record { address = address; prefix = prefix })
    else none

abbrev net_of : IpAddr → Option Text → Option IpNet
net_of address prefix = to_net address (prefix_text address prefix)

module _ (parse_address : Text → Option IpAddr) where
  abbrev net_of_text : Text → Option Text → Option IpNet
  net_of_text text prefix = elim (parse_address text) [
    | none ↦ none
    | some address ↦ net_of address prefix
  ]

  unfoldable pub parse_ip_net : Text → Option IpNet
  parse_ip_net entry = elim (split_once b'/' entry) [
    | none ↦ net_of_text entry none
    | some (address, prefix) ↦ net_of_text address (some prefix)
  ]

  -- `collect::<Option<Vec<_>>>`.
  unfoldable pub parse_ip_nets : List Text → Option (List IpNet)
  parse_ip_nets [] = some []
  parse_ip_nets (entry ∷ entries) = elim (parse_ip_net entry) [
    | none ↦ none
    | some net ↦ elim (parse_ip_nets entries) [ none ↦ none | some nets ↦ some (net ∷ nets) ]
  ]

  -- `TrustedProxies`; `none` is the empty list.
  unfoldable pub parse_trusted_proxies : Text → Result Rule (List IpNet)
  parse_trusted_proxies text =
      if text_eq text (codes "none")
      then ok []
      else ok_or trusted_proxies_rule (parse_ip_nets (split b',' text))
