-- ===== src/Limits/ClientIp.antt =====
-- src/limits/client_ip.rs: the client address behind trusted proxies, with `IpNet::contains` and
-- `TrustedProxies::contains` of src/config.rs. The standard library's parser of addresses and its
-- test for UTF-8 are arguments.
pub mod Rightmost
pub mod Tests
use kohaku.Base.{
  ℕ, ◌+◌, ◌-◌, ◌*◌, ◌/◌, ◌%◌, ◌^◌, Bool, true, false, not, ◌&&◌, ◌||◌, Option, none, some, List, [],
  ◌∷◌, ◌++◌, reverse, all, any, ◌==◌, if◌then◌else◌,
}
use kohaku.Base.Table.{find}
use kohaku.Base.Text.{Text, is_empty, is_ascii_graphic, split, trim_matches}
use kohaku.Limits.Address.{IpAddr, v4, v6}

pub record IpNet : Type 0 where
  pub address : IpAddr
  pub prefix : ℕ

-- The masks keep the first `prefix` bits.
abbrev pub same_bits : ℕ → ℕ → ℕ → ℕ → Bool
same_bits width prefix net address =
    (net / 2 ^ (width - prefix)) == (address / 2 ^ (width - prefix))

unfoldable pub contains : IpNet → IpAddr → Bool
contains net address = elim net.address [
  | v4 bits ↦ elim address [ v4 a ↦ same_bits 32 net.prefix bits a | v6 a ↦ false ]
  | v6 bits ↦ elim address [ v4 a ↦ false | v6 a ↦ same_bits 128 net.prefix bits a ]
]

-- `TrustedProxies`; `none` is the empty list.
unfoldable pub trusts : List IpNet → IpAddr → Bool
trusts trusted peer = any (λ net. contains net peer) trusted

pub data Warning : Type 0 where
  xff_from_untrusted_peer trusted_peer_sent_no_xff private_client : Warning

pub record Resolution : Type 0 where
  pub client : IpAddr
  pub warnings : List Warning

-- `::ffff:a.b.c.d` as IPv4.
unfoldable pub canonical : IpAddr → IpAddr
canonical (v4 bits) = v4 bits
canonical (v6 bits) = if (bits / 2 ^ 32) == 65535 then v4 (bits % 2 ^ 32) else v6 bits

unfoldable pub is_private : IpAddr → Bool
is_private (v4 bits) =
    (bits / 2 ^ 24 == 127)
    || ((bits / 2 ^ 24 == 10)
        || ((bits / 2 ^ 20 == 172 * 16 + 1)
            || ((bits / 2 ^ 16 == 192 * 256 + 168) || (bits / 2 ^ 16 == 169 * 256 + 254))))
is_private (v6 bits) = (bits == 1) || ((bits / 2 ^ 121 == 126) || (bits / 2 ^ 118 == 1018))

-- `Option::unwrap_or`.
abbrev pub unwrap_or : Option IpAddr → IpAddr → IpAddr
unwrap_or none default = default
unwrap_or (some address) default = address

-- The last entry that is no trusted proxy, or else the first; a line has one entry or more.
unfoldable pub choose : List IpNet → IpAddr → List IpAddr → IpAddr
choose trusted peer [] = peer
choose trusted peer (first ∷ entries) =
    unwrap_or (find (λ entry. not (trusts trusted entry)) (reverse (first ∷ entries))) first

abbrev pub peer_warnings : Bool → List Text → List Warning
peer_warnings true [] = trusted_peer_sent_no_xff ∷ []
peer_warnings true (line ∷ lines) = []
peer_warnings false [] = []
peer_warnings false (line ∷ lines) = xff_from_untrusted_peer ∷ []

module _ (is_utf8 : Text → Bool) (parse : Text → Option IpAddr) where
  -- One entry of a line, without the spaces and tabs around it.
  pub parse_entry : Text → Option IpAddr
  unfolding canonical
  parse_entry entry =
      if is_empty entry || not (all is_ascii_graphic entry)
      then none
      else elim (parse entry) [ none ↦ none | some address ↦ some (canonical address) ]

  pub parse_all : List Text → Option (List IpAddr)
  unfolding parse_entry
  parse_all [] = some []
  parse_all (entry ∷ entries) = elim (parse_entry (trim_matches (λ c. c == 32 || c == 9) entry)) [
    | none ↦ none
    | some address ↦ elim (parse_all entries) [ none ↦ none | some rest ↦ some (address ∷ rest) ]
  ]

  unfoldable pub parse_entries : List Text → Option (List IpAddr)
  unfolding parse_all
  parse_entries [] = some []
  parse_entries (line ∷ lines) =
      if not (is_utf8 line) then none else elim (parse_all (split b',' line)) [
        | none ↦ none
        | some entries ↦ elim (parse_entries lines) [
          | none ↦ none
          | some rest ↦ some (entries ++ rest)
        ]
      ]

  abbrev pub forwarded : List IpNet → IpAddr → List Text → IpAddr
  forwarded trusted peer lines = elim (parse_entries lines) [
    | none ↦ peer
    | some entries ↦ choose trusted peer entries
  ]

  unfoldable pub client_of : List IpNet → IpAddr → List Text → IpAddr
  client_of trusted peer [] = peer
  client_of trusted peer (line ∷ lines) =
      if trusts trusted peer then forwarded trusted peer (line ∷ lines) else peer

  unfoldable pub resolve : IpAddr → List Text → List IpNet → Resolution
  resolve peer lines trusted =
      let peer = canonical peer in
      let client = client_of trusted peer lines in
      record {
        client = client;
        warnings =
            peer_warnings (trusts trusted peer) lines
            ++ (if is_private client then private_client ∷ [] else []);
      }
