-- ===== src/Limits/ClientIp/Tests.antt =====
-- The client address of src/limits/client_ip.rs behind one proxy.
use kohaku.Base.{◌≡◌, Bool, true, false, Option, none, some, List, [], ◌∷◌, ◌++◌, All}
use kohaku.Base.Text.{Text, codes}
use kohaku.Limits.Address.{IpAddr, v4}
use kohaku.Limits.ClientIp.{IpNet, trusts, canonical, parse_entries, resolve}
use kohaku.Limits.ClientIp.Rightmost.{resolve-rightmost}

-- Addresses as single letters.
abbrev parse : Text → Option IpAddr
parse [] = none
parse (c ∷ cs) = some (v4 c)

abbrev is_utf8 : Text → Bool
is_utf8 line = true

abbrev proxies_list : List IpNet
proxies_list = record { address = v4 b'p'; prefix = 32 } ∷ []

abbrev header : List Text
header = codes "x, c,p" ∷ []

resolve-rightmost_example :
    (trusts proxies_list (canonical (v4 b'p')) ≡ false
      → (resolve is_utf8 parse (v4 b'p') header proxies_list).client ≡ canonical (v4 b'p'))
    × ((before proxies : List IpAddr) (entry : IpAddr)
        → trusts proxies_list (canonical (v4 b'p')) ≡ true
        → parse_entries is_utf8 parse header ≡ some (before ++ (entry ∷ proxies))
        → trusts proxies_list entry ≡ false
        → All (λ a. trusts proxies_list a ≡ true) proxies
        → (resolve is_utf8 parse (v4 b'p') header proxies_list).client ≡ entry)
    × ((first : IpAddr) (entries : List IpAddr)
        → trusts proxies_list (canonical (v4 b'p')) ≡ true
        → parse_entries is_utf8 parse header ≡ some (first ∷ entries)
        → All (λ a. trusts proxies_list a ≡ true) (first ∷ entries)
        → (resolve is_utf8 parse (v4 b'p') header proxies_list).client ≡ first)
    × (trusts proxies_list (canonical (v4 b'p')) ≡ true
        → parse_entries is_utf8 parse header ≡ none
        → (resolve is_utf8 parse (v4 b'p') header proxies_list).client ≡ canonical (v4 b'p'))
resolve-rightmost_example = resolve-rightmost is_utf8 parse (v4 b'p') header proxies_list
