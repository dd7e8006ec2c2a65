-- ===== src/Routing/Internal.antt =====
-- src/routing/internal.rs: the question whether a domain may get a certificate. Whether bytes are
-- UTF-8, and the text that they are, is an argument.
pub mod Asked
use kohaku.Base.{
  ℕ, ◌-◌, ◌+◌, ◌*◌, Bool, true, false, not, ◌&&◌, Option, none, some, List, [], ◌∷◌, ltb, leb, ◌==◌,
  is_some, if◌then◌else◌,
}
use kohaku.Base.Text.{Text, codes, text_eq, is_empty, is_ascii_digit, split, split_once}
use kohaku.Routing.Hosts.{HostEntry, main, project, HostMap, get, normalize}

abbrev pub hex_digit : ℕ → Option ℕ
hex_digit c =
    if is_ascii_digit c
    then some (c - b'0')
    else if leb b'a' c && leb c b'f'
    then some (c - b'a' + 10)
    else if leb b'A' c && leb c b'F'
    then some (c - b'A' + 10)
    else none

abbrev two_digits : Option ℕ → Option ℕ → Option ℕ
two_digits none low = none
two_digits (some high) none = none
two_digits (some high) (some low) = some (high * 16 + low)

-- `u8::from_str_radix` in base 16 of two characters; the first can be a plus.
abbrev pub from_hex : ℕ → ℕ → Option ℕ
from_hex a b = if a == b'+' then hex_digit b else two_digits (hex_digit a) (hex_digit b)

abbrev push : Option ℕ → Option (List ℕ) → Option (List ℕ)
push none rest = none
push (some byte) none = none
push (some byte) (some rest) = some (byte ∷ rest)

-- The bytes that a text stands for.
unfoldable pub percent_bytes : Text → Option (List ℕ)
percent_bytes [] = some []
percent_bytes (c ∷ []) = if c == b'%' then none else some (c ∷ [])
percent_bytes (c ∷ a ∷ []) = elim (c == b'%') [
  | true ↦ none
  | false ↦ push (some c) (percent_bytes (a ∷ []))
]
percent_bytes (c ∷ a ∷ b ∷ rest) = elim (c == b'%') [
  | true ↦ push (from_hex a b) (percent_bytes rest)
  | false ↦ push (some c) (percent_bytes (a ∷ b ∷ rest))
]

-- A parameter's name and value; one without `=` has the empty value.
abbrev pub parameter : Text → Option (Text × Text) → Text × Text
parameter pair none = (pair, [])
parameter pair (some parts) = parts

abbrev pub name_value : Text → Text × Text
name_value pair = parameter pair (split_once b'=' pair)

abbrev pub is_domain : Text → Bool
is_domain pair = text_eq (name_value pair).0 (codes "domain")

-- The loop over the parameters; a second `domain` ends it.
unfoldable pub find_domain : Option Text → List Text → Option Text
find_domain found [] = found
find_domain found (pair ∷ pairs) = elim (is_domain pair) [
  | false ↦ find_domain found pairs
  | true ↦ elim found [ some value ↦ none | none ↦ find_domain (some (name_value pair).1) pairs ]
]

abbrev pub non_empty : Option Text → Option Text
non_empty none = none
non_empty (some text) = if is_empty text then none else some text

abbrev pub is_project : Option HostEntry → Bool
is_project none = false
is_project (some main) = false
is_project (some (project id)) = true

abbrev pub is_known : HostMap → Option Text → Bool
is_known map none = false
is_known map (some domain) = is_project (get map (normalize domain))

module _ (from_utf8 : List ℕ → Option Text) where
  unfoldable pub percent_decode : Text → Option Text
  percent_decode text = elim (percent_bytes text) [ none ↦ none | some bytes ↦ from_utf8 bytes ]

  abbrev pub decoded : Option Text → Option Text
  decoded none = none
  decoded (some value) = non_empty (percent_decode value)

  unfoldable pub single_domain : Text → Option Text
  single_domain query = decoded (find_domain none (split b'&' query))

  -- Whether the answer is 200.
  unfoldable pub tls_ask : HostMap → Option Text → Bool
  tls_ask map none = false
  tls_ask map (some query) = is_known map (single_domain query)
