-- ===== src/Base/Text.antt =====
-- Text as the list of its bytes, with the standard library's tests and splits on ASCII.
pub mod Trim
pub mod Equal
pub mod Prefix
use Prim.Native.Char.{code}
use Prim.Native.String.{String}
use mathlib.Core.Bool.{Bool, true, false, ◌&&◌, ◌||◌}
use mathlib.Core.List.{List, [], ◌∷◌, map, reverse}
use mathlib.Core.Option
use mathlib.Core.Option.{Option, none, some}
use Prim.Native.Nat.{ℕ, ◌+◌, ◌-◌}
use kohaku.Base.Tests.{leb, ◌==◌, if◌then◌else◌}

abbrev pub Text : Type 0
Text = List ℕ

-- The bytes of an ASCII literal.
abbrev pub codes : String → Text
codes String.[] = []
codes (String.◌∷◌ c s) = code c ∷ codes s

abbrev pub text_eq : Text → Text → Bool
text_eq [] [] = true
text_eq [] (y ∷ ys) = false
text_eq (x ∷ xs) [] = false
text_eq (x ∷ xs) (y ∷ ys) = x == y && text_eq xs ys

abbrev pub is_empty : Text → Bool
is_empty [] = true
is_empty (x ∷ xs) = false

-- Whether a text starts with a byte.
abbrev pub starts_with_byte : ℕ → Text → Bool
starts_with_byte c [] = false
starts_with_byte c (x ∷ xs) = x == c

abbrev pub is_ascii_digit : ℕ → Bool
is_ascii_digit c = leb b'0' c && leb c b'9'

abbrev pub is_ascii_lowercase : ℕ → Bool
is_ascii_lowercase c = leb b'a' c && leb c b'z'

abbrev pub is_ascii_uppercase : ℕ → Bool
is_ascii_uppercase c = leb b'A' c && leb c b'Z'

abbrev pub is_ascii_alphanumeric : ℕ → Bool
is_ascii_alphanumeric c = is_ascii_digit c || (is_ascii_lowercase c || is_ascii_uppercase c)

abbrev pub is_ascii_graphic : ℕ → Bool
is_ascii_graphic c = leb b'!' c && leb c b'~'

-- Space, tab, line feed, form feed and carriage return.
abbrev pub is_ascii_whitespace : ℕ → Bool
is_ascii_whitespace c = c == 32 || (c == 9 || (c == 10 || (c == 12 || c == 13)))

unfoldable pub to_lower : ℕ → ℕ
to_lower c = if is_ascii_uppercase c then c + 32 else c

unfoldable pub to_upper : ℕ → ℕ
to_upper c = if is_ascii_lowercase c then c - 32 else c

abbrev pub to_ascii_lowercase : Text → Text
to_ascii_lowercase = map to_lower

-- `str::split_once` at the first of a byte.
unfoldable pub split_once : ℕ → Text → Option (Text × Text)
split_once c [] = none
split_once c (x ∷ xs) =
    let rest = Option.map (λ p. (x ∷ p.0, p.1)) (split_once c xs) in
    if x == c then some ([], xs) else rest

-- `str::rsplit_once` at the last of a byte.
unfoldable pub rsplit_once : ℕ → Text → Option (Text × Text)
rsplit_once c [] = none
rsplit_once c (x ∷ xs) = elim (rsplit_once c xs) [
  | some p ↦ some (x ∷ p.0, p.1)
  | none ↦ if x == c then some ([], xs) else none
]

abbrev pub add_first : ℕ → List Text → List Text
add_first x [] = (x ∷ []) ∷ []
add_first x (part ∷ parts) = (x ∷ part) ∷ parts

-- `str::split` at a byte: always one part or more.
unfoldable pub split : ℕ → Text → List Text
split c [] = [] ∷ []
split c (x ∷ xs) = let rest = split c xs in if x == c then [] ∷ rest else add_first x rest

unfoldable pub trim_start : (ℕ → Bool) → Text → Text
trim_start p [] = []
trim_start p (x ∷ xs) = let rest = trim_start p xs in if p x then rest else x ∷ xs

-- `str::trim_matches`.
unfoldable pub trim_matches : (ℕ → Bool) → Text → Text
unfolding trim_start
trim_matches p s = reverse (trim_start p (reverse (trim_start p s)))

-- `str::strip_prefix`.
unfoldable pub strip_prefix : Text → Text → Option Text
strip_prefix [] text = some text
strip_prefix (c ∷ p) [] = none
strip_prefix (c ∷ p) (x ∷ text) = let rest = strip_prefix p text in if x == c then rest else none

-- `str::starts_with`.
abbrev pub starts_with : Text → Text → Bool
starts_with s [] = true
starts_with [] (y ∷ ys) = false
starts_with (x ∷ xs) (y ∷ ys) = x == y && starts_with xs ys
