-- ===== src/Config/Decimal.antt =====
-- `parse_decimal` and `parse_port` of src/config.rs, and the decimals that the program prints.
pub mod Print
use kohaku.Base.{
  ℕ, zero, suc, ◌+◌, ◌-◌, ◌*◌, ◌/◌, ◌%◌, ◌^◌, Bool, not, ◌&&◌, ◌||◌, Option, none, some, List, [],
  ◌∷◌, ◌++◌, all, length, ltb, leb, ◌==◌, if◌then◌else◌,
}
use kohaku.Base.Text.{Text, is_empty, is_ascii_digit, starts_with_byte}

-- The number that a row of digits writes, from the number that the digits before it write.
unfoldable pub value_from : ℕ → Text → ℕ
value_from n [] = n
value_from n (c ∷ cs) = value_from (n * 10 + (c - b'0')) cs

-- `str::parse::<u32>` of a row of digits.
unfoldable pub parse_u32 : Text → Option ℕ
parse_u32 text = let n = value_from 0 text in if ltb n (2 ^ 32) then some n else none

unfoldable pub is_canonical : Text → Bool
is_canonical text =
    not (is_empty text)
    && (all is_ascii_digit text && ((length text == 1) || not (starts_with_byte b'0' text)))

unfoldable pub parse_decimal : Text → Option ℕ
parse_decimal text = if is_canonical text then parse_u32 text else none

abbrev to_port : ℕ → Option ℕ
to_port n = if ltb n (2 ^ 16) && not (n == 0) then some n else none

unfoldable pub parse_port : Text → Option ℕ
parse_port text = elim (parse_decimal text) [ none ↦ none | some n ↦ to_port n ]

-- `Display` of an unsigned number, on fuel.
pub digits : ℕ → ℕ → Text
digits zero n = []
digits (suc fuel) n =
    let higher = digits fuel (n / 10) in
    if ltb n 10 then (b'0' + n) ∷ [] else higher ++ ((b'0' + n % 10) ∷ [])

unfoldable pub show : ℕ → Text
unfolding digits
show n = digits (suc n) n
