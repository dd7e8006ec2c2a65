-- ===== src/Mail/Wording.antt =====
-- The text rules of src/mail/mod.rs, on text as the list of its Unicode scalar values.
pub mod Safe
pub mod Tests
use kohaku.Base.{
  ℕ, zero, suc, ◌-◌, Bool, true, false, not, ◌&&◌, ◌||◌, List, [], ◌∷◌, ◌++◌, map, leb, ltb, ◌==◌,
  if◌then◌else◌, length, keep,
}
use kohaku.Characters.{in_range, is_control}

abbrev pub text_cap : ℕ
text_cap = 200

-- U+2026.
abbrev pub ellipsis : ℕ
ellipsis = 8230

unfoldable pub is_line_break_or_control : ℕ → Bool
is_line_break_or_control c = is_control c || (c == 8232 || c == 8233)

-- U+061C, U+200E, U+200F, U+202A to U+202E, U+2066 to U+2069.
unfoldable pub is_bidi : ℕ → Bool
is_bidi c = c == 1564 || (in_range 8206 8207 c || (in_range 8234 8238 c || in_range 8294 8297 c))

-- `Iterator::take`.
unfoldable pub take : ℕ → List ℕ → List ℕ
take zero s = []
take (suc n) [] = []
take (suc n) (c ∷ cs) = c ∷ take n cs

unfoldable pub cap : List ℕ → List ℕ
cap s = if leb (length s) text_cap then s else take (text_cap - 1) s ++ (ellipsis ∷ [])

unfoldable pub subject : List ℕ → List ℕ
subject s = cap (keep (λ c. not (is_line_break_or_control c)) s)

-- The loop of `single_line`, from whether the last character was a break.
unfoldable pub joined : Bool → List ℕ → List ℕ
joined in_break [] = []
joined in_break (c ∷ cs) =
    let after_break = joined true cs in
    let after_text = joined false cs in
    if is_line_break_or_control c
    then if in_break then after_break else b' ' ∷ after_break
    else if is_bidi c
    then after_text
    else c ∷ after_text

unfoldable pub single_line : List ℕ → List ℕ
single_line s = cap (joined false s)

-- Inner `"` become `'`.
unfoldable pub quote_for_subject : List ℕ → List ℕ
quote_for_subject s =
    b'"' ∷ (map (λ c. if c == b'"' then b'\'' else c) (single_line s) ++ (b'"' ∷ []))

unfoldable pub quote_for_body : List ℕ → List ℕ
quote_for_body s = b'>' ∷ b' ' ∷ single_line s
