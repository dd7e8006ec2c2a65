-- ===== src/Mail/Wording/Safe.antt =====
-- Text of users cannot break out of its line in a mail (src/mail/mod.rs).
use kohaku.Base.{
  ℕ, zero, suc, ◌-◌, ◌≤◌, ◌≡◌, refl, ap, ◌∙◌, Bool, true, false, not, List, [], ◌∷◌, ◌++◌, map,
  arith, All, count, leb, ◌==◌, if◌then◌else◌, length, length-append, keep, Bool-cases, inl, inr,
  ◌⊎◌,
}
use kohaku.Mail.Wording.{
  is_line_break_or_control, is_bidi, take, cap, subject, joined, single_line, quote_for_subject,
  quote_for_body, text_cap, ellipsis,
}

take-All : (P : ℕ → Type 0) (n : ℕ) (s : List ℕ) → All P s → All P (take n s)
unfolding take
take-All P zero s a = tt
take-All P (suc n) [] a = tt
take-All P (suc n) (c ∷ cs) a = (a.0, take-All P n cs a.1)

append-All : (P : ℕ → Type 0) (s t : List ℕ) → All P s → All P t → All P (s ++ t)
append-All P [] t a b = b
append-All P (c ∷ cs) t a b = (a.0, append-All P cs t a.1 b)

length-take : (n : ℕ) (s : List ℕ) → length (take n s) ≤ n
unfolding take
length-take zero s = omega arith
length-take (suc n) [] = omega arith
length-take (suc n) (c ∷ cs) = omega (arith, length-take n cs)

cap-All : (P : ℕ → Type 0) (s : List ℕ) → P ellipsis → All P s → All P (cap s)
unfolding cap
cap-All P s e a = elim (Bool-cases (leb (length s) text_cap)) [
  | inl t ↦ rw t a
  | inr f ↦
      rw f (
        append-All P (take (text_cap - 1) s) (ellipsis ∷ []) (take-All P (text_cap - 1) s a)
          (e, tt))
]

length-cap : (s : List ℕ) → length (cap s) ≤ 200
unfolding cap
length-cap s = elim (Bool-cases (leb (length s) text_cap)) [
  | inl t ↦ rw t (ground (arith, t))
  | inr f ↦ rw f (
      omega (
        arith,
        length-append (take (text_cap - 1) s) (ellipsis ∷ []),
        length-take (text_cap - 1) s,
      ))
]

-- No control character and no line break.
abbrev pub IsPlain : ℕ → Type 0
IsPlain c = is_line_break_or_control c ≡ false

kept-IsPlain : (s : List ℕ) → All IsPlain (keep (λ c. not (is_line_break_or_control c)) s)
kept-IsPlain [] = tt
kept-IsPlain (c ∷ cs) = elim (Bool-cases (is_line_break_or_control c)) [
  | inl t ↦ rw t (kept-IsPlain cs)
  | inr f ↦ rw f (f, kept-IsPlain cs)
]

keep_plain : (s : List ℕ) → All IsPlain s → keep (λ c. not (is_line_break_or_control c)) s ≡ s
keep_plain [] a = refl
keep_plain (c ∷ cs) a = rw a.0 (ap (λ l. c ∷ l) (keep_plain cs a.1))

ellipsis-IsPlain : IsPlain ellipsis
unfolding is_line_break_or_control
ellipsis-IsPlain = refl

cap_short : (s : List ℕ) → length s ≤ 200 → cap s ≡ s
unfolding cap
cap_short s h = ground (arith, h)

-- A subject is at most 200 characters long, without control characters and line breaks, and a
-- subject that is one already stays as it is.
pub subject-IsPlain :
    (s : List ℕ)
    → (length (subject s) ≤ 200) × All IsPlain (subject s) × (subject (subject s) ≡ subject s)
unfolding subject
subject-IsPlain s =
    let kept = keep (λ c. not (is_line_break_or_control c)) s in
    let plain = cap-All IsPlain kept ellipsis-IsPlain (kept-IsPlain s) in
    (
      length-cap kept,
      plain,
      ap cap (keep_plain (cap kept) plain) ∙ cap_short (cap kept) (length-cap kept),
    )

-- Nor a character that changes the direction of text.
abbrev pub IsInert : ℕ → Type 0
IsInert c = (is_line_break_or_control c ≡ false) × (is_bidi c ≡ false)

space-IsInert : IsInert b' '
unfolding is_line_break_or_control is_bidi
space-IsInert = (refl, refl)

joined-IsInert : (in_break : Bool) (s : List ℕ) → All IsInert (joined in_break s)
unfolding joined
joined-IsInert in_break [] = tt
joined-IsInert in_break (c ∷ cs) = elim (Bool-cases (is_line_break_or_control c)) [
  | inl t ↦ elim (Bool-cases in_break) [
    | inl b ↦ rw (t, b) (joined-IsInert true cs)
    | inr b ↦ rw (t, b) (space-IsInert, joined-IsInert true cs)
  ]
  | inr f ↦ elim (Bool-cases (is_bidi c)) [
    | inl b ↦ rw (f, b) (joined-IsInert false cs)
    | inr b ↦ rw (f, b) ((f, b), joined-IsInert false cs)
  ]
]

unquoted-IsInert :
    (s : List ℕ) → All IsInert s → All IsInert (map (λ c. if c == b'"' then b'\'' else c) s)
unfolding is_line_break_or_control is_bidi
unquoted-IsInert [] a = tt
unquoted-IsInert (c ∷ cs) a = elim (Bool-cases (c == b'"')) [
  | inl t ↦ rw t ((refl, refl), unquoted-IsInert cs a.1)
  | inr f ↦ rw f (a.0, unquoted-IsInert cs a.1)
]

count_quotes :
    (s : List ℕ)
    → count (λ c. c == b'"') (map (λ c. if c == b'"' then b'\'' else c) s ++ (b'"' ∷ [])) ≡ 1
count_quotes [] = refl
count_quotes (c ∷ cs) = elim (Bool-cases (c == b'"')) [
  | inl t ↦ rw t (omega (arith, count_quotes cs))
  | inr f ↦ rw (f, f) (omega (arith, count_quotes cs))
]

length-map : (f : ℕ → ℕ) (s : List ℕ) → length (map f s) ≡ length s
length-map f [] = refl
length-map f (c ∷ cs) = omega (arith, length-map f cs)

ellipsis-IsInert : IsInert ellipsis
unfolding is_line_break_or_control is_bidi
ellipsis-IsInert = (refl, refl)

quote-IsInert : (c : ℕ) → (c ≡ b'"') ⊎ (c ≡ b'>') → IsInert c
unfolding is_line_break_or_control is_bidi
quote-IsInert c h = (ground arith, ground arith)

-- A user's text quoted for a subject or for a body has no control character, no line break and no
-- character that changes the direction of text, and at most 202 characters with its two marks; in a
-- subject exactly two of them are `"`.
pub quote-safe :
    (s : List ℕ)
    → (All IsInert (quote_for_subject s)
        × (length (quote_for_subject s) ≤ 202)
        × (count (λ c. c == b'"') (quote_for_subject s) ≡ 2))
      × (All IsInert (quote_for_body s) × (length (quote_for_body s) ≤ 202))
unfolding quote_for_subject quote_for_body single_line
quote-safe s =
    let line = cap (joined false s) in
    let inert = cap-All IsInert (joined false s) ellipsis-IsInert (joined-IsInert false s) in
    let short = length-cap (joined false s) in
    let quoted = map (λ (c : ℕ). if c == b'"' then b'\'' else c) line in
    (
      (
        (
          quote-IsInert b'"' (inl refl),
          append-All IsInert quoted (b'"' ∷ []) (unquoted-IsInert line inert)
              (quote-IsInert b'"' (inl refl), tt),
        ),
        omega (
          arith,
          short,
          length-append quoted (b'"' ∷ []),
          length-map (λ c. if c == b'"' then b'\'' else c) line,
        ),
        omega (arith, count_quotes line),
      ),
      ((quote-IsInert b'>' (inr refl), (space-IsInert, inert)), omega (arith, short)),
    )
