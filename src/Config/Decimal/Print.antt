-- ===== src/Config/Decimal/Print.antt =====
-- A decimal that is read prints as it was written.
use mathlib.Core.List.{append_assoc, append-nil}
use kohaku.Base.{
  ℕ, zero, suc, ◌+◌, ◌-◌, ◌*◌, ◌/◌, ◌%◌, ◌<◌, ◌≡◌, refl, sym, ap, ◌∙◌, true, false, some, [], ◌∷◌,
  ◌++◌, all, arith, Bool-cases, inl, inr, ltb, Option-cases,
}
use kohaku.Base.Text.{Text, is_ascii_digit}
use kohaku.Config.Decimal.{
  value_from, parse_u32, is_canonical, parse_decimal, parse_port, digits, show,
}

digits_fuel : (f g n : ℕ) → n < f → n < g → digits f n ≡ digits g n
unfolding digits
digits_fuel zero g n h k = absurd (omega arith)
digits_fuel (suc f) zero n h k = absurd (omega arith)
digits_fuel (suc f) (suc g) n h k = elim (Bool-cases (ltb n 10)) [
  | inl t ↦ rw t refl
  | inr t ↦ rw t (
      ap (λ s. s ++ ((b'0' + n % 10) ∷ []))
        (digits_fuel f g (n / 10) (ground arith) (ground arith)))
]

show_push : (n d : ℕ) → 0 < n → d < 10 → show (n * 10 + d) ≡ show n ++ ((b'0' + d) ∷ [])
unfolding show digits
show_push n d h k =
    let big : ltb (n * 10 + d) 10 ≡ false = ground arith in
    let quotient : (n * 10 + d) / 10 ≡ n = omega arith in
    let remainder : (n * 10 + d) % 10 ≡ d = omega arith in
    rw (big, quotient, remainder)
      (ap (λ s. s ++ ((b'0' + d) ∷ []))
        (digits_fuel (n * 10 + d) (suc n) n (omega arith) (omega arith)))

digit_back : (c : ℕ) → is_ascii_digit c ≡ true → (c - b'0' < 10) × (b'0' + (c - b'0') ≡ c)
digit_back c h = ground arith

show_digit : (c : ℕ) → is_ascii_digit c ≡ true → show (c - b'0') ≡ (c ∷ [])
unfolding show digits
show_digit c h = ground arith

first_digit : (c : ℕ) (cs : Text) → all is_ascii_digit (c ∷ cs) ≡ true → is_ascii_digit c ≡ true
first_digit c cs a = ground (arith, a)

later_digits :
    (c : ℕ) (cs : Text) → all is_ascii_digit (c ∷ cs) ≡ true → all is_ascii_digit cs ≡ true
later_digits c cs a = ground (arith, a)

show-value_from :
    (n : ℕ) (cs : Text)
    → 0 < n
    → all is_ascii_digit cs ≡ true
    → show (value_from n cs) ≡ show n ++ cs
unfolding value_from
show-value_from n [] h a = sym (append-nil (show n))
show-value_from n (c ∷ cs) h a =
    let (small, back) = digit_back c (first_digit c cs a) in
    show-value_from (n * 10 + (c - b'0')) cs (omega arith) (later_digits c cs a)
    ∙ (ap (λ s. s ++ cs) (show_push n (c - b'0') h small)
        ∙ (append_assoc (show n) ((b'0' + (c - b'0')) ∷ []) cs ∙ ap (λ d. show n ++ (d ∷ cs)) back))

parse_u32-value : (text : Text) (n : ℕ) → parse_u32 text ≡ some n → value_from 0 text ≡ n
unfolding parse_u32
parse_u32-value text n e = ground arith

show-canonical : (text : Text) → is_canonical text ≡ true → show (value_from 0 text) ≡ text
unfolding is_canonical value_from
show-canonical [] h = absurd (ground arith)
show-canonical (c ∷ []) h =
    let start : 0 * 10 + (c - b'0') ≡ c - b'0' = omega arith in
    ap show start ∙ show_digit c (ground arith)
show-canonical (c ∷ d ∷ cs) h =
    let digits_all : all is_ascii_digit (c ∷ d ∷ cs) ≡ true = ground arith in
    let first = first_digit c (d ∷ cs) digits_all in
    let start : 0 * 10 + (c - b'0') ≡ c - b'0' = omega arith in
    show-value_from (0 * 10 + (c - b'0')) (d ∷ cs) (ground arith)
      (later_digits c (d ∷ cs) digits_all)
    ∙ ap (λ s. s ++ (d ∷ cs)) (ap show start ∙ show_digit c first)

pub show-parse_decimal : (text : Text) (n : ℕ) → parse_decimal text ≡ some n → show n ≡ text
unfolding parse_decimal
show-parse_decimal text n e = elim (Bool-cases (is_canonical text)) [
  | inl t ↦ ap show (sym (parse_u32-value text n (rw t at e))) ∙ show-canonical text t
  | inr f ↦ absurd (ground arith)
]

pub parse_port-Ports :
    (text : Text) (n : ℕ) → parse_port text ≡ some n → (show n ≡ text) × (0 < n) × (n < 65536)
unfolding parse_port
parse_port-Ports text n e = elim (Option-cases (parse_decimal text)) [
  | inl z ↦ absurd (ground arith)
  | inr (m, z) ↦ (show-parse_decimal text n (ground arith), ground arith, ground arith)
]
