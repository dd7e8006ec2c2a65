-- ===== src/Config/DnsName/Bytes.antt =====
-- Which bytes a name can hold, and how long it can be.
use kohaku.Base.{
  ℕ, ◌≤◌, ◌≡◌, inl, inr, true, false, ◌||◌, some, List, [], ◌∷◌, all, any, length, ltb, ◌==◌, arith,
  Bool-cases, Option-cases, All,
}
use kohaku.Base.Result.{ok, err_ok}
use kohaku.Base.Text.{Text, is_empty, split, add_first}
use kohaku.Config.DnsName.{
  is_label_byte, is_bad_label, last_label, parse_labels, parse, parse-eq-ok,
}

-- A letter, a digit, a dash or a dot.
abbrev pub IsNameByte : ℕ → Type 0
IsNameByte c = (is_label_byte c || (c == b'.')) ≡ true

label_bytes : (label : Text) → is_bad_label label ≡ false → all is_label_byte label ≡ true
unfolding is_bad_label
label_bytes label e = elim (Bool-cases (all is_label_byte label)) [
  | inl t ↦ t
  | inr f ↦ absurd (ground (arith, e, f))
]

last_label-good :
    (last found : Text) (labels : List Text)
    → last_label last labels ≡ some found
    → All (λ l. is_bad_label l ≡ false) labels
unfolding last_label
last_label-good last found [] e = tt
last_label-good last found (label ∷ labels) e = elim (Bool-cases (is_bad_label label)) [
  | inl b ↦ absurd (ground (arith, rw b at e))
  | inr g ↦ (g, last_label-good label found labels (rw g at e))
]

add_first-labels :
    (c : ℕ) (parts : List Text)
    → All (λ l. all is_label_byte l ≡ true) (add_first c parts)
    → (is_label_byte c ≡ true) × All (λ l. all is_label_byte l ≡ true) parts
add_first-labels c [] a = (ground (arith, a.0), tt)
add_first-labels c (p ∷ ps) a = (ground (arith, a.0), (ground (arith, a.0), a.1))

labels-bytes :
    (labels : List Text)
    → All (λ l. is_bad_label l ≡ false) labels
    → All (λ l. all is_label_byte l ≡ true) labels
labels-bytes [] a = tt
labels-bytes (label ∷ labels) a = (label_bytes label a.0, labels-bytes labels a.1)

split-bytes : (s : Text) → All (λ l. all is_label_byte l ≡ true) (split b'.' s) → All IsNameByte s
unfolding split
split-bytes [] a = tt
split-bytes (c ∷ s) a = elim (Bool-cases (c == b'.')) [
  | inl t ↦
      let labels : All (λ l. all is_label_byte l ≡ true) ([] ∷ split b'.' s) = rw t at a in
      (ground (arith, t), split-bytes s labels.1)
  | inr f ↦
      let (first, labels) = add_first-labels c (split b'.' s) (rw f at a) in
      (ground (arith, first), split-bytes s labels)
]

pub parse-labels :
    (text name : Text)
    → parse text ≡ ok name
    → All (λ l. is_bad_label l ≡ false) (split b'.' text) × (length text ≤ 253)
unfolding parse parse_labels
parse-labels text name e = elim (Bool-cases (is_empty text || ltb 253 (length text))) [
  | inl l ↦ absurd (err_ok (rw (parse, l) at e))
  | inr l ↦ elim (Option-cases (last_label [] (split b'.' text))) [
    | inl n ↦ absurd (err_ok (rw (parse, l, n) at e))
    | inr (last, found) ↦ (last_label-good [] last (split b'.' text) found, ground (arith, l))
  ]
]

pub parse-bytes :
    (text name : Text) → parse text ≡ ok name → All IsNameByte name × (length name ≤ 253)
parse-bytes text name e =
    let (labels, short) = parse-labels text name e in
    rw (parse-eq-ok text name e) (split-bytes text (labels-bytes (split b'.' text) labels), short)

dotted-long :
    (t : Text)
    → All (λ l. is_bad_label l ≡ false) (split b'.' t)
    → any (λ c. c == b'.') t ≡ true
    → 3 ≤ length t
unfolding split is_bad_label
dotted-long [] a d = absurd (ground (arith, d))
dotted-long (c ∷ []) a d = elim (Bool-cases (c == b'.')) [
  | inl t ↦ absurd (ground (arith, rw t at a))
  | inr f ↦ absurd (ground (arith, d, f))
]
dotted-long (c ∷ g ∷ []) a d = elim (Bool-cases (c == b'.')) [
  | inl t ↦ absurd (ground (arith, rw t at a))
  | inr f ↦ elim (Bool-cases (g == b'.')) [
    | inl t ↦ absurd (ground (arith, rw (f, t) at a))
    | inr h ↦ absurd (ground (arith, d, f, h))
  ]
]
dotted-long (c ∷ g ∷ h ∷ t) a d = omega arith

-- With a dot in it a name has three bytes or more, as no label is empty.
pub parse-dot-long :
    (text name : Text) → parse text ≡ ok name → any (λ c. c == b'.') text ≡ true → 3 ≤ length text
parse-dot-long text name e = dotted-long text (parse-labels text name e).0
