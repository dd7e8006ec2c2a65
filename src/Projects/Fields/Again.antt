-- ===== src/Projects/Fields/Again.antt =====
-- A field that was accepted is accepted again as it is stored (src/projects/mod.rs).
use kohaku.Base.{
  some_inj, ℕ, ◌≡◌, refl, ap, ◌∙◌, inl, inr, Bool, false, not, ◌&&◌, ◌||◌, some, List, [], ◌∷◌, any,
  length, ltb, ◌==◌, if◌then◌else◌, arith, Bool-cases, All, map,
}
use kohaku.Base.Result.{ok, ok_inj, err_ok}
use kohaku.Base.Text.{Text, is_empty}
use kohaku.Base.Text.Trim.{trim_matches_twice, trim_matches-All}
use kohaku.Characters.{
  is_whitespace, trim, utf8_length, is_hiding, is_single_line, is_multi_line, crlf_to_lf,
  normalize_line_endings,
}
use kohaku.Projects.Fields.{parse_name, parse_security_contact, parse_privacy_notice}

trim_twice : (s : Text) → trim (trim s) ≡ trim s
unfolding trim
trim_twice s = trim_matches_twice is_whitespace s

module _ (p : ℕ → Bool) where
  none-All : (s : List ℕ) → any p s ≡ false → All (λ c. p c ≡ false) s
  none-All [] e = tt
  none-All (c ∷ s) e = (ground (arith, e), none-All s (ground (arith, e)))

  All-none : (s : List ℕ) → All (λ c. p c ≡ false) s → any p s ≡ false
  All-none [] a = refl
  All-none (c ∷ s) a = ground (arith, a.0, All-none s a.1)

  none-trim : (s : Text) → any p s ≡ false → any p (trim s) ≡ false
  unfolding trim
  none-trim s e =
      All-none (trim s) (trim_matches-All is_whitespace (λ c. p c ≡ false) s (none-All s e))

pub parse_name_again : (text name : Text) → parse_name text ≡ ok name → parse_name name ≡ ok name
unfolding parse_name is_single_line
parse_name_again text name e = elim (Bool-cases (any is_hiding text)) [
  | inl h ↦ absurd (err_ok (rw (parse_name, h) at e))
  | inr h ↦ elim (Bool-cases (is_empty (trim text) || ltb 80 (length (trim text)))) [
    | inl l ↦ absurd (err_ok (rw (parse_name, h, l) at e))
    | inr l ↦
        let same : trim text ≡ name = ok_inj (rw (parse_name, h, l) at e) in
        rw (← same, none-trim is_hiding text h, trim_twice text, l) refl
  ]
]

pub parse_security_contact_again :
    (text contact : Text)
    → parse_security_contact text ≡ ok (some contact)
    → parse_security_contact contact ≡ ok (some contact)
unfolding parse_security_contact is_single_line
parse_security_contact_again text contact e = elim (Bool-cases (any is_hiding text)) [
  | inl h ↦ absurd (err_ok (rw (parse_security_contact, h) at e))
  | inr h ↦ elim (Bool-cases (ltb 254 (length (trim text)))) [
    | inl l ↦ absurd (err_ok (rw (parse_security_contact, h, l) at e))
    | inr l ↦ elim (Bool-cases (is_empty (trim text))) [
      | inl n ↦ absurd (ground (arith, ok_inj (rw (parse_security_contact, h, l, n) at e)))
      | inr n ↦
          let same : trim text ≡ contact =
            some_inj (ok_inj (rw (parse_security_contact, h, l, n) at e)) in
          rw (← same, none-trim is_hiding text h, trim_twice text, l, n) refl
    ]
  ]
]

-- A text without carriage returns is not changed.
abbrev IsLf : Text → Type 0
IsLf text = All (λ c. (c == 13) ≡ false) text

crlf_to_lf_none : (text : Text) → IsLf text → crlf_to_lf text ≡ text
unfolding crlf_to_lf
crlf_to_lf_none [] a = refl
crlf_to_lf_none (c ∷ []) a = refl
crlf_to_lf_none (c ∷ d ∷ cs) a = rw a.0 (ap (λ l. c ∷ l) (crlf_to_lf_none (d ∷ cs) a.1))

normalize_none : (text : Text) → IsLf text → normalize_line_endings text ≡ text
unfolding normalize_line_endings
normalize_none text a =
    ap (map (λ c. if c == 13 then 10 else c)) (crlf_to_lf_none text a) ∙ mapped text a
  where
    mapped : (s : Text) → IsLf s → map (λ c. if c == 13 then 10 else c) s ≡ s
    mapped [] b = refl
    mapped (c ∷ cs) b = rw b.0 (ap (λ l. c ∷ l) (mapped cs b.1))

-- Neither is one that the rule for several lines accepts.
shown-IsLf : (text : Text) → any (λ c. not (c == 10) && is_hiding c) text ≡ false → IsLf text
unfolding is_hiding
shown-IsLf [] e = tt
shown-IsLf (c ∷ cs) e = (ground (arith, e), shown-IsLf cs (ground (arith, e)))

pub parse_privacy_notice_again :
    (text notice : Text)
    → parse_privacy_notice text ≡ ok (some notice)
    → parse_privacy_notice notice ≡ ok (some notice)
unfolding parse_privacy_notice is_multi_line
parse_privacy_notice_again text notice e =
    let lines = normalize_line_endings text in
    let hidden = λ (c : ℕ). not (c == 10) && is_hiding c in
    elim (Bool-cases (any hidden lines)) [
      | inl h ↦ absurd (err_ok (rw (parse_privacy_notice, h) at e))
      | inr h ↦ elim (Bool-cases (ltb 1024 (utf8_length (trim lines)))) [
        | inl l ↦ absurd (err_ok (rw (parse_privacy_notice, h, l) at e))
        | inr l ↦ elim (Bool-cases (is_empty (trim lines))) [
          | inl n ↦ absurd (ground (arith, ok_inj (rw (parse_privacy_notice, h, l, n) at e)))
          | inr n ↦
              let same : trim lines ≡ notice =
                some_inj (ok_inj (rw (parse_privacy_notice, h, l, n) at e)) in
              let shown = none-trim hidden lines h in
              rw
                (
                  ← same,
                  normalize_none (trim lines) (shown-IsLf (trim lines) shown),
                  shown,
                  trim_twice lines,
                  l,
                  n,
                )
                refl
        ]
      ]
    ]
