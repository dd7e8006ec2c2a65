-- ===== src/Projects/Fields/Checked.antt =====
-- What the rules accept, the CHECK constraints of migrations/0003_projects.sql accept too, so no
-- form leads to an error of the database.
use kohaku.Base.{
  some_inj, ℕ, ◌≤◌, ◌≡◌, refl, ap, ◌∙◌, inl, inr, Bool, true, false, ◌&&◌, ◌||◌, Option, none, some,
  [], ◌∷◌, all, any, length, ltb, leb, ◌==◌, arith, Bool-cases, All,
}
use kohaku.Base.Result.{ok, ok_inj, err_ok, Result-cases}
use kohaku.Base.Text.{
  Text, is_empty, is_ascii_digit, is_ascii_lowercase, is_ascii_uppercase, text_eq,
  to_ascii_lowercase, to_lower,
}
use kohaku.Base.Text.Trim.{trim_matches_none}
use kohaku.Characters.{
  is_whitespace, trim, utf8_length, is_single_line, is_multi_line, normalize_line_endings,
}
use kohaku.Config.BaseUrl.{BaseUrl}
use kohaku.Config.DnsName
use kohaku.Config.DnsName.Bytes.{IsNameByte, parse-bytes, parse-dot-long}
use kohaku.Projects.Fields.{
  is_slug_byte, is_slug, parse_slug, parse_name, dot, checked_host, parse_host, unless_empty,
  parse_privacy_notice, parse_security_contact,
}

abbrev starts_well : Text → Bool
starts_well [] = false
starts_well (c ∷ cs) = is_ascii_lowercase c || is_ascii_digit c

abbrev pub check_slug : Text → Bool
check_slug slug =
    (leb 1 (length slug) && leb (length slug) 40) && (starts_well slug && all is_slug_byte slug)

abbrev pub check_name : Text → Bool
check_name name = leb 1 (length name) && leb (length name) 80

abbrev is_host_byte : ℕ → Bool
is_host_byte c = is_ascii_lowercase c || (is_ascii_digit c || ((c == b'.') || (c == b'-')))

abbrev pub check_host : Option Text → Bool
check_host none = true
check_host (some host) =
    (leb 3 (length host) && leb (length host) 253) && (any dot host && all is_host_byte host)

abbrev pub check_notice : Option Text → Bool
check_notice none = true
check_notice (some notice) = leb 1 (utf8_length notice) && leb (utf8_length notice) 1024

abbrev pub check_contact : Option Text → Bool
check_contact none = true
check_contact (some contact) = leb 1 (length contact) && leb (length contact) 254

utf8_length-le : (text : Text) → length text ≤ utf8_length text
utf8_length-le [] = omega arith
utf8_length-le (c ∷ cs) = ground (arith, utf8_length-le cs)

pub parse_slug-check : (text slug : Text) → parse_slug text ≡ ok slug → check_slug slug ≡ true
unfolding parse_slug
parse_slug-check text slug e = elim (Bool-cases (is_slug text)) [
  | inl t ↦ rw (← ok_inj {A = Text} (rw (parse_slug, t) at e)) (checked text t)
  | inr f ↦ absurd (err_ok (rw (parse_slug, f) at e))
]
  where
    checked : (s : Text) → is_slug s ≡ true → check_slug s ≡ true
    checked [] t = absurd (ground (arith, t))
    checked (c ∷ cs) t = ground (arith, t, utf8_length-le (c ∷ cs))

pub parse_name-check : (text name : Text) → parse_name text ≡ ok name → check_name name ≡ true
unfolding parse_name
parse_name-check text name e = elim (Bool-cases (is_single_line text)) [
  | inr h ↦ absurd (err_ok (rw (parse_name, h) at e))
  | inl h ↦ elim (Bool-cases (is_empty (trim text) || ltb 80 (length (trim text)))) [
    | inl l ↦ absurd (err_ok (rw (parse_name, h, l) at e))
    | inr l ↦ rw (← ok_inj {A = Text} (rw (parse_name, h, l) at e)) (checked (trim text) l)
  ]
]
  where
    checked : (s : Text) → (is_empty s || ltb 80 (length s)) ≡ false → check_name s ≡ true
    checked [] l = absurd (ground (arith, l))
    checked (c ∷ cs) l = ground (arith, l)

pub parse_security_contact-check :
    (text : Text) (contact : Option Text)
    → parse_security_contact text ≡ ok contact
    → check_contact contact ≡ true
unfolding parse_security_contact
parse_security_contact-check text contact e = elim (Bool-cases (is_single_line text)) [
  | inr h ↦ absurd (err_ok (rw (parse_security_contact, h) at e))
  | inl h ↦ elim (Bool-cases (ltb 254 (length (trim text)))) [
    | inl l ↦ absurd (err_ok (rw (parse_security_contact, h, l) at e))
    | inr l ↦
        rw (← ok_inj {A = Option Text} (rw (parse_security_contact, h, l) at e))
          (checked (trim text) l)
  ]
]
  where
    checked : (s : Text) → ltb 254 (length s) ≡ false → check_contact (unless_empty s) ≡ true
    checked [] l = refl
    checked (c ∷ cs) l = ground (arith, l)

pub parse_privacy_notice-check :
    (text : Text) (notice : Option Text)
    → parse_privacy_notice text ≡ ok notice
    → check_notice notice ≡ true
unfolding parse_privacy_notice
parse_privacy_notice-check text notice e =
    let lines = normalize_line_endings text in
    elim (Bool-cases (is_multi_line lines)) [
      | inr h ↦ absurd (err_ok (rw (parse_privacy_notice, h) at e))
      | inl h ↦ elim (Bool-cases (ltb 1024 (utf8_length (trim lines)))) [
        | inl l ↦ absurd (err_ok (rw (parse_privacy_notice, h, l) at e))
        | inr l ↦
            rw (← ok_inj {A = Option Text} (rw (parse_privacy_notice, h, l) at e))
              (checked (trim lines) l)
      ]
    ]
  where
    checked : (s : Text) → ltb 1024 (utf8_length s) ≡ false → check_notice (unless_empty s) ≡ true
    checked [] l = refl
    checked (c ∷ cs) l = ground (arith, l, utf8_length-le (c ∷ cs))

host_bytes : (s : Text) → All IsNameByte s → all is_host_byte s ≡ true
host_bytes [] a = refl
host_bytes (c ∷ cs) a = ground (arith, a.0, host_bytes cs a.1)

checked_host-checked :
    (base given host : Text)
    → checked_host base given ≡ ok (some host)
    → (DnsName.parse host ≡ ok host) × (any dot host ≡ true) × (text_eq host base ≡ false)
unfolding checked_host
checked_host-checked base given host e = elim (Result-cases (DnsName.parse given)) [
  | inl (rule, p) ↦ absurd (err_ok (rw (checked_host, p) at e))
  | inr (name, p) ↦ elim (Bool-cases (any dot name)) [
    | inr f ↦ absurd (err_ok (rw (checked_host, p, f) at e))
    | inl d ↦ elim (Bool-cases (text_eq name base)) [
      | inl t ↦ absurd (err_ok (rw (checked_host, p, d, t) at e))
      | inr t ↦
          let same : name ≡ host = some_inj (ok_inj (rw (checked_host, p, d, t) at e)) in
          let spelled = DnsName.parse-eq-ok given name p in
          let again : DnsName.parse name ≡ ok name = ap DnsName.parse spelled ∙ p in
          rw (← same) (again, d, t)
    ]
  ]
]

-- What a host that was accepted has gone through.
pub parse_host-checked :
    (text host : Text) (base_url : BaseUrl)
    → parse_host text base_url ≡ ok (some host)
    → (DnsName.parse host ≡ ok host) × (any dot host ≡ true) × (text_eq host base_url.host ≡ false)
unfolding parse_host checked_host
parse_host-checked text host base_url e =
    let given = to_ascii_lowercase (trim text) in
    elim (Bool-cases (is_empty given)) [
      | inl n ↦ absurd (ground (arith, ok_inj {A = Option Text} (rw (parse_host, n) at e)))
      | inr n ↦ checked_host-checked base_url.host given host (rw (parse_host, n) at e)
    ]

pub parse_host-check :
    (text : Text) (host : Option Text) (base_url : BaseUrl)
    → parse_host text base_url ≡ ok host
    → check_host host ≡ true
parse_host-check text none base_url e = refl
parse_host-check text (some host) base_url e =
    let (parsed, dotted, other) = parse_host-checked text host base_url e in
    let (bytes, short) = parse-bytes host host parsed in
    let long = parse-dot-long host host parsed dotted in ground (arith, host_bytes host bytes)

name_kept :
    (s : Text)
    → All IsNameByte s
    → (to_ascii_lowercase s ≡ s) × All (λ c. is_whitespace c ≡ false) s
unfolding to_lower is_whitespace
name_kept [] a = (refl, tt)
name_kept (c ∷ cs) a =
    let (rest, solid) = name_kept cs a.1 in
    let upper : is_ascii_uppercase c ≡ false = ground (arith, a.0) in
    (rw upper (ap (λ l. c ∷ l) rest), (ground (arith, a.0), solid))

-- A host that was accepted is accepted again as it is stored.
pub parse_host_again :
    (text host : Text) (base_url : BaseUrl)
    → parse_host text base_url ≡ ok (some host)
    → parse_host host base_url ≡ ok (some host)
unfolding parse_host checked_host trim
parse_host_again text host base_url e =
    let (parsed, dotted, other) = parse_host-checked text host base_url e in
    let (lower, solid) = name_kept host (parse-bytes host host parsed).0 in
    let filled : is_empty host ≡ false = ground (arith, parse-dot-long host host parsed dotted) in
    rw (trim_matches_none is_whitespace host solid, lower, filled, parsed, dotted, other) refl
