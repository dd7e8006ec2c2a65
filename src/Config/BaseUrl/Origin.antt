-- ===== src/Config/BaseUrl/Origin.antt =====
-- A base URL that is accepted is the origin, letter by letter.
use kohaku.Base.{
  ℕ, ◌≡◌, refl, sym, ap, ◌∙◌, Bool, true, false, Option, none, some, ◌∷◌, ◌++◌, Bool-cases,
  Option-cases, inl, inr, any, not, ◌&&◌, ◌⊎◌, if◌then◌else◌,
}
use kohaku.Base.Result.{ok, bind_ok, ok_inj, err_ok}
use kohaku.Base.Text.Prefix.{strip_prefix-append, split_once-append}
use kohaku.Base.Text.{Text, codes, text_eq, strip_prefix, split_once}
use kohaku.Config.Decimal.{show, parse_port}
use kohaku.Config.Decimal.Print.{parse_port-Ports}
use kohaku.Config.DnsName
use kohaku.Config.BaseUrl.{
  BaseUrl, origin, parse_scheme, named, ends_host, parse_host_port, is_port, check_host, parse_rest,
  parse_base_url,
}

-- The scheme as it is written.
abbrev scheme : Bool → Text
scheme https = if https then codes "https://" else codes "http://"

parse_scheme-append :
    (dev : Bool) (text : Text) (parts : Bool × Text)
    → parse_scheme dev text ≡ ok parts
    → (text ≡ scheme parts.0 ++ parts.1) × ((parts.0 ≡ true) ⊎ (dev ≡ true))
unfolding parse_scheme strip_prefix
parse_scheme-append dev text parts e = elim (Option-cases (strip_prefix (codes "https://") text)) [
  | inr (rest, s) ↦
      let same : (true, rest) ≡ parts = ok_inj (rw s at e) in
      rw (← same) (strip_prefix-append (codes "https://") text rest s, inl refl)
  | inl n ↦ elim (Option-cases (strip_prefix (codes "http://") text)) [
    | inl m ↦ absurd (err_ok (rw (n, m) at e))
    | inr (rest, s) ↦ elim (Bool-cases dev) [
      | inl t ↦
          let same : (false, rest) ≡ parts = ok_inj (rw (n, s, t) at e) in
          rw (← same) (strip_prefix-append (codes "http://") text rest s, inr t)
      | inr f ↦ absurd (err_ok (rw (n, s, f) at e))
    ]
  ]
]

-- The host as it is written, with its port.
abbrev with_port : Text → Option ℕ → Text
with_port host none = host
with_port host (some port) = host ++ (b':' ∷ show port)

parse_host_port-with_port :
    (rest : Text) (parts : Text × Option ℕ)
    → parse_host_port rest ≡ ok parts
    → rest ≡ with_port parts.0 parts.1
unfolding parse_host_port
parse_host_port-with_port rest parts e = elim (Option-cases (split_once b':' rest)) [
  | inl n ↦
      let same : (rest, none) ≡ parts = ok_inj (rw (parse_host_port, n) at e) in rw (← same) refl
  | inr ((host, port), s) ↦ elim (Option-cases (parse_port port)) [
    | inl n ↦ absurd (err_ok (rw (parse_host_port, s, n) at e))
    | inr (n, p) ↦
        let same : (host, some n) ≡ parts = ok_inj (rw (parse_host_port, s, p) at e) in
        rw (← same, (parse_port-Ports port n p).0) (split_once-append b':' rest host port s)
  ]
]

check_host-fields :
    (https : Bool) (host : Text) (port : Option ℕ) (url : BaseUrl)
    → check_host https host port ≡ ok url
    → url ≡ record { https = https; host = host; port = port }
unfolding check_host named
check_host-fields https host port url e =
    elim (Bool-cases (is_port port (if https then 443 else 80))) [
      | inl t ↦ absurd (err_ok (rw t at e))
      | inr f ↦
          let (name, parsed, last) =
            bind_ok (DnsName.parse host) (λ n. named https n port) (rw f at e) in
          let spelled = DnsName.parse-eq-ok host name parsed in
          elim (Bool-cases (not https && not (text_eq name (codes "localhost")))) [
            | inl t ↦ absurd (err_ok (rw t at last))
            | inr g ↦ rw (← spelled) (sym (ok_inj (rw g at last)))
          ]
    ]

origin-with_port :
    (https : Bool) (host : Text) (port : Option ℕ)
    → origin (record { https = https; host = host; port = port })
      ≡ scheme https ++ with_port host port
unfolding origin
origin-with_port true host none = refl
origin-with_port true host (some port) = refl
origin-with_port false host none = refl
origin-with_port false host (some port) = refl

origin-rest :
    (https : Bool) (rest : Text) (url : BaseUrl)
    → parse_rest https rest ≡ ok url
    → origin url ≡ scheme https ++ rest
unfolding parse_rest
origin-rest https rest url e = elim (Bool-cases (any ends_host rest)) [
  | inl t ↦ absurd (err_ok (rw t at e))
  | inr f ↦
      let (parts, read, checked) =
        bind_ok (parse_host_port rest) (λ p. check_host https p.0 p.1) (rw f at e) in
      ap origin (check_host-fields https parts.0 parts.1 url checked)
      ∙ (origin-with_port https parts.0 parts.1
          ∙ ap (λ t. scheme https ++ t) (sym (parse_host_port-with_port rest parts read)))
]

-- A value of KOHAKU_BASE_URL that is accepted is, letter by letter, the origin that requests are
-- compared with.
pub origin-parse_base_url :
    (dev : Bool) (text : Text) (url : BaseUrl)
    → parse_base_url dev text ≡ ok url
    → origin url ≡ text
unfolding parse_base_url parse_rest origin
origin-parse_base_url dev text url e =
    let (parts, scheme_read, rest_read) =
      bind_ok (parse_scheme dev text) (λ p. parse_rest p.0 p.1) e in
    let (spelled, allowed) = parse_scheme-append dev text parts scheme_read in
    origin-rest parts.0 parts.1 url rest_read ∙ sym spelled
