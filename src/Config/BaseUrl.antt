-- ===== src/Config/BaseUrl.antt =====
-- `BaseUrl` of src/config.rs: the origin of the main host. Whether this is a `dev` build is an
-- argument.
pub mod Origin
use kohaku.Base.{
  ℕ, Bool, true, false, not, ◌&&◌, ◌||◌, Option, none, some, List, [], ◌∷◌, ◌++◌, any, ◌==◌,
  if◌then◌else◌,
}
use kohaku.Base.Result.{Result, ok, err, ◌>>=◌, ok_or}
use kohaku.Base.Text.{Text, codes, text_eq, strip_prefix, split_once}
use kohaku.Config.Decimal.{show, parse_port}
use kohaku.Config.DnsName
use kohaku.Config.Rule.{Rule, base_url_form, base_url_scheme, base_url_port, base_url_http_host}

pub record BaseUrl : Type 0 where
  pub https : Bool
  pub host : Text
  pub port : Option ℕ

unfoldable pub origin : BaseUrl → Text
origin url =
    let scheme = if url.https then codes "https" else codes "http" in
    elim url.port [
      | none ↦ scheme ++ (codes "://" ++ url.host)
      | some port ↦ scheme ++ (codes "://" ++ (url.host ++ (b':' ∷ show port)))
    ]

-- The scheme and what follows it.
unfoldable pub parse_scheme : Bool → Text → Result Rule (Bool × Text)
parse_scheme dev text = elim (strip_prefix (codes "https://") text) [
  | some rest ↦ ok (true, rest)
  | none ↦ elim (strip_prefix (codes "http://") text) [
    | some rest ↦ if dev then ok (false, rest) else err base_url_scheme
    | none ↦ err base_url_scheme
  ]
]

abbrev pub ends_host : ℕ → Bool
ends_host c = (c == b'/') || ((c == b'?') || ((c == b'#') || (c == b'@')))

unfoldable pub parse_host_port : Text → Result Rule (Text × Option ℕ)
parse_host_port rest = elim (split_once b':' rest) [
  | none ↦ ok (rest, none)
  | some (host, port) ↦ do n ← ok_or base_url_port (parse_port port); ok (host, some n)
]

abbrev pub is_port : Option ℕ → ℕ → Bool
is_port none n = false
is_port (some port) n = port == n

unfoldable pub named : Bool → Text → Option ℕ → Result Rule BaseUrl
named https name port =
    if not https && not (text_eq name (codes "localhost"))
    then err base_url_http_host
    else ok (record { https = https; host = name; port = port })

unfoldable pub check_host : Bool → Text → Option ℕ → Result Rule BaseUrl
check_host https host port =
    if is_port port (if https then 443 else 80)
    then err base_url_port
    else do name ← DnsName.parse host; named https name port

unfoldable pub parse_rest : Bool → Text → Result Rule BaseUrl
parse_rest https rest =
    if any ends_host rest
    then err base_url_form
    else do parts ← parse_host_port rest; check_host https parts.0 parts.1

unfoldable pub parse_base_url : Bool → Text → Result Rule BaseUrl
parse_base_url dev text = do parts ← parse_scheme dev text; parse_rest parts.0 parts.1
