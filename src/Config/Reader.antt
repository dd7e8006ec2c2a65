-- ===== src/Config/Reader.antt =====
-- `Reader` and `Config::load` of src/config.rs: every setting that a command needs is read, and every
-- problem is kept. The environment is a function; the parsers of addresses and of the secret, and
-- whether this is a `dev` build, are arguments.
pub mod Verdicts
pub mod Transport
pub mod Quiet
pub mod Loaded
use kohaku.Base.{
  ℕ, Bool, true, false, not, ◌&&◌, ◌||◌, Option, none, some, List, [], ◌∷◌, ◌++◌, any, ◌==◌,
  if◌then◌else◌, is_some,
}
use kohaku.Base.Result.{Result, ok, err}
use kohaku.Base.Text.{Text, codes, text_eq, is_empty}
use kohaku.Config.BaseUrl.{BaseUrl, parse_base_url}
use kohaku.Config.DnsName
pub use kohaku.Config.Steps.{
  Variable, base_url, trusted_proxies, secret, smtp_host, smtp_port, smtp_tls, smtp_username,
  smtp_password, smtp_from, public_mail_per_hour, Value, text, not_text, Environment, Problem,
  problem, Reading, fail, is_placeholder, required_of,
}
unfoldable pub use kohaku.Config.Steps.{raw, parsed, required, required_not_placeholder}
use kohaku.Config.Proxies.{parse_trusted_proxies}
use kohaku.Config.Rule.{Rule, missing, not_utf8, unchanged_example, dev_build_sends_no_mail}
use kohaku.Config.Values.{
  SmtpTls, parse_smtp_port, parse_smtp_tls, parse_smtp_username, parse_sender,
  parse_public_mail_per_hour, parse_instance_secret,
}
use kohaku.Limits.Address.{IpAddr}
use kohaku.Limits.ClientIp.{IpNet}

pub record SmtpConfig : Type 0 where
  pub host : Text
  pub port : ℕ
  pub tls : SmtpTls
  pub username : Text
  pub password : Text

pub data MailTransport : Type 0 where
  smtp : SmtpConfig → MailTransport
  print : MailTransport

-- Which of the ten a variable is, for `==` on names.
abbrev pub index : Variable → ℕ
index base_url = 0
index trusted_proxies = 1
index secret = 2
index smtp_host = 3
index smtp_port = 4
index smtp_tls = 5
index smtp_username = 6
index smtp_password = 7
index smtp_from = 8
index public_mail_per_hour = 9

abbrev pub problems_for : Variable → List Problem → Bool
problems_for name problems = any (λ p. index p.variable == index name) problems

abbrev pub default_public_mail_per_hour : ℕ
default_public_mail_per_hour = 60

abbrev pub public_mail_of : Reading Text → Reading ℕ
public_mail_of (some value, problems) =
    parsed parse_public_mail_per_hour public_mail_per_hour value problems
public_mail_of (none, problems) =
    if problems_for public_mail_per_hour problems
    then (none, problems)
    else (some default_public_mail_per_hour, problems)

infixl 5 ◌>>=◌
abbrev pub ◌>>=◌ {ℓ κ} : {A : Type ℓ} {B : Type κ} → Option A → (A → Option B) → Option B
none >>= f = none
some a >>= f = f a

unfoldable pub smtp_settings : Environment → List Problem → Reading SmtpConfig
smtp_settings env problems =
    let host =
      required_not_placeholder DnsName.parse env smtp_host (codes "smtp.example.com") problems in
    let port = required parse_smtp_port env smtp_port host.1 in
    let tls = required parse_smtp_tls env smtp_tls port.1 in
    let username =
      required_not_placeholder parse_smtp_username env smtp_username (codes "your-smtp-username")
        tls.1 in
    let password = required parse_smtp_username env smtp_password username.1 in
    (
      do
        h ← host.0
        p ← port.0
        t ← tls.0
        u ← username.0
        w ← password.0
        some (record { host = h; port = p; tls = t; username = u; password = w }),
      password.1,
    )

-- A `dev` build refuses the settings of the connection, each that is set.
abbrev pub refuse_set : Environment → Variable → Reading MailTransport → Reading MailTransport
refuse_set env name reading =
    if is_some (env name) then fail name dev_build_sends_no_mail reading.1 else reading

unfoldable pub transport : Bool → Environment → List Problem → Reading MailTransport
transport true env problems = refuse_set env smtp_password (
    refuse_set env smtp_username (
      refuse_set env smtp_tls
        (refuse_set env smtp_port (refuse_set env smtp_host (some print, problems)))))
transport false env problems =
    let read = smtp_settings env problems in (do c ← read.0; some (smtp c), read.1)

pub record ServeConfig (S : Type 0) : Type 0 where
  pub base_url : BaseUrl
  pub trusted_proxies : List IpNet
  pub secret : S
  pub sender : Text
  pub transport : MailTransport
  pub public_mail_per_hour : ℕ

pub data Config (S : Type 0) : Type 0 where
  serve_config : ServeConfig S → Config S
  secret_config : S → Config S
  links_config : S → BaseUrl → Config S
  no_config : Config S

-- The commands, by the settings that they need.
pub data Command : Type 0 where
  serve backup admin_unlock admin_reset_password project_create restore restore_list healthcheck :
      Command

abbrev pub loaded {ℓ} : {A : Type ℓ} → Reading A → Result (List Problem) A
loaded (some a, []) = ok a
loaded (some a, p ∷ problems) = err (p ∷ problems)
loaded (none, problems) = err problems

-- The settings of the connection, for the tests of the adapter.
unfoldable pub load_smtp : Environment → Result (List Problem) SmtpConfig
load_smtp env = loaded (smtp_settings env [])

module _ {S : Type 0} (from_base64 : Text → Option S) (parse_address : Text → Option IpAddr)
    (dev : Bool) where
  unfoldable pub read_secret : Environment → List Problem → Reading S
  read_secret env problems = required (parse_instance_secret from_base64) env secret problems

  unfoldable pub read_base_url : Environment → List Problem → Reading BaseUrl
  read_base_url env problems =
      required_not_placeholder (parse_base_url dev) env base_url (codes "https://bugs.example.com")
        problems

  unfoldable pub read_links : Environment → List Problem → Reading (Config S)
  read_links env problems =
      let key = read_secret env problems in
      let url = read_base_url env key.1 in (do s ← key.0; u ← url.0; some (links_config s u), url.1)

  unfoldable pub read_serve : Environment → List Problem → Reading (Config S)
  read_serve env problems =
      let url = read_base_url env problems in
      let proxies = required (parse_trusted_proxies parse_address) env trusted_proxies url.1 in
      let key = read_secret env proxies.1 in
      let sender =
        required_not_placeholder parse_sender env smtp_from (codes "bugs@example.com") key.1 in
      let mailer = transport dev env sender.1 in
      let mail = public_mail_of (raw env public_mail_per_hour mailer.1) in
      (
        do
          u ← url.0
          p ← proxies.0
          s ← key.0
          f ← sender.0
          t ← mailer.0
          m ← mail.0
          some (
              serve_config (record {
                base_url = u;
                trusted_proxies = p;
                secret = s;
                sender = f;
                transport = t;
                public_mail_per_hour = m;
              })),
        mail.1,
      )

  abbrev pub as_secret : Reading S → Reading (Config S)
  as_secret (none, problems) = (none, problems)
  as_secret (some s, problems) = (some (secret_config s), problems)

  unfoldable pub read : Command → Environment → Reading (Config S)
  read serve env = read_serve env []
  read backup env = as_secret (read_secret env [])
  read admin_unlock env = as_secret (read_secret env [])
  read admin_reset_password env = read_links env []
  read project_create env = read_links env []
  read restore env = (some no_config, [])
  read restore_list env = (some no_config, [])
  read healthcheck env = (some no_config, [])

  unfoldable pub load : Command → Environment → Result (List Problem) (Config S)
  load command env = loaded (read command env)
