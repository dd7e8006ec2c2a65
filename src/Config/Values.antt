-- ===== src/Config/Values.antt =====
-- The rules for the other variables of src/config.rs. `InstanceSecret::from_base64` is an argument.
use kohaku.Base.{
  ℕ, Bool, not, ◌&&◌, ◌||◌, Option, none, some, all, any, ltb, leb, ◌==◌, if◌then◌else◌,
}
use kohaku.Base.Result.{Result, ok, err, ok_or, is_ok}
use kohaku.Base.Text.{Text, codes, text_eq, is_empty, split, split_once, is_ascii_alphanumeric}
use kohaku.Characters.{is_control, utf8_length}
use kohaku.Config.Decimal.{parse_decimal, parse_port}
use kohaku.Config.DnsName
use kohaku.Config.Rule.{
  Rule, secret_rule, smtp_port_rule, smtp_tls_rule, no_control_characters, sender_rule,
  public_mail_rule,
}

pub data SmtpTls : Type 0 where
  implicit starttls : SmtpTls

unfoldable pub parse_smtp_port : Text → Result Rule ℕ
parse_smtp_port text = ok_or smtp_port_rule (parse_port text)

unfoldable pub parse_smtp_tls : Text → Result Rule SmtpTls
parse_smtp_tls text =
    if text_eq text (codes "implicit")
    then ok implicit
    else if text_eq text (codes "starttls")
    then ok starttls
    else err smtp_tls_rule

-- Also `parse_smtp_password`.
unfoldable pub parse_smtp_username : Text → Result Rule Text
parse_smtp_username text = if any is_control text then err no_control_characters else ok text

abbrev pub is_atext : ℕ → Bool
is_atext c = is_ascii_alphanumeric c || any (λ d. d == c) (codes "!#$%&'*+/=?^_`{|}~-")

abbrev is_atom : Text → Bool
is_atom atom = not (is_empty atom) && all is_atext atom

abbrev is_dot_atom : Text → Bool
is_dot_atom local = not (is_empty local) && all is_atom (split b'.' local)

unfoldable pub parse_sender : Text → Result Rule Text
parse_sender text =
    if ltb 254 (utf8_length text) then err sender_rule else elim (split_once b'@' text) [
      | none ↦ err sender_rule
      | some (local, domain) ↦
          if not (is_dot_atom local) || not (is_ok (DnsName.parse domain))
          then err sender_rule
          else ok text
    ]

abbrev at_least_one : Option ℕ → Result Rule ℕ
at_least_one none = err public_mail_rule
at_least_one (some n) = if leb 1 n then ok n else err public_mail_rule

unfoldable pub parse_public_mail_per_hour : Text → Result Rule ℕ
parse_public_mail_per_hour text = at_least_one (parse_decimal text)

unfoldable pub parse_instance_secret {ℓ} : {S : Type ℓ} → (Text → Option S) → Text → Result Rule S
parse_instance_secret from_base64 text = ok_or secret_rule (from_base64 text)
