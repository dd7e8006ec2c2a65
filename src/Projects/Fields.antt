-- ===== src/Projects/Fields.antt =====
-- The rules for the fields of a project (src/projects/mod.rs).
pub mod Again
pub mod Checked
use kohaku.Base.{
  ℕ, Bool, true, false, not, ◌&&◌, ◌||◌, Option, none, some, List, [], ◌∷◌, all, any, length, ltb,
  leb, ◌==◌, if◌then◌else◌,
}
use kohaku.Base.Result.{Result, ok, err, ◌>>=◌, or_err}
use kohaku.Base.Text.{
  Text, is_empty, is_ascii_digit, is_ascii_lowercase, text_eq, starts_with_byte, to_ascii_lowercase,
}
use kohaku.Characters.{trim, utf8_length, is_single_line, is_multi_line, normalize_line_endings}
use kohaku.Config.BaseUrl.{BaseUrl}
use kohaku.Config.DnsName
use kohaku.Projects.Problems.{
  Problem, slug_rule, name_length, name_characters, host_rule, host_main, notice_length,
  notice_characters, contact_length, contact_characters,
}

abbrev pub slug_max : ℕ
slug_max = 40

abbrev pub name_max : ℕ
name_max = 80

abbrev pub privacy_notice_max : ℕ
privacy_notice_max = 1024

abbrev pub security_contact_max : ℕ
security_contact_max = 254

abbrev pub is_slug_byte : ℕ → Bool
is_slug_byte b = is_ascii_lowercase b || (is_ascii_digit b || (b == b'-'))

abbrev pub is_slug : Text → Bool
is_slug text =
    not (is_empty text)
    && (leb (utf8_length text) slug_max
        && (not (starts_with_byte b'-' text) && all is_slug_byte text))

unfoldable pub parse_slug : Text → Result Problem Text
parse_slug text = if is_slug text then ok text else err slug_rule

unfoldable pub parse_name : Text → Result Problem Text
parse_name text =
    let name = trim text in
    if not (is_single_line text)
    then err name_characters
    else if is_empty name || ltb name_max (length name)
    then err name_length
    else ok name

abbrev pub dot : ℕ → Bool
dot c = c == b'.'

-- The rules after the text is known not to be empty.
unfoldable pub checked_host : Text → Text → Result Problem (Option Text)
checked_host base_host host = do
  name ← or_err host_rule (DnsName.parse host)
  if not (any dot name)
      then err host_rule
      else if text_eq name base_host
      then err host_main
      else ok (some name)

unfoldable pub parse_host : Text → BaseUrl → Result Problem (Option Text)
parse_host text base_url =
    let host = to_ascii_lowercase (trim text) in
    if is_empty host then ok none else checked_host base_url.host host

abbrev pub unless_empty : Text → Option Text
unless_empty text = if is_empty text then none else some text

unfoldable pub parse_privacy_notice : Text → Result Problem (Option Text)
parse_privacy_notice text =
    let lines = normalize_line_endings text in
    let notice = trim lines in
    if not (is_multi_line lines)
    then err notice_characters
    else if ltb privacy_notice_max (utf8_length notice)
    then err notice_length
    else ok (unless_empty notice)

unfoldable pub parse_security_contact : Text → Result Problem (Option Text)
parse_security_contact text =
    let contact = trim text in
    if not (is_single_line text)
    then err contact_characters
    else if ltb security_contact_max (length contact)
    then err contact_length
    else ok (unless_empty contact)
