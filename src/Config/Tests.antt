-- ===== src/Config/Tests.antt =====
-- Values of the environment (src/config.rs).
use kohaku.Base.{◌≡◌, refl, Option, none, true, some, false, [], ◌∷◌}
use kohaku.Base.Result.{ok, err}
use kohaku.Base.Text.{Text, codes, split, split_once, strip_prefix}
use kohaku.Config.Decimal.{parse_decimal, parse_port, parse_u32, value_from, is_canonical}
use kohaku.Config.DnsName
use kohaku.Config.BaseUrl.{
  BaseUrl, origin, parse_base_url, parse_scheme, parse_rest, parse_host_port, check_host, named,
}
use kohaku.Config.BaseUrl.Origin.{origin-parse_base_url}
use kohaku.Config.Rule.{
  base_url_port, base_url_form, dns_name_rule, missing, not_utf8, unchanged_example, smtp_port_rule,
}
use kohaku.Config.Reader
use kohaku.Config.Values.{
  parse_smtp_port, parse_smtp_tls, parse_smtp_username, parse_instance_secret,
}
use kohaku.Config.Reader.Loaded.{load-verdicts}
use kohaku.Limits.Address.{IpAddr, v4}

abbrev pub bugs : BaseUrl
bugs = record { https = true; host = codes "bugs.kohaku.test"; port = some 8443 }

base_url_values :
    (parse_base_url false (codes "https://bugs.kohaku.test:8443") ≡ ok bugs)
    × (parse_base_url false (codes "https://bugs.kohaku.test:443") ≡ err base_url_port)
    × (parse_base_url false (codes "https://bugs.kohaku.test:0443") ≡ err base_url_port)
    × (parse_base_url false (codes "https://bugs.kohaku.test/") ≡ err base_url_form)
    × (parse_base_url false (codes "https://192.0.2.10") ≡ err dns_name_rule)
unfolding parse_base_url parse_scheme parse_rest parse_host_port check_host named strip_prefix
    split_once parse_port parse_decimal parse_u32 value_from is_canonical DnsName.parse
    DnsName.parse_labels DnsName.last_label DnsName.is_bad_label split
base_url_values = (refl, refl, refl, refl, refl)

origin-parse_base_url_example : origin bugs ≡ codes "https://bugs.kohaku.test:8443"
origin-parse_base_url_example =
    origin-parse_base_url false (codes "https://bugs.kohaku.test:8443") bugs base_url_values.0

-- A `.env` with the example's base URL, no proxies, a port that is none and no sender.
abbrev env : Reader.Environment
env Reader.base_url = some (Reader.text (codes "https://bugs.example.com"))
env Reader.trusted_proxies = none
env Reader.secret = some (Reader.text (codes "c2VjcmV0"))
env Reader.smtp_host = some (Reader.text (codes "smtp.kohaku.test"))
env Reader.smtp_port = some (Reader.text (codes "0587"))
env Reader.smtp_tls = some (Reader.text (codes "starttls"))
env Reader.smtp_username = some Reader.not_text
env Reader.smtp_password = some (Reader.text (codes "pass"))
env Reader.smtp_from = some (Reader.text [])
env Reader.public_mail_per_hour = none

abbrev from_base64 : Text → Option Text
from_base64 text = some text

abbrev parse_address : Text → Option IpAddr
parse_address text = some (v4 0)

load-verdicts_example :
    Reader.load from_base64 parse_address false Reader.serve env
    ≡ err (
        Reader.problem Reader.base_url unchanged_example
        ∷ Reader.problem Reader.trusted_proxies missing
        ∷ Reader.problem Reader.smtp_from missing
        ∷ Reader.problem Reader.smtp_port smtp_port_rule
        ∷ Reader.problem Reader.smtp_username not_utf8
        ∷ [])
unfolding parse_smtp_port parse_smtp_tls parse_smtp_username parse_instance_secret parse_port
    parse_decimal is_canonical DnsName.parse DnsName.parse_labels DnsName.last_label
    DnsName.is_bad_label split
load-verdicts_example = load-verdicts from_base64 parse_address false Reader.serve env
