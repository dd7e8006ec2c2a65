-- ===== src/Config/DnsName.antt =====
-- `DnsName` of src/config.rs.
pub mod Bytes
use kohaku.Base.{
  ℕ, ◌≡◌, arith, Bool, true, false, not, ◌&&◌, ◌||◌, Option, none, some, List, [], ◌∷◌, reverse,
  all, length, ltb, ◌==◌, if◌then◌else◌,
}
use kohaku.Base.Result.{Result, ok, err}
use kohaku.Base.Text.{Text, is_empty, is_ascii_digit, is_ascii_lowercase, split, starts_with_byte}
use kohaku.Config.Rule.{Rule, dns_name_rule}

abbrev pub is_label_byte : ℕ → Bool
is_label_byte b = is_ascii_lowercase b || (is_ascii_digit b || (b == b'-'))

unfoldable pub is_bad_label : Text → Bool
is_bad_label label =
    is_empty label
    || (ltb 63 (length label)
        || (not (all is_label_byte label)
            || (starts_with_byte b'-' label || starts_with_byte b'-' (reverse label))))

-- The loop over the labels: `none` if it returns early, and otherwise the last label.
unfoldable pub last_label : Text → List Text → Option Text
last_label last [] = some last
last_label last (label ∷ labels) =
    let rest = last_label label labels in if is_bad_label label then none else rest

unfoldable pub parse_labels : Text → Option Text → Result Rule Text
parse_labels text none = err dns_name_rule
parse_labels text (some last) = if all is_ascii_digit last then err dns_name_rule else ok text

-- A name is the text that it was parsed from.
unfoldable pub parse : Text → Result Rule Text
parse text =
    if is_empty text || ltb 253 (length text)
    then err dns_name_rule
    else parse_labels text (last_label [] (split b'.' text))

pub parse-eq-ok : (text name : Text) → parse text ≡ ok name → name ≡ text
unfolding parse parse_labels
parse-eq-ok text name e = ground (arith, e)
