-- ===== src/Projects/Admin/Unchanged.antt =====
-- The settings form as it is shown is accepted, and saves what is stored (src/admin/projects.rs).
use kohaku.Base.{◌≡◌, refl, inl, inr, Bool, true, false, Option, none, some, subst, is_some}
use kohaku.Base.Result.{ok, ok_inj, err_ok, Result-cases}
use kohaku.Base.Text.{Text, text_eq, trim_matches, trim_start}
use kohaku.Characters.{trim, is_single_line, is_multi_line, normalize_line_endings, crlf_to_lf}
use kohaku.Config.BaseUrl.{BaseUrl}
use kohaku.Db.{Settings}
use kohaku.Projects.{new_settings}
use kohaku.Projects.Fields.{
  parse_name, parse_host, parse_privacy_notice, parse_security_contact, parse_slug,
}
use kohaku.Projects.Fields.Again.{
  parse_name_again, parse_security_contact_again, parse_privacy_notice_again,
}
use kohaku.Projects.Fields.Checked.{
  check_slug, check_name, check_host, check_notice, check_contact, parse_slug-check,
  parse_name-check, parse_host-check, parse_privacy_notice-check, parse_security_contact-check,
  parse_host-checked, parse_host_again,
}
use kohaku.Projects.Admin.{
  CreateForm, SettingsForm, on, or_empty, form_of, parse_form, parse_create,
}

-- Every CHECK of the table holds.
abbrev pub IsChecked : Settings → Type 0
IsChecked s =
    (check_name s.name ≡ true)
    × (check_host s.public_host ≡ true)
    × (check_notice s.privacy_notice ≡ true)
    × (check_contact s.security_contact ≡ true)

-- A custom domain is no host of the program's own.
abbrev pub IsOther : Text → Option Text → Type 0
IsOther main none = Unit
IsOther main (some host) = text_eq host main ≡ false

-- The four texts are accepted as they are stored.
record IsKept (base_url : BaseUrl) (s : Settings) : Type 0 where
  name : parse_name s.name ≡ ok s.name
  host : parse_host (or_empty s.public_host) base_url ≡ ok s.public_host
  notice : parse_privacy_notice (or_empty s.privacy_notice) ≡ ok s.privacy_notice
  contact : parse_security_contact (or_empty s.security_contact) ≡ ok s.security_contact

host_kept :
    (text : Text) (host : Option Text) (base_url : BaseUrl)
    → parse_host text base_url ≡ ok host
    → parse_host (or_empty host) base_url ≡ ok host
unfolding parse_host trim trim_matches trim_start
host_kept text none base_url e = refl
host_kept text (some host) base_url e = parse_host_again text host base_url e

notice_kept :
    (text : Text) (notice : Option Text)
    → parse_privacy_notice text ≡ ok notice
    → parse_privacy_notice (or_empty notice) ≡ ok notice
unfolding parse_privacy_notice trim trim_matches trim_start is_multi_line normalize_line_endings
    crlf_to_lf
notice_kept text none e = refl
notice_kept text (some notice) e = parse_privacy_notice_again text notice e

contact_kept :
    (text : Text) (contact : Option Text)
    → parse_security_contact text ≡ ok contact
    → parse_security_contact (or_empty contact) ≡ ok contact
unfolding parse_security_contact trim trim_matches trim_start is_single_line
contact_kept text none e = refl
contact_kept text (some contact) e = parse_security_contact_again text contact e

is_some-on : (b : Bool) → is_some (on b) ≡ b
is_some-on true = refl
is_some-on false = refl

IsKept-parse_form :
    (base_url : BaseUrl) (s : Settings) → IsKept base_url s → parse_form base_url (form_of s) ≡ ok s
unfolding parse_form form_of
IsKept-parse_form base_url s k =
    rw
      (
        k.name,
        k.host,
        k.notice,
        k.contact,
        is_some-on s.screenshots_enabled,
        is_some-on s.features_enabled,
        is_some-on s.require_email,
        is_some-on s.plus_one_enabled,
      )
      refl

parse_host-IsOther :
    (text : Text) (host : Option Text) (base_url : BaseUrl)
    → parse_host text base_url ≡ ok host
    → IsOther base_url.host host
parse_host-IsOther text none base_url e = tt
parse_host-IsOther text (some host) base_url e = (parse_host-checked text host base_url e).2

-- What a form may store: it keeps the table's CHECKs, names no host of the program's own, and is
-- accepted unchanged.
abbrev pub IsGood : BaseUrl → Settings → Type 0
IsGood base_url s =
    IsChecked s × IsOther base_url.host s.public_host × (parse_form base_url (form_of s) ≡ ok s)

-- A notice and a contact are stored by their rules.
record IsNoted (s : Settings) : Type 0 where
  notice : check_notice s.privacy_notice ≡ true
  notice_again : parse_privacy_notice (or_empty s.privacy_notice) ≡ ok s.privacy_notice
  contact : check_contact s.security_contact ≡ true
  contact_again : parse_security_contact (or_empty s.security_contact) ≡ ok s.security_contact

stored-IsGood :
    (base_url : BaseUrl) (s : Settings) (name host : Text)
    → parse_name name ≡ ok s.name
    → parse_host host base_url ≡ ok s.public_host
    → IsNoted s
    → IsGood base_url s
stored-IsGood base_url s name host n h k = (
  (
    parse_name-check name s.name n,
    parse_host-check host s.public_host base_url h,
    k.notice,
    k.contact,
  ),
  parse_host-IsOther host s.public_host base_url h,
  IsKept-parse_form base_url s (record {
    name = parse_name_again name s.name n;
    host = host_kept host s.public_host base_url h;
    notice = k.notice_again;
    contact = k.contact_again;
  }),
)

-- The settings that a form is accepted with meet the CHECK constraints of the table, name no custom
-- domain that is the main host, and are accepted again, as they are, from the form that shows them.
pub parse_form-IsGood :
    (base_url : BaseUrl) (form : SettingsForm) (s : Settings)
    → parse_form base_url form ≡ ok s
    → IsGood base_url s
unfolding parse_form
parse_form-IsGood base_url form s e = elim (Result-cases (parse_name form.name)) [
  | inl (p, n) ↦ absurd (err_ok (rw (parse_form, n) at e))
  | inr (name, n) ↦ elim (Result-cases (parse_host form.public_host base_url)) [
    | inl (p, h) ↦ absurd (err_ok (rw (parse_form, n, h) at e))
    | inr (host, h) ↦ elim (Result-cases (parse_privacy_notice form.privacy_notice)) [
      | inl (p, t) ↦ absurd (err_ok (rw (parse_form, n, h, t) at e))
      | inr (notice, t) ↦ elim (Result-cases (parse_security_contact form.security_contact)) [
        | inl (p, c) ↦ absurd (err_ok (rw (parse_form, n, h, t, c) at e))
        | inr (contact, c) ↦ subst (IsGood base_url) (ok_inj (rw (parse_form, n, h, t, c) at e)) (
            stored-IsGood base_url _ form.name form.public_host n h (record {
              notice = parse_privacy_notice-check form.privacy_notice notice t;
              notice_again = notice_kept form.privacy_notice notice t;
              contact = parse_security_contact-check form.security_contact contact c;
              contact_again = contact_kept form.security_contact contact c;
            }))
      ]
    ]
  ]
]

-- A new project has neither, by the defaults.
pub new_settings-IsGood :
    (base_url : BaseUrl) (name host : Text) (stored_name : Text) (stored_host : Option Text)
    → parse_name name ≡ ok stored_name
    → parse_host host base_url ≡ ok stored_host
    → IsGood base_url (new_settings stored_name stored_host)
unfolding parse_privacy_notice parse_security_contact trim trim_matches trim_start is_multi_line
    is_single_line normalize_line_endings crlf_to_lf
new_settings-IsGood base_url name host stored_name stored_host n h =
    stored-IsGood base_url (new_settings stored_name stored_host) name host n h
      (record { notice = refl; notice_again = refl; contact = refl; contact_again = refl })

pub parse_create-IsGood :
    (base_url : BaseUrl) (form : CreateForm) (slug : Text) (s : Settings)
    → parse_create base_url form ≡ ok (slug, s)
    → (check_slug slug ≡ true) × IsGood base_url s
unfolding parse_create
parse_create-IsGood base_url form slug s e = elim (Result-cases (parse_slug form.slug)) [
  | inl (p, g) ↦ absurd (err_ok (rw (parse_create, g) at e))
  | inr (given, g) ↦ elim (Result-cases (parse_name form.name)) [
    | inl (p, n) ↦ absurd (err_ok (rw (parse_create, g, n) at e))
    | inr (name, n) ↦ elim (Result-cases (parse_host form.public_host base_url)) [
      | inl (p, h) ↦ absurd (err_ok (rw (parse_create, g, n, h) at e))
      | inr (host, h) ↦
          subst (λ r. (check_slug r.0 ≡ true) × IsGood base_url r.1)
            (ok_inj {A = Text × Settings} (rw (parse_create, g, n, h) at e))
            (
              parse_slug-check form.slug given g,
              new_settings-IsGood base_url form.name form.public_host name host n h,
            )
    ]
  ]
]
