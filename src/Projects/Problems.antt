-- ===== src/Projects/Problems.antt =====
-- `Field` and `Problem` of src/projects/mod.rs; a message is a constructor.
pub data Field : Type 0 where
  slug name public_host privacy_notice security_contact : Field

pub data Problem : Type 0 where
  slug_rule slug_taken name_length name_characters host_rule host_main host_taken : Problem
  notice_length notice_characters contact_length contact_characters : Problem

-- The field that a problem names.
abbrev pub field_of : Problem → Field
field_of slug_rule = slug
field_of slug_taken = slug
field_of name_length = name
field_of name_characters = name
field_of host_rule = public_host
field_of host_main = public_host
field_of host_taken = public_host
field_of notice_length = privacy_notice
field_of notice_characters = privacy_notice
field_of contact_length = security_contact
field_of contact_characters = security_contact
