-- ===== src/Config/Rule.antt =====
-- The rules that a message of src/config.rs names.
pub data Rule : Type 0 where
  missing not_utf8 unchanged_example dev_build_sends_no_mail : Rule
  dns_name_rule base_url_form base_url_scheme base_url_port base_url_http_host : Rule
  trusted_proxies_rule secret_rule smtp_port_rule smtp_tls_rule no_control_characters : Rule
  sender_rule public_mail_rule : Rule
