-- ===== src/Mail/Wording/Tests.antt =====
-- Subjects and quotes of src/mail/mod.rs on short texts.
use kohaku.Base.{ℕ, ◌≤◌, ◌≡◌, List, ◌∷◌, All, count, length, ◌==◌}
use kohaku.Base.Text.{codes}
use kohaku.Mail.Wording.{quote_for_subject, quote_for_body}
use kohaku.Mail.Wording.Safe.{IsInert, quote-safe}

-- A header that someone hopes to add.
abbrev attack : List ℕ
attack = b'a' ∷ 13 ∷ 10 ∷ codes "Bcc: \"x\""

quote-safe_example :
    (All IsInert (quote_for_subject attack)
      × (length (quote_for_subject attack) ≤ 202)
      × (count (λ c. c == b'"') (quote_for_subject attack) ≡ 2))
    × (All IsInert (quote_for_body attack) × (length (quote_for_body attack) ≤ 202))
quote-safe_example = quote-safe attack
