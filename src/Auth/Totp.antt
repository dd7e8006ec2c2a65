-- ===== src/Auth/Totp.antt =====
-- src/auth/totp.rs: seeds, codes and the window of steps.
use kohaku.Base.{
  ℕ, zero, suc, ◌+◌, ◌*◌, ◌/◌, ◌%◌, ◌^◌, Bool, ◌&&◌, Option, none, some, List, [], ◌∷◌, ◌==◌,
  if◌then◌else◌, length, get_or, all,
}
use kohaku.Base.Int.{ℤ, pos, before}
use kohaku.Base.Text.{Text, text_eq, is_ascii_digit}
use kohaku.Keys.{mac_input, totp}
use kohaku.Auth.Crypto.{Crypto, to_be_bytes}

abbrev pub step_seconds : ℕ
step_seconds = 30

abbrev pub digits : ℕ
digits = 6

abbrev seed_bytes : ℕ
seed_bytes = 20

abbrev first_bytes : ℕ → Text → Text
first_bytes zero s = []
first_bytes (suc n) [] = []
first_bytes (suc n) (x ∷ xs) = x ∷ first_bytes n xs

-- `Seed::derive`.
unfoldable pub derive : Crypto → ℕ → Text → Text
derive crypto user_id nonce =
    first_bytes seed_bytes
      (crypto.hmac_sha256 (mac_input totp (to_be_bytes (pos user_id) ∷ nonce ∷ [])))

unfoldable pub step_at : ℕ → ℕ
step_at now = now / step_seconds

-- `{:06}` of a number below a million.
abbrev six_digits : ℕ → Text
six_digits n =
    (b'0' + n / 100000 % 10)
    ∷ (b'0' + n / 10000 % 10)
    ∷ (b'0' + n / 1000 % 10)
    ∷ (b'0' + n / 100 % 10)
    ∷ (b'0' + n / 10 % 10)
    ∷ (b'0' + n % 10)
    ∷ []

-- The dynamic truncation of the digest's 20 bytes, to 31 bits.
unfoldable pub truncate : Text → ℕ
truncate digest =
    let offset = get_or digest 19 0 % 16 in
    (get_or digest offset 0 % 128) * 2 ^ 24
    + get_or digest (offset + 1) 0 * 2 ^ 16
    + get_or digest (offset + 2) 0 * 2 ^ 8
    + get_or digest (offset + 3) 0

unfoldable pub code : Crypto → Text → ℤ → Text
code crypto seed step = six_digits (truncate (crypto.hmac_sha1 seed (to_be_bytes step)) % 1000000)

unfoldable pub is_code : Text → Bool
is_code text = length text == digits && all is_ascii_digit text

-- The last of the steps that matches.
unfoldable pub last_match : (ℤ → Bool) → List ℤ → Option ℤ → Option ℤ
last_match p [] found = found
last_match p (step ∷ steps) found = last_match p steps (if p step then some step else found)

unfoldable pub matching_step : Crypto → Text → Text → ℕ → Option ℤ
matching_step crypto seed text now =
    let current = step_at now in
    if is_code text
    then last_match (λ step. text_eq (code crypto seed step) text)
        (before current ∷ pos current ∷ pos (current + 1) ∷ []) none
    else none
