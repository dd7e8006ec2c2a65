-- ===== src/Auth/Crypto.antt =====
-- The cryptography that src/auth takes from other crates, and bytes of numbers.
use kohaku.Base.{ℕ, ◌-◌, ◌/◌, ◌%◌, ◌^◌, Bool, [], ◌∷◌, count, not, ◌&&◌, leb, ltb}
use kohaku.Base.Int.{ℤ, pos, negsuc}
use kohaku.Base.Text.{Text}

-- HMAC-SHA1 of a key and a message; HMAC-SHA256 under the instance secret; SHA-256; argon2id's test of
-- a password against a hash.
pub record Crypto : Type 0 where
  pub hmac_sha1 : Text → Text → Text
  pub hmac_sha256 : Text → Text
  pub sha256 : Text → Text
  pub verify_password : Text → Text → Bool

-- `i64::to_be_bytes`, as the 64-bit two's complement.
abbrev twos_complement : ℤ → ℕ
twos_complement (pos n) = n % 2 ^ 64
twos_complement (negsuc n) = 2 ^ 64 - 1 - n % 2 ^ 64

abbrev bytes : ℕ → Text
bytes v =
    (v / 2 ^ 56 % 256)
    ∷ (v / 2 ^ 48 % 256)
    ∷ (v / 2 ^ 40 % 256)
    ∷ (v / 2 ^ 32 % 256)
    ∷ (v / 2 ^ 24 % 256)
    ∷ (v / 2 ^ 16 % 256)
    ∷ (v / 2 ^ 8 % 256)
    ∷ (v % 256)
    ∷ []

unfoldable pub to_be_bytes : ℤ → Text
to_be_bytes n = bytes (twos_complement n)

-- `chars().count()` of UTF-8: the bytes that continue no character.
unfoldable pub char_count : Text → ℕ
char_count s = count (λ b. not (leb 128 b && ltb b 192)) s
