-- ===== src/Keys.antt =====
-- src/keys.rs: the input of every MAC. HMAC-SHA256 itself is a parameter where a MAC is used.
pub mod Framing
pub mod Tests
use kohaku.Base.{ℕ, ◌/◌, ◌%◌, ◌^◌, List, [], ◌∷◌, ◌++◌, length}
use kohaku.Base.Text.{Text, codes}

pub data Purpose : Type 0 where
  keycheck totp mail_address : Purpose

unfoldable pub label : Purpose → Text
label keycheck = codes "kohaku/keycheck"
label totp = codes "kohaku/totp"
label mail_address = codes "kohaku/mail-address"

-- `u32::to_be_bytes`.
abbrev pub u32_bytes : ℕ → Text
u32_bytes n = (n / 2 ^ 24 % 256) ∷ (n / 2 ^ 16 % 256) ∷ (n / 2 ^ 8 % 256) ∷ (n % 256) ∷ []

-- Each part after its length; a part of 4 GiB or more, which the source refuses by a panic, is out
-- of the model.
unfoldable pub framed : List Text → Text
framed [] = []
framed (part ∷ parts) = u32_bytes (length part) ++ (part ++ framed parts)

-- What `mac` gives to the hash: the label, then the fields.
unfoldable pub mac_input : Purpose → List Text → Text
mac_input purpose fields = framed (label purpose ∷ fields)
