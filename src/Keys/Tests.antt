-- ===== src/Keys/Tests.antt =====
-- MAC inputs of src/keys.rs on concrete fields.
use kohaku.Base.{◌≡◌, refl, List, [], ◌∷◌, arith}
use kohaku.Base.Text.{Text, codes}
use kohaku.Keys.{totp}
use kohaku.Keys.Framing.{mac_input-injective}

abbrev fields : List Text
fields = codes "ab" ∷ codes "c" ∷ []

mac_input-injective_example : (totp ≡ totp) × (fields ≡ fields)
mac_input-injective_example =
    mac_input-injective totp totp fields fields (omega arith, (omega arith, tt))
      (omega arith, (omega arith, tt)) refl
