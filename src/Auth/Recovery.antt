-- ===== src/Auth/Recovery.antt =====
-- src/auth/recovery.rs: the codes that stand in for a second factor, each once.
use kohaku.Base.{
  ℕ, zero, suc, Bool, true, false, not, ◌&&◌, ◌||◌, Option, none, some, List, [], ◌∷◌, ◌++◌, map,
  leb, ◌==◌, if◌then◌else◌, length, all, any, keep, count,
}
pub mod Rows
pub mod Replaced
use mathlib.Core.Option
use kohaku.Base.Table.{delete}
use kohaku.Base.Text.{Text, text_eq, to_upper, is_ascii_uppercase}
use kohaku.Db.{Db, RecoveryCode}
use kohaku.Auth.Crypto.{Crypto}

abbrev pub codes_count : ℕ
codes_count = 10

abbrev pub code_length : ℕ
code_length = 16

abbrev pub is_base32 : ℕ → Bool
is_base32 c = is_ascii_uppercase c || (leb b'2' c && leb c b'7')

unfoldable pub normalize : Text → Option Text
normalize input =
    let code = map to_upper (keep (λ c. not (c == b'-') && not (c == b' ')) input) in
    if length code == code_length && all is_base32 code then some code else none

-- `consume_one` of src/db/mod.rs on the number of changed rows; `none` is its error.
unfoldable pub consumed : ℕ → Option Bool
consumed zero = some false
consumed (suc zero) = some true
consumed (suc (suc n)) = none

abbrev pub is_row : ℕ → Text → RecoveryCode → Bool
is_row user_id hash r = r.user_id == user_id && text_eq r.code_hash hash

unfoldable pub consume : Crypto → Db → ℕ → Text → Option (Db × Bool)
consume crypto db user_id code =
    let hash = crypto.sha256 code in
    Option.map
      (λ b. (record db { recovery_codes = delete (is_row user_id hash) db.recovery_codes }, b))
      (consumed (count (is_row user_id hash) db.recovery_codes))

-- `INSERT OR IGNORE` of one drawn code.
abbrev pub insert_or_ignore : ℕ → Text → List RecoveryCode → List RecoveryCode
insert_or_ignore user_id hash rows =
    if any (is_row user_id hash) rows
    then rows
    else rows ++ (record { user_id = user_id; code_hash = hash } ∷ [])

pub draw :
    Crypto → ℕ → List Text → List Text → List RecoveryCode → Option (List RecoveryCode × List Text)
draw crypto user_id [] codes rows = if length codes == codes_count then some (rows, codes) else none
draw crypto user_id (code ∷ draws) codes rows =
    let hash = crypto.sha256 code in
    let next =
      draw crypto user_id draws
        (if any (is_row user_id hash) rows then codes else codes ++ (code ∷ []))
        (insert_or_ignore user_id hash rows) in
    if length codes == codes_count then some (rows, codes) else next

-- `replace`, on the codes that the random source gives one after another; `none` when they are used
-- up before ten different ones came.
unfoldable pub replace : Crypto → Db → ℕ → List Text → Option (Db × List Text)
unfolding draw
replace crypto db user_id draws =
    Option.map (λ p. (record db { recovery_codes = p.0 }, p.1))
      (draw crypto user_id draws [] (delete (λ r. r.user_id == user_id) db.recovery_codes))
