-- ===== src/Auth/Recovery/Rows.antt =====
-- The rows of recovery codes while `replace` of src/auth/recovery.rs draws new ones.
use kohaku.Base.{
  ℕ, ◌+◌, ◌≡◌, refl, ◌∙◌, Bool, false, not, some, List, [], ◌∷◌, ◌++◌, arith, any, count, keep,
  Bool-cases, inl, inr, ◌==◌, length, length-append, if◌then◌else◌,
}
use kohaku.Base.Table.{delete}
use kohaku.Base.Text.{Text}
use kohaku.Db.{RecoveryCode}
use kohaku.Auth.Crypto.{Crypto}
use kohaku.Auth.Recovery.{draw, codes_count, is_row, insert_or_ignore}

abbrev pub is_own : ℕ → RecoveryCode → Bool
is_own user_id r = r.user_id == user_id

abbrev pub is_foreign : ℕ → RecoveryCode → Bool
is_foreign user_id r = not (r.user_id == user_id)

count-append :
    (p : RecoveryCode → Bool) (xs : List RecoveryCode) (x : RecoveryCode)
    → count p (xs ++ (x ∷ [])) ≡ count p xs + (if p x then 1 else 0)
count-append p [] x = omega arith
count-append p (y ∷ ys) x = omega (arith, count-append p ys x)

keep-append :
    (p : RecoveryCode → Bool) (xs : List RecoveryCode) (x : RecoveryCode)
    → p x ≡ false
    → keep p (xs ++ (x ∷ [])) ≡ keep p xs
keep-append p [] x h = ground (arith, h)
keep-append p (y ∷ ys) x h = ground (arith, keep-append p ys x h)

-- What holds of the shown codes and the rows, of all rows before.
abbrev pub IsDrawn : ℕ → List RecoveryCode → List RecoveryCode → List Text → Type 0
IsDrawn user_id before rows codes =
    (count (is_own user_id) rows ≡ length codes)
    × (keep (is_foreign user_id) rows ≡ keep (is_foreign user_id) before)

insert-IsDrawn :
    (user_id : ℕ) (hash code : Text) (before rows : List RecoveryCode) (codes : List Text)
    → IsDrawn user_id before rows codes
    → IsDrawn user_id before
        (insert_or_ignore user_id hash rows)
        (if any (is_row user_id hash) rows then codes else codes ++ (code ∷ []))
insert-IsDrawn user_id hash code before rows codes h =
    elim (Bool-cases (any (is_row user_id hash) rows)) [
      | inl t ↦ rw t h
      | inr f ↦ rw f (
        ground (
          arith,
          h.0,
          count-append (is_own user_id) rows (record { user_id = user_id; code_hash = hash }),
          length-append codes (code ∷ []),
        ),
        keep-append (is_foreign user_id) rows (record { user_id = user_id; code_hash = hash })
              (ground arith)
            ∙ h.1,
      )
    ]

pub draw-IsDrawn :
    (crypto : Crypto) (user_id : ℕ) (draws codes : List Text) (before rows : List RecoveryCode)
    (p : List RecoveryCode × List Text)
    → IsDrawn user_id before rows codes
    → draw crypto user_id draws codes rows ≡ some p
    → IsDrawn user_id before p.0 p.1 × (length p.1 ≡ codes_count)
unfolding draw
draw-IsDrawn crypto user_id [] codes before rows p h e =
    elim (Bool-cases (length codes == codes_count)) [
      | inl t ↦ ground (arith, t, e, h)
      | inr f ↦ ground (arith, f, e)
    ]
draw-IsDrawn crypto user_id (c ∷ draws) codes before rows p h e =
    elim (Bool-cases (length codes == codes_count)) [
      | inl t ↦ ground (arith, t, e, h)
      | inr f ↦
          draw-IsDrawn crypto user_id draws
            (if any (is_row user_id (crypto.sha256 c)) rows then codes else codes ++ (c ∷ []))
            before (insert_or_ignore user_id (crypto.sha256 c) rows) p
            (insert-IsDrawn user_id (crypto.sha256 c) c before rows codes h) (ground (arith, f, e))
    ]

pub deleted-IsDrawn :
    (user_id : ℕ) (rows : List RecoveryCode)
    → IsDrawn user_id rows (delete (is_own user_id) rows) []
deleted-IsDrawn user_id [] = (refl, refl)
deleted-IsDrawn user_id (r ∷ rs) =
    let rest = deleted-IsDrawn user_id rs in (ground (arith, rest.0), ground (arith, rest.1))
