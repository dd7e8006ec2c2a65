-- ===== src/Auth/Recovery/Replaced.antt =====
-- `replace` of src/auth/recovery.rs leaves ten codes to the account, and those of others alone.
use kohaku.Base.{
  map, suc, ◌||◌, true, subst, ℕ, ◌+◌, ◌≡◌, refl, ◌∙◌, Bool, false, some, List, [], ◌∷◌, ◌++◌,
  arith, ◌≤◌, All, All-append, some_inj, any, count, keep, Bool-cases, inl, inr, ◌==◌, length,
  length-append, if◌then◌else◌,
}
use kohaku.Base.Table.{delete}
use kohaku.Base.Text.{Text, text_eq}
use kohaku.Base.Text.Equal.{text_eq_sound, text_eq_same}
use kohaku.Db.{Db, RecoveryCode}
use kohaku.Auth.Crypto.{Crypto}
use kohaku.Auth.Recovery.{replace, draw, codes_count, is_row, insert_or_ignore}
use kohaku.Auth.Recovery.Rows.{is_own, is_foreign, draw-IsDrawn, deleted-IsDrawn}

abbrev pub hashes : Crypto → List Text → List Text
hashes crypto = map crypto.sha256

-- How many different texts a list has, besides those that were seen.
abbrev pub different : List Text → List Text → ℕ
different seen [] = 0
different seen (h ∷ hs) =
    let again = different seen hs in
    let more = different (h ∷ seen) hs in if any (λ s. text_eq s h) seen then again else suc more

-- The account has a row with the code's hash.
abbrev pub has_row : Crypto → ℕ → List RecoveryCode → Text → Bool
has_row crypto user_id rows code = any (is_row user_id (crypto.sha256 code)) rows

-- The codes have different hashes.
abbrev pub AreDifferent : Crypto → List Text → Type 0
AreDifferent crypto [] = Unit
AreDifferent crypto (c ∷ codes) =
    All (λ d. text_eq (crypto.sha256 c) (crypto.sha256 d) ≡ false) codes × AreDifferent crypto codes

any-append :
    (p : RecoveryCode → Bool) (xs : List RecoveryCode) (x : RecoveryCode)
    → any p (xs ++ (x ∷ [])) ≡ (p x || any p xs)
any-append p [] x = refl
any-append p (y ∷ ys) x = ground (arith, any-append p ys x)

-- The rows of the account that were added have the hashes that were seen.
abbrev Seen : ℕ → List RecoveryCode → List Text → Type 0
Seen user_id rows seen = (h : Text) → any (is_row user_id h) rows ≡ any (λ s. text_eq s h) seen

Seen-append :
    (user_id : ℕ) (hash : Text) (rows : List RecoveryCode) (seen : List Text)
    → Seen user_id rows seen
    → Seen user_id (rows ++ (record { user_id = user_id; code_hash = hash } ∷ [])) (hash ∷ seen)
Seen-append user_id hash rows seen s h = ground (
  arith,
  s h,
  any-append (is_row user_id h) rows (record { user_id = user_id; code_hash = hash }),
)

draw-some :
    (crypto : Crypto) (user_id : ℕ) (draws codes : List Text) (rows : List RecoveryCode)
    (seen : List Text)
    → Seen user_id rows seen
    → length codes ≤ codes_count
    → codes_count ≤ length codes + different seen (hashes crypto draws)
    → (p : List RecoveryCode × List Text) × (draw crypto user_id draws codes rows ≡ some p)
unfolding draw
draw-some crypto user_id [] codes rows seen s l k = ((rows, codes), ground (arith, l, k))
draw-some crypto user_id (c ∷ draws) codes rows seen s l k =
    elim (Bool-cases (length codes == codes_count)) [
      | inl t ↦ ((rows, codes), ground (arith, t))
      | inr n ↦ elim (Bool-cases (any (λ s. text_eq s (crypto.sha256 c)) seen)) [
        | inl again ↦
            let there : any (is_row user_id (crypto.sha256 c)) rows ≡ true =
              s (crypto.sha256 c) ∙ again in
            let rest = draw-some crypto user_id draws codes rows seen s l (rw again at k) in
            (rest.0, rw (n, there) rest.1)
        | inr fresh ↦
            let free : any (is_row user_id (crypto.sha256 c)) rows ≡ false =
              s (crypto.sha256 c) ∙ fresh in
            let more : codes_count
                ≤ length codes + suc (different (crypto.sha256 c ∷ seen) (hashes crypto draws)) =
              rw fresh at k in
            let rest =
              draw-some crypto user_id draws (codes ++ (c ∷ []))
                (rows ++ (record { user_id = user_id; code_hash = crypto.sha256 c } ∷ []))
                (crypto.sha256 c ∷ seen) (Seen-append user_id (crypto.sha256 c) rows seen s)
                (ground (arith, n, l, length-append codes (c ∷ [])))
                (omega (arith, more, length-append codes (c ∷ []))) in
            (rest.0, rw (n, free) rest.1)
      ]
    ]

none_left :
    (user_id : ℕ) (rows : List RecoveryCode) → Seen user_id (delete (is_own user_id) rows) []
none_left user_id [] h = refl
none_left user_id (r ∷ rows) h = ground (arith, none_left user_id rows h)

-- What holds of the shown codes: each has its row, and no two have one hash.
abbrev IsShown : Crypto → ℕ → List RecoveryCode → List Text → Type 0
IsShown crypto user_id rows codes =
    All (λ c. has_row crypto user_id rows c ≡ true) codes × AreDifferent crypto codes

All-kept_rows :
    (crypto : Crypto) (user_id : ℕ) (rows : List RecoveryCode) (x : RecoveryCode)
    (codes : List Text)
    → All (λ c. has_row crypto user_id rows c ≡ true) codes
    → All (λ c. has_row crypto user_id (rows ++ (x ∷ [])) c ≡ true) codes
All-kept_rows crypto user_id rows x [] a = tt
All-kept_rows crypto user_id rows x (c ∷ codes) a = (
  ground (arith, a.0, any-append (is_row user_id (crypto.sha256 c)) rows x),
  All-kept_rows crypto user_id rows x codes a.1,
)

other_hash :
    (crypto : Crypto) (user_id : ℕ) (rows : List RecoveryCode) (d c : Text)
    → has_row crypto user_id rows d ≡ true
    → has_row crypto user_id rows c ≡ false
    → text_eq (crypto.sha256 d) (crypto.sha256 c) ≡ false
other_hash crypto user_id rows d c h f =
    elim (Bool-cases (text_eq (crypto.sha256 d) (crypto.sha256 c))) [
      | inr n ↦ n
      | inl t ↦
          let same = text_eq_sound (crypto.sha256 d) (crypto.sha256 c) t in
          let found : has_row crypto user_id rows c ≡ true =
            subst (λ x. any (is_row user_id x) rows ≡ true) same h in
          absurd (ground (arith, found, f))
    ]

AreDifferent-append :
    (crypto : Crypto) (user_id : ℕ) (rows : List RecoveryCode) (c : Text) (codes : List Text)
    → IsShown crypto user_id rows codes
    → has_row crypto user_id rows c ≡ false
    → AreDifferent crypto (codes ++ (c ∷ []))
AreDifferent-append crypto user_id rows c [] s f = (tt, tt)
AreDifferent-append crypto user_id rows c (d ∷ codes) s f = (
  All-append (λ x. text_eq (crypto.sha256 d) (crypto.sha256 x) ≡ false) codes (c ∷ []) s.1.0
      (other_hash crypto user_id rows d c s.0.0 f, tt),
  AreDifferent-append crypto user_id rows c codes (s.0.1, s.1.1) f,
)

insert-IsShown :
    (crypto : Crypto) (user_id : ℕ) (c : Text) (rows : List RecoveryCode) (codes : List Text)
    → IsShown crypto user_id rows codes
    → IsShown crypto user_id
        (insert_or_ignore user_id (crypto.sha256 c) rows)
        (if any (is_row user_id (crypto.sha256 c)) rows then codes else codes ++ (c ∷ []))
insert-IsShown crypto user_id c rows codes s =
    let new : RecoveryCode = record { user_id = user_id; code_hash = crypto.sha256 c } in
    elim (Bool-cases (any (is_row user_id (crypto.sha256 c)) rows)) [
      | inl t ↦ rw t s
      | inr f ↦ rw f (
        All-append (λ d. has_row crypto user_id (rows ++ (new ∷ [])) d ≡ true) codes (c ∷ [])
            (All-kept_rows crypto user_id rows new codes s.0)
            (
              ground (
                arith,
                any-append (is_row user_id (crypto.sha256 c)) rows new,
                text_eq_same (crypto.sha256 c),
              ),
              tt,
            ),
        AreDifferent-append crypto user_id rows c codes s f,
      )
    ]

draw-IsShown :
    (crypto : Crypto) (user_id : ℕ) (draws codes : List Text) (rows : List RecoveryCode)
    (p : List RecoveryCode × List Text)
    → IsShown crypto user_id rows codes
    → draw crypto user_id draws codes rows ≡ some p
    → IsShown crypto user_id p.0 p.1
unfolding draw
draw-IsShown crypto user_id [] codes rows p h e = elim (Bool-cases (length codes == codes_count)) [
  | inl t ↦ subst (λ q. IsShown crypto user_id q.0 q.1) (some_inj (rw t at e)) h
  | inr f ↦ absurd (ground (arith, f, e))
]
draw-IsShown crypto user_id (c ∷ draws) codes rows p h e =
    elim (Bool-cases (length codes == codes_count)) [
      | inl t ↦ subst (λ q. IsShown crypto user_id q.0 q.1) (some_inj (rw t at e)) h
      | inr f ↦
          draw-IsShown crypto user_id draws
            (if any (is_row user_id (crypto.sha256 c)) rows then codes else codes ++ (c ∷ []))
            (insert_or_ignore user_id (crypto.sha256 c) rows) p
            (insert-IsShown crypto user_id c rows codes h) (rw f at e)
    ]

-- Once the random source has given codes with ten different hashes, however often it has repeated
-- one, ten codes are shown, no two with one hash; each has its row, the account has exactly ten rows,
-- and the codes of all other accounts are as they were.
pub replace_lem :
    (crypto : Crypto) (db : Db) (user_id : ℕ) (draws : List Text)
    → 10 ≤ different [] (hashes crypto draws)
    → (rows : List RecoveryCode) × (codes : List Text) × (replace crypto db user_id draws
        ≡ some (record db { recovery_codes = rows }, codes))
      × (length codes ≡ 10)
      × AreDifferent crypto codes
      × All (λ c. has_row crypto user_id rows c ≡ true) codes
      × (count (is_own user_id) rows ≡ 10)
      × (keep (is_foreign user_id) rows ≡ keep (is_foreign user_id) db.recovery_codes)
unfolding replace
replace_lem crypto db user_id draws l =
    let start = delete (is_own user_id) db.recovery_codes in
    let run =
      draw-some crypto user_id draws [] start [] (none_left user_id db.recovery_codes) (omega arith)
        (omega (arith, l)) in
    let drawn =
      draw-IsDrawn crypto user_id draws [] db.recovery_codes start run.0
        (deleted-IsDrawn user_id db.recovery_codes) run.1 in
    let shown = draw-IsShown crypto user_id draws [] start run.0 (tt, tt) run.1 in
    (
      run.0.0,
      run.0.1,
      rw (replace, run.1) refl,
      drawn.1,
      shown.1,
      shown.0,
      omega (arith, drawn.0.0, drawn.1),
      drawn.0.1,
    )
