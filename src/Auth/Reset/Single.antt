-- ===== src/Auth/Reset/Single.antt =====
-- An account has one open reset token (src/auth/reset.rs), and each token works once
-- (src/admin/reset.rs).
use kohaku.Base.{
  ℕ, ◌≡◌, refl, ◌∙◌, Bool, true, false, not, List, [], ◌∷◌, ◌++◌, arith, All, keep, count, ◌==◌,
  is_some_and,
}
use kohaku.Base.Text.{Text}
use kohaku.Db.{Db, Token}
use kohaku.Mail.Kind.{is_open_reset}
use kohaku.Auth.Reset.{use_open, issue_reset_token}

-- A token of another account, or of none.
abbrev pub is_other : ℕ → Token → Bool
is_other user_id t = not (is_some_and t.user_id (λ u. u == user_id))

pub use_open-closed :
    (user_id now : ℕ) (ts : List Token)
    → All (λ t. is_open_reset user_id t ≡ false) (use_open user_id now ts)
unfolding use_open
use_open-closed user_id now [] = tt
use_open-closed user_id now (t ∷ ts) = (ground arith, use_open-closed user_id now ts)

use_open-other :
    (user_id now : ℕ) (ts : List Token)
    → keep (is_other user_id) (use_open user_id now ts) ≡ keep (is_other user_id) ts
unfolding use_open
use_open-other user_id now [] = refl
use_open-other user_id now (t ∷ ts) = ground (arith, use_open-other user_id now ts)

count_one_more :
    (p : Token → Bool) (ts : List Token) (t : Token)
    → All (λ x. p x ≡ false) ts
    → p t ≡ true
    → count p (ts ++ (t ∷ [])) ≡ 1
count_one_more p [] t a h = ground (arith, h)
count_one_more p (x ∷ xs) t a h = ground (arith, a.0, count_one_more p xs t a.1 h)

keep_none_more :
    (p : Token → Bool) (ts : List Token) (t : Token)
    → p t ≡ false
    → keep p (ts ++ (t ∷ [])) ≡ keep p ts
keep_none_more p [] t h = ground (arith, h)
keep_none_more p (x ∷ xs) t h = ground (arith, keep_none_more p xs t h)

-- After a token is issued, the account has exactly one open reset token, whatever it had before, and
-- the tokens of all others are as they were.
pub issue_reset_token-single :
    (db : Db) (user_id : ℕ) (token_hash : Text) (now : ℕ)
    → (count (is_open_reset user_id) (issue_reset_token db user_id token_hash now).tokens ≡ 1)
      × (keep (is_other user_id) (issue_reset_token db user_id token_hash now).tokens
          ≡ keep (is_other user_id) db.tokens)
unfolding issue_reset_token
issue_reset_token-single db user_id token_hash now = (
  count_one_more (is_open_reset user_id) (use_open user_id now db.tokens) _
      (use_open-closed user_id now db.tokens) (ground arith),
  keep_none_more (is_other user_id) (use_open user_id now db.tokens) _ (ground arith)
      ∙ use_open-other user_id now db.tokens,
)
