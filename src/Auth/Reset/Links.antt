-- ===== src/Auth/Reset/Links.antt =====
-- Which reset links of src/admin/reset.rs name an account, told apart from the lookup that finds it.
use kohaku.Base.{
  ℕ, ◌<◌, ◌≡◌, ◌≢◌, refl, sym, ap, ◌∙◌, subst, ◌⊎◌, Bool, true, false, not, ◌&&◌, Option, none,
  some, List, [], ◌∷◌, arith, All, any, Bool-cases, inl, inr, ◌==◌, is_some_and, some_inj,
}
use kohaku.Base.Table.{find}
use kohaku.Base.Text.{Text}
use kohaku.Base.Text.Equal.{text_eq_sound, text_eq_same}
use kohaku.Db.{Db, User, Token, reset}
use kohaku.Auth.Reset.{is_valid_token, has_enabled}

module _ {R : Type 0} where
  abbrev pub In : R → List R → Type 0
  In r [] = ⊥
  In r (x ∷ xs) = (r ≡ x) ⊎ In r xs

  pub find-In : (p : R → Bool) (rs : List R) (r : R) → find p rs ≡ some r → In r rs
  unfolding find
  find-In p [] r e = absurd (ground (arith, e))
  find-In p (x ∷ rs) r e = elim (Bool-cases (p x)) [
    | inl t ↦ inl (sym (some_inj (rw t at e)))
    | inr f ↦ inr (find-In p rs r (rw f at e))
  ]

  pub none-In : (p : R → Bool) (rs : List R) (r : R) → find p rs ≡ none → In r rs → p r ≡ false
  unfolding find
  none-In p [] r e i = absurd i
  none-In p (x ∷ rs) r e i = elim (Bool-cases (p x)) [
    | inl t ↦ absurd (ground (arith, rw t at e))
    | inr f ↦ elim i [ inl same ↦ ap p same ∙ f | inr j ↦ none-In p rs r (rw f at e) j ]
  ]

-- Ids are a primary key.
abbrev pub DistinctUsers : List User → Type 0
DistinctUsers [] = Unit
DistinctUsers (u ∷ us) = All (λ x. x.id ≢ u.id) us × DistinctUsers us

-- A reset link's token: unused, unexpired, and of an enabled account.
abbrev pub IsLink : Db → Text → ℕ → Token → User → Type 0
IsLink db token_hash now t u =
    In t db.tokens
    × In u db.users
    × (t.token_hash ≡ token_hash)
    × (t.purpose ≡ reset)
    × (t.used_at ≡ none)
    × (now < t.expires_at)
    × (t.user_id ≡ some u.id)
    × (u.disabled ≡ false)

pub any_enabled :
    (us : List User) (u : User)
    → In u us
    → u.disabled ≡ false
    → any (λ (x : User). x.id == u.id && not x.disabled) us ≡ true
any_enabled [] u i d = absurd i
any_enabled (x ∷ us) u (inl e) d =
    let same : x.id ≡ u.id = ap (λ (v : User). v.id) (sym e) in
    let on : x.disabled ≡ false = ap (λ (v : User). v.disabled) (sym e) ∙ d in
    ground (arith, same, on)
any_enabled (x ∷ us) u (inr i) d = ground (arith, any_enabled us u i d)

none_enabled :
    (us : List User) (id : ℕ)
    → All (λ x. x.id ≢ id) us
    → any (λ (x : User). x.id == id && not x.disabled) us ≡ false
none_enabled [] id a = refl
none_enabled (x ∷ us) id a = ground (arith, a.0, none_enabled us id a.1)

-- The account that a lookup by id finds is the one that is enabled.
found_enabled :
    (us : List User) (id : ℕ) (u : User)
    → DistinctUsers us
    → any (λ (x : User). x.id == id && not x.disabled) us ≡ true
    → find (λ (x : User). x.id == id) us ≡ some u
    → (u.id ≡ id) × (u.disabled ≡ false)
unfolding find
found_enabled [] id u d a e = absurd (ground (arith, e))
found_enabled (x ∷ us) id u d a e = elim (Bool-cases (x.id == id)) [
  | inr f ↦ found_enabled us id u d.1 (rw f at a) (rw f at e)
  | inl t ↦
      let same : x ≡ u = some_inj (rw t at e) in
      let ids : x.id ≡ id = ground (arith, t) in
      let others = none_enabled us id (subst (λ i. All (λ y. y.id ≢ i) us) ids d.0) in
      subst (λ (v : User). (v.id ≡ id) × (v.disabled ≡ false)) same
        (ids, ground (arith, a, t, others))
]

pub find_user :
    (us : List User) (id : ℕ)
    → any (λ (x : User). x.id == id && not x.disabled) us ≡ true
    → find (λ (x : User). x.id == id) us ≢ none
unfolding find
find_user [] id a e = ground (arith, a)
find_user (x ∷ us) id a e = elim (Bool-cases (x.id == id)) [
  | inl t ↦ ground (arith, rw t at e)
  | inr f ↦ find_user us id (rw f at a) (rw f at e)
]

-- A token that the lookup takes, with the account that it finds.
pub valid-IsLink :
    (db : Db) (token_hash : Text) (now id : ℕ) (t : Token) (u : User)
    → DistinctUsers db.users
    → In t db.tokens
    → (is_valid_token token_hash now t && has_enabled db t) ≡ true
    → t.user_id ≡ some id
    → find (λ (x : User). x.id == id) db.users ≡ some u
    → IsLink db token_hash now t u
unfolding has_enabled
valid-IsLink db token_hash now id t u d i v o e =
    let enabled : any (λ (x : User). x.id == id && not x.disabled) db.users ≡ true =
      subst
        (λ (o : Option ℕ).
          is_some_and o (λ j. any (λ (x : User). x.id == j && not x.disabled) db.users) ≡ true)
        o (ground (arith, v)) in
    let found = found_enabled db.users id u d enabled e in
    (
      i,
      find-In _ db.users u e,
      text_eq_sound t.token_hash token_hash (ground (arith, v)),
      ground (arith, v),
      ground (arith, v),
      ground (arith, v),
      o ∙ ap some (sym found.0),
      found.1,
    )

pub IsLink-valid :
    (db : Db) (token_hash : Text) (now : ℕ) (t : Token) (u : User)
    → IsLink db token_hash now t u
    → (is_valid_token token_hash now t && has_enabled db t) ≡ true
unfolding has_enabled
IsLink-valid db token_hash now t u (i, j, same, purpose, unused, soon, owner, on) =
    rw (same, purpose, unused, owner, text_eq_same token_hash, any_enabled db.users u j on)
      (ground (arith, soon))
