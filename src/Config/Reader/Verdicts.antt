-- ===== src/Config/Reader/Verdicts.antt =====
-- What loading reports (src/config.rs).
use kohaku.Base.{
  ℕ, ◌≡◌, refl, sym, ap, inl, inr, true, false, Option, none, some, List, [], ◌∷◌, ◌++◌, arith,
  Bool-cases, if◌then◌else◌, is_some,
}
use kohaku.Base.Result.{Result, ok, err, Result-cases}
use kohaku.Base.Text.{Text, is_empty}
use mathlib.Core.List.{append-nil}
use kohaku.Config.Rule.{Rule, missing, not_utf8, unchanged_example}
use kohaku.Config.Values.{parse_public_mail_per_hour}
use kohaku.Config.Reader

-- The verdict on one variable, by itself.
abbrev pub verdict {ℓ} : {A : Type ℓ} → (Text → Result Rule A) → Option Reader.Value → Result Rule A
verdict parse none = err missing
verdict parse (some Reader.not_text) = err not_utf8
verdict parse (some (Reader.text value)) = if is_empty value then err missing else parse value

-- One with a placeholder in `.env.example`.
abbrev pub verdict_unless {ℓ} :
    {A : Type ℓ} → (Text → Result Rule A) → Text → Option Reader.Value → Result Rule A
verdict_unless parse placeholder value =
    if Reader.is_placeholder value placeholder then err unchanged_example else verdict parse value

-- The verdict on the hourly limit, which has a default.
abbrev pub verdict_mail : Option Reader.Value → Result Rule ℕ
verdict_mail none = ok 60
verdict_mail (some Reader.not_text) = err not_utf8
verdict_mail (some (Reader.text value)) = parse_public_mail_per_hour value

-- A setting with the problems that stand in its way.
abbrev pub Checked {ℓ} : Type ℓ → Type ℓ
Checked A = Result (List Reader.Problem) A

abbrev pub named {ℓ} : {A : Type ℓ} → Reader.Variable → Result Rule A → Checked A
named name (ok a) = ok a
named name (err rule) = err (Reader.problem name rule ∷ [])

module _ {ℓ} {A : Type ℓ} where
  abbrev pub value : Checked A → Option A
  value (ok a) = some a
  value (err p) = none

  abbrev pub errors : Checked A → List Reader.Problem
  errors (ok a) = []
  errors (err p) = p

  -- A step of the reader that gives a checked setting, and adds its problems to those before.
  abbrev pub Follows : (List Reader.Problem → Reader.Reading A) → Checked A → Type ℓ
  Follows step c =
      (problems : List Reader.Problem) → step problems ≡ (value c, problems ++ errors c)

module _ {ℓ κ} {A : Type ℓ} {B : Type κ} where
  abbrev pub made : (A → B) → Checked A → Checked B
  made f (ok a) = ok (f a)
  made f (err p) = err p

  -- Both settings, or the problems of both.
  abbrev pub both : Checked A → Checked B → Checked (A × B)
  both (ok a) d = paired d
    where
      paired : Checked B → Checked (A × B)
      paired (ok b) = ok (a, b)
      paired (err q) = err q
  both (err p) d = err (p ++ errors d)

  pub errors-both : (c : Checked A) (d : Checked B) → errors (both c d) ≡ errors c ++ errors d
  errors-both (ok a) (ok b) = refl
  errors-both (ok a) (err q) = refl
  errors-both (err p) d = refl

  pub errors-made : (f : A → B) (c : Checked A) → errors (made f c) ≡ errors c
  errors-made f (ok a) = refl
  errors-made f (err p) = refl

module _ {ℓ} {A : Type ℓ} (parse : Text → Result Rule A) (env : Reader.Environment)
    (name : Reader.Variable) where
  parsed-Follows : (text : Text) → Follows (Reader.parsed parse name text) (named name (parse text))
  unfolding Reader.parsed
  parsed-Follows text problems = elim (Result-cases (parse text)) [
    | inl (rule, p) ↦ rw (Reader.parsed, p) refl
    | inr (a, p) ↦ rw (Reader.parsed, p) (ap (λ l. (some a, l)) (sym (append-nil problems)))
  ]

  pub required-Follows :
      Follows (Reader.required parse env name) (named name (verdict parse (env name)))
  unfolding Reader.required Reader.raw
  required-Follows problems = of_value (env name) refl
    where
      of_value :
          (v : Option Reader.Value)
          → env name ≡ v
          → Reader.required_of parse name (is_some (env name)) (Reader.raw env name problems) ≡ (
            value (named name (verdict parse v)),
            problems ++ errors (named name (verdict parse v)),
          )
      of_value none e = rw (Reader.raw, e) refl
      of_value (some Reader.not_text) e = rw (Reader.raw, e) refl
      of_value (some (Reader.text given)) e = elim (Bool-cases (is_empty given)) [
        | inl t ↦ rw (Reader.raw, e, t) refl
        | inr f ↦ rw (Reader.raw, e, f) (parsed-Follows given problems)
      ]

  pub required_not_placeholder-Follows :
      (placeholder : Text)
      → Follows
          (Reader.required_not_placeholder parse env name placeholder)
          (named name (verdict_unless parse placeholder (env name)))
  unfolding Reader.required_not_placeholder
  required_not_placeholder-Follows placeholder problems =
      elim (Bool-cases (Reader.is_placeholder (env name) placeholder)) [
        | inl t ↦ rw t refl
        | inr f ↦ rw f (required-Follows problems)
      ]

problems_for-last :
    (problems : List Reader.Problem) (rule : Rule)
    → Reader.problems_for Reader.public_mail_per_hour
        (problems ++ (Reader.problem Reader.public_mail_per_hour rule ∷ []))
      ≡ true
problems_for-last [] rule = refl
problems_for-last (p ∷ problems) rule = ground (arith, problems_for-last problems rule)

-- The hourly limit is looked for among the problems so far only to see that it was no text.
pub public_mail-Follows :
    (env : Reader.Environment) (problems : List Reader.Problem)
    → Reader.problems_for Reader.public_mail_per_hour problems ≡ false
    → Reader.public_mail_of (Reader.raw env Reader.public_mail_per_hour problems) ≡ (
      value (named Reader.public_mail_per_hour (verdict_mail (env Reader.public_mail_per_hour))),
      problems
          ++ errors
              (named Reader.public_mail_per_hour (verdict_mail (env Reader.public_mail_per_hour))),
    )
unfolding Reader.raw
public_mail-Follows env problems n = of_value (env Reader.public_mail_per_hour) refl
  where
    of_value :
        (v : Option Reader.Value)
        → env Reader.public_mail_per_hour ≡ v
        → Reader.public_mail_of (Reader.raw env Reader.public_mail_per_hour problems) ≡ (
          value (named Reader.public_mail_per_hour (verdict_mail v)),
          problems ++ errors (named Reader.public_mail_per_hour (verdict_mail v)),
        )
    of_value none e =
        rw (Reader.raw, e, n)
          (ap (λ l. (some Reader.default_public_mail_per_hour, l)) (sym (append-nil problems)))
    of_value (some Reader.not_text) e = rw (Reader.raw, e, problems_for-last problems not_utf8) refl
    of_value (some (Reader.text given)) e =
        rw (Reader.raw, e)
          (parsed-Follows parse_public_mail_per_hour env Reader.public_mail_per_hour given problems)
