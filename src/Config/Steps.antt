-- ===== src/Config/Steps.antt =====
-- The steps of `Reader` in src/config.rs, which read one variable each and keep the problem that
-- they find. The environment is a function.
use kohaku.Base.{Bool, false, Option, none, some, List, [], ◌∷◌, ◌++◌, if◌then◌else◌, is_some}
use kohaku.Base.Result.{Result, ok, err}
use kohaku.Base.Text.{Text, text_eq, is_empty}
use kohaku.Config.Rule.{Rule, missing, not_utf8, unchanged_example}

pub data Variable : Type 0 where
  base_url trusted_proxies secret smtp_host smtp_port smtp_tls smtp_username smtp_password :
      Variable
  smtp_from public_mail_per_hour : Variable

-- What `std::env::var_os` gives for a variable that is set.
pub data Value : Type 0 where
  text : Text → Value
  not_text : Value

abbrev pub Environment : Type 0
Environment = Variable → Option Value

pub record Problem : Type 0 where
  pub variable : Variable
  pub rule : Rule

abbrev pub problem : Variable → Rule → Problem
problem variable rule = record { variable = variable; rule = rule }

-- What a step of the reader returns, with the problems so far.
abbrev pub Reading {ℓ} : Type ℓ → Type ℓ
Reading A = Option A × List Problem

abbrev pub fail {ℓ} : {A : Type ℓ} → Variable → Rule → List Problem → Reading A
fail name rule problems = (none, problems ++ (problem name rule ∷ []))

-- `None` (unset) or the value, empty included.
unfoldable pub raw : Environment → Variable → List Problem → Reading Text
raw env name problems = elim (env name) [
  | none ↦ (none, problems)
  | some (text value) ↦ (some value, problems)
  | some not_text ↦ fail name not_utf8 problems
]

abbrev pub is_placeholder : Option Value → Text → Bool
is_placeholder none placeholder = false
is_placeholder (some not_text) placeholder = false
is_placeholder (some (text value)) placeholder = text_eq value placeholder

module _ {ℓ} {A : Type ℓ} (parse : Text → Result Rule A) where
  unfoldable pub parsed : Variable → Text → List Problem → Reading A
  parsed name value problems = elim (parse value) [
    | ok a ↦ (some a, problems)
    | err rule ↦ fail name rule problems
  ]

  -- From whether the variable is set, and what `raw` read.
  abbrev pub required_of : Variable → Bool → Reading Text → Reading A
  required_of name is_set (some value, problems) =
      if is_empty value then fail name missing problems else parsed name value problems
  required_of name is_set (none, problems) =
      if is_set then (none, problems) else fail name missing problems

  -- A required setting: unset or empty counts as missing.
  unfoldable pub required : Environment → Variable → List Problem → Reading A
  required env name problems = required_of name (is_some (env name)) (raw env name problems)

  -- One that must not equal its placeholder of `.env.example`.
  unfoldable pub required_not_placeholder : Environment → Variable → Text → List Problem → Reading A
  required_not_placeholder env name placeholder problems =
      if is_placeholder (env name) placeholder
      then fail name unchanged_example problems
      else required env name problems
