-- ===== src/Config/Reader/Quiet.antt =====
-- Which problems the reader looks through before it gives a default (src/config.rs).
use kohaku.Base.{
  ◌≡◌, refl, Bool, true, false, List, [], ◌∷◌, ◌++◌, Bool-cases, inl, inr, is_some, ◌==◌, All,
  All-append,
}
use kohaku.Base.Result.{Result, ok, err}
use kohaku.Config.Rule.{Rule}
use kohaku.Config.Reader
use kohaku.Config.Reader.Transport.{unset, unless_set, smtp_verdict, transport_verdict}
use kohaku.Config.Reader.Verdicts.{Checked, named, both, made, errors, errors-both, errors-made}

-- The problem is not about the hourly limit.
abbrev pub Elsewhere : Reader.Problem → Type 0
Elsewhere p = (Reader.index p.variable == 9) ≡ false

pub Quiet : List Reader.Problem → Type 0
Quiet = All Elsewhere

pub IsQuiet {ℓ} : {A : Type ℓ} → Checked A → Type 0
IsQuiet c = Quiet (errors c)

pub Quiet-none : Quiet []
unfolding Quiet
Quiet-none = tt

pub Quiet-after {ℓ} :
    {A : Type ℓ} (problems : List Reader.Problem) (c : Checked A)
    → Quiet problems
    → IsQuiet c
    → Quiet (problems ++ errors c)
unfolding Quiet IsQuiet
Quiet-after problems c = All-append Elsewhere problems (errors c)

pub Quiet-problems_for :
    (problems : List Reader.Problem)
    → Quiet problems
    → Reader.problems_for Reader.public_mail_per_hour problems ≡ false
unfolding Quiet
Quiet-problems_for [] q = refl
Quiet-problems_for (x ∷ problems) q = rw (q.0) (Quiet-problems_for problems q.1)

pub named-IsQuiet {ℓ} :
    {A : Type ℓ} (name : Reader.Variable) (r : Result Rule A)
    → (Reader.index name == 9) ≡ false
    → IsQuiet (named name r)
unfolding IsQuiet Quiet
named-IsQuiet name (ok a) n = tt
named-IsQuiet name (err rule) n = (n, tt)

pub both-IsQuiet {ℓ κ} :
    {A : Type ℓ} {B : Type κ} (c : Checked A) (d : Checked B)
    → IsQuiet c
    → IsQuiet d
    → IsQuiet (both c d)
unfolding IsQuiet Quiet
both-IsQuiet c d f g = rw (errors-both c d) (All-append Elsewhere (errors c) (errors d) f g)

made-IsQuiet {ℓ κ} :
    {A : Type ℓ} {B : Type κ} (f : A → B) (c : Checked A) → IsQuiet c → IsQuiet (made f c)
unfolding IsQuiet Quiet
made-IsQuiet f c q = rw (errors-made f c) q

module _ (env : Reader.Environment) where
  unset-IsQuiet :
      (name : Reader.Variable) → (Reader.index name == 9) ≡ false → IsQuiet (unset env name)
  unfolding IsQuiet Quiet
  unset-IsQuiet name n = elim (Bool-cases (is_some (env name))) [
    | inl t ↦ rw t (n, tt)
    | inr f ↦ rw f tt
  ]

  unless_set-IsQuiet :
      (c : Checked Reader.MailTransport) (name : Reader.Variable)
      → (Reader.index name == 9) ≡ false
      → IsQuiet c
      → IsQuiet (unless_set env name c)
  unless_set-IsQuiet c name n q =
      made-IsQuiet (λ r. r.0) _ (both-IsQuiet _ _ q (unset-IsQuiet name n))

  print-IsQuiet : IsQuiet {A = Reader.MailTransport} (ok Reader.print)
  unfolding IsQuiet Quiet
  print-IsQuiet = tt

  smtp-IsQuiet : IsQuiet (smtp_verdict env)
  smtp-IsQuiet = made-IsQuiet _ _ (
      both-IsQuiet _ _ (named-IsQuiet Reader.smtp_host _ refl) (
        both-IsQuiet _ _ (named-IsQuiet Reader.smtp_port _ refl) (
          both-IsQuiet _ _ (named-IsQuiet Reader.smtp_tls _ refl) (
            both-IsQuiet _ _ (named-IsQuiet Reader.smtp_username _ refl)
              (named-IsQuiet Reader.smtp_password _ refl)))))

  pub transport-IsQuiet : (dev : Bool) → IsQuiet (transport_verdict env dev)
  transport-IsQuiet true = unless_set-IsQuiet _ Reader.smtp_password refl (
      unless_set-IsQuiet _ Reader.smtp_username refl (
        unless_set-IsQuiet _ Reader.smtp_tls refl (
          unless_set-IsQuiet _ Reader.smtp_port refl
            (unless_set-IsQuiet _ Reader.smtp_host refl print-IsQuiet))))
  transport-IsQuiet false = made-IsQuiet Reader.smtp _ smtp-IsQuiet
