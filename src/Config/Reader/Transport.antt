-- ===== src/Config/Reader/Transport.antt =====
-- The mail transport against the verdicts on its variables (src/config.rs).
use kohaku.Base.{
  ℕ, ◌≡◌, refl, sym, ap, ap₂, inl, inr, Bool, true, false, none, some, List, [], ◌∷◌, ◌++◌,
  Bool-cases, is_some, if◌then◌else◌,
}
use kohaku.Base.Result.{Result, ok, err}
use kohaku.Base.Text.{Text, codes}
use mathlib.Core.List.{append-nil, append_assoc}
use kohaku.Config.DnsName
use kohaku.Config.Rule.{Rule, dev_build_sends_no_mail}
use kohaku.Config.Values.{SmtpTls, parse_smtp_port, parse_smtp_tls, parse_smtp_username}
use kohaku.Config.Reader
use kohaku.Config.Reader.{◌>>=◌}
use kohaku.Config.Reader.Verdicts.{
  verdict, verdict_unless, Checked, named, both, made, value, errors, Follows, errors-both,
  errors-made, required-Follows, required_not_placeholder-Follows,
}

-- A setting that a `dev` build must not find.
abbrev pub unset : Reader.Environment → Reader.Variable → Checked Bool
unset env name =
    if is_some (env name) then err (Reader.problem name dev_build_sends_no_mail ∷ []) else ok true

abbrev pub checked {ℓ} :
    {A : Type ℓ} → (Text → Result Rule A) → Reader.Environment → Reader.Variable → Checked A
checked parse env name = named name (verdict parse (env name))

abbrev pub checked_unless {ℓ} :
    {A : Type ℓ} → (Text → Result Rule A) → Text → Reader.Environment → Reader.Variable → Checked A
checked_unless parse placeholder env name = named name (verdict_unless parse placeholder (env name))

module _ {ℓ} {A B C D E F : Type ℓ} where
  gather-five :
      (f : A × (B × (C × (D × E))) → F) (a : Checked A) (b : Checked B) (c : Checked C)
      (d : Checked D) (e : Checked E)
      → (do
        u ← value a
        v ← value b
        w ← value c
        x ← value d
        y ← value e
        some (f (u, (v, (w, (x, y))))))
        ≡ value (made f (both a (both b (both c (both d e)))))
  gather-five f (err p) b c d e = refl
  gather-five f (ok u) (err p) c d e = refl
  gather-five f (ok u) (ok v) (err p) d e = refl
  gather-five f (ok u) (ok v) (ok w) (err p) e = refl
  gather-five f (ok u) (ok v) (ok w) (ok x) (err p) = refl
  gather-five f (ok u) (ok v) (ok w) (ok x) (ok y) = refl

  errors-five :
      (f : A × (B × (C × (D × E))) → F) (a : Checked A) (b : Checked B) (c : Checked C)
      (d : Checked D) (e : Checked E) (p : List Reader.Problem)
      → p ++ errors a ++ errors b ++ errors c ++ errors d ++ errors e
        ≡ p ++ errors (made f (both a (both b (both c (both d e)))))
  errors-five f a b c d e p =
      rw (errors-made, errors-both a _, errors-both b _, errors-both c _, errors-both d e)
        (simp (append_assoc))

module _ (env : Reader.Environment) where
  abbrev host : Checked Text
  host = checked_unless DnsName.parse (codes "smtp.example.com") env Reader.smtp_host

  abbrev port : Checked ℕ
  port = checked parse_smtp_port env Reader.smtp_port

  abbrev tls : Checked SmtpTls
  tls = checked parse_smtp_tls env Reader.smtp_tls

  abbrev username : Checked Text
  username =
      checked_unless parse_smtp_username (codes "your-smtp-username") env Reader.smtp_username

  abbrev password : Checked Text
  password = checked parse_smtp_username env Reader.smtp_password

  abbrev smtp_of : Text × (ℕ × (SmtpTls × (Text × Text))) → Reader.SmtpConfig
  smtp_of (h, (p, (t, (u, w)))) = record { host = h; port = p; tls = t; username = u; password = w }

  abbrev pub smtp_verdict : Checked Reader.SmtpConfig
  smtp_verdict = made smtp_of (both host (both port (both tls (both username password))))

  pub smtp-Follows : Follows (Reader.smtp_settings env) smtp_verdict
  unfolding Reader.smtp_settings
  smtp-Follows problems =
      rw
        (
          required_not_placeholder-Follows DnsName.parse env Reader.smtp_host
              (codes "smtp.example.com") problems,
          required-Follows parse_smtp_port env Reader.smtp_port _,
          required-Follows parse_smtp_tls env Reader.smtp_tls _,
          required_not_placeholder-Follows parse_smtp_username env Reader.smtp_username
              (codes "your-smtp-username") _,
          required-Follows parse_smtp_username env Reader.smtp_password _,
        )
        (ap₂ (λ v l. (v, l)) (gather-five smtp_of host port tls username password)
          (errors-five smtp_of host port tls username password problems))

  -- What a `dev` build refuses, in the order of its settings.
  abbrev pub unless_set :
      Reader.Variable → Checked Reader.MailTransport → Checked Reader.MailTransport
  unless_set name c = made (λ r. r.0) (both c (unset env name))

  refuse_set-value :
      (name : Reader.Variable) (c : Checked Reader.MailTransport) (p : List Reader.Problem)
      → Reader.refuse_set env name (value c, p ++ errors c)
        ≡ (value (unless_set name c), p ++ errors (unless_set name c))
  refuse_set-value name (ok m) p = elim (Bool-cases (is_some (env name))) [
    | inl t ↦ rw t (ap (λ l. (none, l)) (simp (append-nil)))
    | inr n ↦ rw n refl
  ]
  refuse_set-value name (err q) p = elim (Bool-cases (is_some (env name))) [
    | inl t ↦ rw t (ap (λ l. (none, l)) (append_assoc p q _))
    | inr n ↦ rw n (ap (λ l. (none, l)) (simp (append-nil)))
  ]

  refuse_set-Follows :
      {step : List Reader.Problem → Reader.Reading Reader.MailTransport}
      (c : Checked Reader.MailTransport) (name : Reader.Variable)
      → Follows step c
      → Follows (λ p. Reader.refuse_set env name (step p)) (unless_set name c)
  refuse_set-Follows c name follows p = rw (follows p) (refuse_set-value name c p)

  value-made :
      (c : Checked Reader.SmtpConfig)
      → (do s ← value c; some (Reader.smtp s)) ≡ value (made Reader.smtp c)
  value-made (ok s) = refl
  value-made (err q) = refl

  abbrev pub print_verdict : Checked Reader.MailTransport
  print_verdict = unless_set Reader.smtp_password (
      unless_set Reader.smtp_username (
        unless_set Reader.smtp_tls
          (unless_set Reader.smtp_port (unless_set Reader.smtp_host (ok Reader.print)))))

  abbrev pub transport_verdict : Bool → Checked Reader.MailTransport
  transport_verdict true = print_verdict
  transport_verdict false = made Reader.smtp smtp_verdict

  pub transport-Follows : (dev : Bool) → Follows (Reader.transport dev env) (transport_verdict dev)
  unfolding Reader.transport
  transport-Follows true problems =
      refuse_set-Follows _ Reader.smtp_password
        (refuse_set-Follows _ Reader.smtp_username (
          refuse_set-Follows _ Reader.smtp_tls (
            refuse_set-Follows _ Reader.smtp_port (
              refuse_set-Follows (ok Reader.print) Reader.smtp_host
                (λ p. ap (λ l. (some Reader.print, l)) (sym (append-nil p)))))))
        problems
  transport-Follows false problems = rw (smtp-Follows problems) (
      ap₂ (λ v l. (v, l)) (value-made smtp_verdict)
        (ap (λ l. problems ++ l) (sym (errors-made Reader.smtp smtp_verdict))))
