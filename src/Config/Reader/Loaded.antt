-- ===== src/Config/Reader/Loaded.antt =====
-- Loading against the verdicts on its variables (src/config.rs).
use kohaku.Base.{ℕ, ◌≡◌, refl, ap₂, Bool, Option, some, List, [], ◌++◌}
use kohaku.Base.Result.{ok, err}
use kohaku.Base.Text.{Text, codes}
use mathlib.Core.List.{append_assoc}
use kohaku.Config.BaseUrl.{BaseUrl, parse_base_url}
use kohaku.Config.Proxies.{parse_trusted_proxies}
use kohaku.Config.Values.{parse_sender, parse_instance_secret}
use kohaku.Limits.Address.{IpAddr}
use kohaku.Limits.ClientIp.{IpNet}
use kohaku.Config.Reader
use kohaku.Config.Reader.{◌>>=◌}
use kohaku.Config.Reader.Quiet.{
  Quiet, Quiet-problems_for, Quiet-none, Quiet-after, named-IsQuiet, transport-IsQuiet,
}
use kohaku.Config.Reader.Transport.{
  checked, checked_unless, smtp_verdict, smtp-Follows, transport_verdict, transport-Follows,
}
use kohaku.Config.Reader.Verdicts.{
  verdict_mail, Checked, named, both, made, value, errors, errors-both, errors-made,
  required-Follows, required_not_placeholder-Follows, public_mail-Follows,
}

module _ {A B C D E F G : Type 0} where
  gather-six :
      (f : A × (B × (C × (D × (E × F)))) → G) (a : Checked A) (b : Checked B) (c : Checked C)
      (d : Checked D) (e : Checked E) (g : Checked F)
      → (do
        u ← value a
        v ← value b
        w ← value c
        x ← value d
        y ← value e
        z ← value g
        some (f (u, (v, (w, (x, (y, z)))))))
        ≡ value (made f (both a (both b (both c (both d (both e g))))))
  gather-six f (err p) b c d e g = refl
  gather-six f (ok u) (err p) c d e g = refl
  gather-six f (ok u) (ok v) (err p) d e g = refl
  gather-six f (ok u) (ok v) (ok w) (err p) e g = refl
  gather-six f (ok u) (ok v) (ok w) (ok x) (err p) g = refl
  gather-six f (ok u) (ok v) (ok w) (ok x) (ok y) (err p) = refl
  gather-six f (ok u) (ok v) (ok w) (ok x) (ok y) (ok z) = refl

  errors-six :
      (f : A × (B × (C × (D × (E × F)))) → G) (a : Checked A) (b : Checked B) (c : Checked C)
      (d : Checked D) (e : Checked E) (g : Checked F)
      → errors a ++ errors b ++ errors c ++ errors d ++ errors e ++ errors g
        ≡ errors (made f (both a (both b (both c (both d (both e g))))))
  errors-six f a b c d e g =
      rw
        (
          errors-made,
          errors-both a _,
          errors-both b _,
          errors-both c _,
          errors-both d _,
          errors-both e g,
        )
        (simp (append_assoc))

loaded-value {ℓ} : {A : Type ℓ} (c : Checked A) → Reader.loaded (value c, errors c) ≡ c
loaded-value (ok s) = refl
loaded-value (err p) = refl

load_smtp-verdict : (env : Reader.Environment) → Reader.load_smtp env ≡ smtp_verdict env
unfolding Reader.load_smtp
load_smtp-verdict env = rw (smtp-Follows env []) (loaded-value (smtp_verdict env))

module _ {S : Type 0} (from_base64 : Text → Option S) (parse_address : Text → Option IpAddr)
    (dev : Bool) where
  module _ (env : Reader.Environment) where
    abbrev url : Checked BaseUrl
    url = checked_unless (parse_base_url dev) (codes "https://bugs.example.com") env Reader.base_url

    abbrev proxies : Checked (List IpNet)
    proxies = checked (parse_trusted_proxies parse_address) env Reader.trusted_proxies

    abbrev key : Checked S
    key = checked (parse_instance_secret from_base64) env Reader.secret

    abbrev sender : Checked Text
    sender = checked_unless parse_sender (codes "bugs@example.com") env Reader.smtp_from

    abbrev mail : Checked ℕ
    mail = named Reader.public_mail_per_hour (verdict_mail (env Reader.public_mail_per_hour))

    abbrev links_of : S × BaseUrl → Reader.Config S
    links_of (s, u) = Reader.links_config s u

    abbrev serve_of :
        BaseUrl × (List IpNet × (S × (Text × (Reader.MailTransport × ℕ)))) → Reader.Config S
    serve_of (u, (p, (s, (f, (t, m))))) = Reader.serve_config (record {
      base_url = u;
      trusted_proxies = p;
      secret = s;
      sender = f;
      transport = t;
      public_mail_per_hour = m;
    })

    abbrev serve_verdict : Checked (Reader.Config S)
    serve_verdict =
        made serve_of
          (both url (both proxies (both key (both sender (both (transport_verdict env dev) mail)))))

    -- The settings that a command needs, each from its variable, or all their problems in order.
    abbrev pub command_verdict : Reader.Command → Checked (Reader.Config S)
    command_verdict Reader.serve = serve_verdict
    command_verdict Reader.backup = made Reader.secret_config key
    command_verdict Reader.admin_unlock = made Reader.secret_config key
    command_verdict Reader.admin_reset_password = made links_of (both key url)
    command_verdict Reader.project_create = made links_of (both key url)
    command_verdict Reader.restore = ok Reader.no_config
    command_verdict Reader.restore_list = ok Reader.no_config
    command_verdict Reader.healthcheck = ok Reader.no_config

    before_mail-Quiet : Quiet (
        errors url
        ++ errors proxies
        ++ errors key
        ++ errors sender
        ++ errors (transport_verdict env dev))
    before_mail-Quiet =
        Quiet-after _ (transport_verdict env dev)
          (Quiet-after _ sender
            (Quiet-after _ key
              (Quiet-after _ proxies
                (Quiet-after [] url Quiet-none (named-IsQuiet Reader.base_url _ refl))
                (named-IsQuiet Reader.trusted_proxies _ refl))
              (named-IsQuiet Reader.secret _ refl))
            (named-IsQuiet Reader.smtp_from _ refl))
          (transport-IsQuiet env dev)

    serve_read :
        Reader.read_serve from_base64 parse_address dev env []
        ≡ (value serve_verdict, errors serve_verdict)
    unfolding Reader.read_serve Reader.read_base_url Reader.read_secret
    serve_read =
        rw
          (
            required_not_placeholder-Follows (parse_base_url dev) env Reader.base_url
                (codes "https://bugs.example.com") [],
            required-Follows (parse_trusted_proxies parse_address) env Reader.trusted_proxies _,
            required-Follows (parse_instance_secret from_base64) env Reader.secret _,
            required_not_placeholder-Follows parse_sender env Reader.smtp_from
                (codes "bugs@example.com") _,
            transport-Follows env dev _,
            public_mail-Follows env _ (Quiet-problems_for _ before_mail-Quiet),
          )
          (ap₂ (λ v l. (v, l))
            (gather-six serve_of url proxies key sender (transport_verdict env dev) mail)
            (errors-six serve_of url proxies key sender (transport_verdict env dev) mail))

    secret_read : Reader.read_secret from_base64 parse_address dev env [] ≡ (value key, errors key)
    unfolding Reader.read_secret
    secret_read = required-Follows (parse_instance_secret from_base64) env Reader.secret []

    as_secret-value :
        (c : Checked S)
        → Reader.as_secret from_base64 parse_address dev (value c, errors c)
          ≡ (value (made Reader.secret_config c), errors (made Reader.secret_config c))
    as_secret-value (ok s) = refl
    as_secret-value (err p) = refl

    links_gathered :
        (c : Checked S) (d : Checked BaseUrl)
        → ◌≡◌ {A = Reader.Reading (Reader.Config S)}
            (do s ← value c; u ← value d; some (Reader.links_config s u), errors c ++ errors d)
            (value (made links_of (both c d)), errors (made links_of (both c d)))
    links_gathered (err p) d = refl
    links_gathered (ok s) (err p) = refl
    links_gathered (ok s) (ok u) = refl

    links_read :
        Reader.read_links from_base64 parse_address dev env []
        ≡ (value (made links_of (both key url)), errors (made links_of (both key url)))
    unfolding Reader.read_links Reader.read_base_url
    links_read =
        rw
          (
            secret_read,
            required_not_placeholder-Follows (parse_base_url dev) env Reader.base_url
                (codes "https://bugs.example.com") _,
          )
          (links_gathered key url)

  -- For every command and every environment, a build with or without `dev`, `load` gives the settings
  -- that the command needs, each as the rule for its variable alone reads it, when none has a problem;
  -- and otherwise exactly the problems of all of them, each with its variable, in the order in which
  -- the command reads them: none hides another, and no other variable is reported.
  pub load-verdicts :
      (command : Reader.Command) (env : Reader.Environment)
      → Reader.load from_base64 parse_address dev command env ≡ command_verdict env command
  unfolding Reader.load Reader.read
  load-verdicts Reader.serve env = rw (serve_read env) (loaded-value (serve_verdict env))
  load-verdicts Reader.backup env =
      rw (secret_read env, as_secret-value env (key env)) (loaded-value _)
  load-verdicts Reader.admin_unlock env =
      rw (secret_read env, as_secret-value env (key env)) (loaded-value _)
  load-verdicts Reader.admin_reset_password env = rw (links_read env) (loaded-value _)
  load-verdicts Reader.project_create env = rw (links_read env) (loaded-value _)
  load-verdicts Reader.restore env = refl
  load-verdicts Reader.restore_list env = refl
  load-verdicts Reader.healthcheck env = refl
