-- ===== src/Mail/Pick/Evolution.antt =====
-- What picking a row does to the rows of the outbox (src/mail/outbox.rs).
use kohaku.Base.{ℕ, ◌≡◌, refl, ◌&&◌, Option-cases, inl, inr, List, All, keep}
use kohaku.Db.{Db}
use kohaku.Mail.Kind.{MailKind}
use kohaku.Mail.GiveUp.Evolution.{IsQuiet, give_up_expired-Evolves}
use kohaku.Mail.Pick.{is_due, tidy, pick, first_row, delivery_address}
use kohaku.Mail.Lifecycle.{Evolves, Evolves-refl, Evolves-trans, delete-Evolves, DistinctIds}

module _ (kinds : List MailKind) (quiet : All IsQuiet kinds) (clock : ℕ) where
  pub tidy-Evolves :
      (db : Db) (now : ℕ)
      → DistinctIds db.outbox
      → Evolves db.outbox (tidy kinds clock db now).outbox
        × ((tidy kinds clock db now).outbox_seq ≡ db.outbox_seq)
  unfolding tidy
  tidy-Evolves db now d =
      let given = give_up_expired-Evolves kinds quiet clock db now d in
      (Evolves-trans given.0 (delete-Evolves (λ r. r.placeholder && is_due now r) _), given.1)

  pub pick-Evolves :
      (db : Db) (now : ℕ)
      → DistinctIds db.outbox
      → Evolves db.outbox (pick kinds clock db now).0.outbox
        × ((pick kinds clock db now).0.outbox_seq ≡ db.outbox_seq)
  unfolding pick
  pick-Evolves db now d =
      elim (Option-cases (first_row (keep (is_due now) (tidy kinds clock db now).outbox))) [
        | inl e ↦ rw (pick, e) (tidy-Evolves db now d)
        | inr e ↦ elim (Option-cases (delivery_address (tidy kinds clock db now) e.0)) [
          | inl f ↦ rw (pick, e.1, f) (Evolves-refl db.outbox, refl)
          | inr f ↦ rw (pick, e.1, f.1) (tidy-Evolves db now d)
        ]
      ]
