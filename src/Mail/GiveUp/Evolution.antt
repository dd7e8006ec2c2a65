-- ===== src/Mail/GiveUp/Evolution.antt =====
-- What giving up does to the rows of the outbox (src/mail/outbox.rs).
use kohaku.Base.{
  ℕ, ◌≡◌, refl, subst, ◌∙◌, Bool, true, false, ◌&&◌, some, List, [], ◌∷◌, map, arith, Bool-cases,
  Option-cases, inl, inr, All, keep, is_some,
}
use kohaku.Base.Table.{find, find-holds}
use kohaku.Base.Text.{Text, text_eq}
use kohaku.Db.{Db, OutboxRow, given_up}
use kohaku.Mail.Kind.{MailKind, kinds, reset_link, lockout, password_changed, expire_reset_token}
use kohaku.Mail.GiveUp.{
  is_unsent, has_id, find_kind, run_action, close, give_up, give_up_all, give_up_expired, retain,
  is_expired,
}
use kohaku.Mail.Lifecycle.{
  Evolves, Evolves-refl, Evolves-trans, Evolves-DistinctIds, delete-Evolves, update_id-Evolves,
  DistinctIds, abandon,
}

-- A kind's give-up action writes nothing to the outbox.
abbrev pub IsQuiet : MailKind → Type 0
IsQuiet kind =
    (clock : ℕ) (db : Db) (id : ℕ)
    → ((run_action (some kind) clock db id).outbox ≡ db.outbox)
      × ((run_action (some kind) clock db id).outbox_seq ≡ db.outbox_seq)

expire_reset_token-outbox :
    (clock : ℕ) (db : Db) (id : ℕ)
    → ((expire_reset_token clock db id).outbox ≡ db.outbox)
      × ((expire_reset_token clock db id).outbox_seq ≡ db.outbox_seq)
unfolding expire_reset_token
expire_reset_token-outbox clock db id = ground arith

-- The program's kinds are quiet: the one action there is closes tokens.
pub kinds-IsQuiet : All IsQuiet kinds
unfolding kinds run_action reset_link lockout password_changed
kinds-IsQuiet = (
  expire_reset_token-outbox,
  ((λ clock db id. (refl, refl)), ((λ clock db id. (refl, refl)), tt)),
)

find_kind-IsQuiet :
    (kinds : List MailKind) (name : Text) (kind : MailKind)
    → All IsQuiet kinds
    → find_kind kinds name ≡ some kind
    → IsQuiet kind
unfolding find_kind find
find_kind-IsQuiet [] name kind q e = ground arith
find_kind-IsQuiet (k ∷ ks) name kind q e = elim (Bool-cases (text_eq k.name name)) [
  | inl h ↦ subst IsQuiet (ground (arith, h, e)) q.0
  | inr h ↦ find_kind-IsQuiet ks name kind q.1 (ground (arith, h, e))
]

module _ (kinds : List MailKind) (quiet : All IsQuiet kinds) (clock : ℕ) where
  pub acted :
      (db : Db) (name : Text) (id : ℕ)
      → ((run_action (find_kind kinds name) clock db id).outbox ≡ db.outbox)
        × ((run_action (find_kind kinds name) clock db id).outbox_seq ≡ db.outbox_seq)
  unfolding run_action
  acted db name id = elim (Option-cases (find_kind kinds name)) [
    | inl e ↦ rw e (refl, refl)
    | inr e ↦ rw e.1 (find_kind-IsQuiet kinds name e.0 quiet e.1 clock db id)
  ]

  close-Evolves :
      (before : Db) (id : ℕ) (row : OutboxRow) (db : Db)
      → DistinctIds db.outbox
      → find (λ r. has_id id r && is_unsent r) db.outbox ≡ some row
      → before.outbox ≡ db.outbox
      → Evolves db.outbox (close row.token before id).outbox
  unfolding close
  close-Evolves before id row db d e same = elim (Bool-cases row.token) [
    | inl t ↦ rw (t, same) (delete-Evolves (has_id id) db.outbox)
    | inr t ↦
        rw (t, same)
          (update_id-Evolves id (λ r. has_id id r && is_unsent r)
            (λ r. record r { outcome = some given_up }) row db.outbox (λ r h. ground arith) d e
            (abandon (ground (arith, find-holds _ db.outbox row e)) t refl))
  ]

  close-seq : (b : Bool) (db : Db) (id : ℕ) → (close b db id).outbox_seq ≡ db.outbox_seq
  unfolding close
  close-seq true db id = refl
  close-seq false db id = refl

  pub give_up-Evolves :
      (db : Db) (id : ℕ)
      → DistinctIds db.outbox
      → Evolves db.outbox (give_up kinds clock db id).outbox
  unfolding give_up
  give_up-Evolves db id d = elim (Option-cases (find (λ r. has_id id r && is_unsent r) db.outbox)) [
    | inl e ↦ rw (give_up, e) (Evolves-refl db.outbox)
    | inr e ↦
        rw (give_up, e.1)
          (close-Evolves (run_action (find_kind kinds e.0.kind) clock db id) id e.0 db d e.1
            (acted db e.0.kind id).0)
  ]

  pub give_up-seq : (db : Db) (id : ℕ) → (give_up kinds clock db id).outbox_seq ≡ db.outbox_seq
  unfolding give_up
  give_up-seq db id = elim (Option-cases (find (λ r. has_id id r && is_unsent r) db.outbox)) [
    | inl e ↦ rw (give_up, e) refl
    | inr e ↦ rw (give_up, e.1) (close-seq e.0.token _ id ∙ (acted db e.0.kind id).1)
  ]

  give_up_all-Evolves :
      (db : Db) (ids : List ℕ)
      → DistinctIds db.outbox
      → Evolves db.outbox (give_up_all kinds clock db ids).outbox
        × ((give_up_all kinds clock db ids).outbox_seq ≡ db.outbox_seq)
  unfolding give_up_all
  give_up_all-Evolves db [] d = (Evolves-refl db.outbox, refl)
  give_up_all-Evolves db (id ∷ ids) d =
      let first = give_up-Evolves db id d in
      let rest =
        give_up_all-Evolves (give_up kinds clock db id) ids (Evolves-DistinctIds first d) in
      (Evolves-trans first rest.0, rest.1 ∙ give_up-seq db id)

  pub give_up_expired-Evolves :
      (db : Db) (now : ℕ)
      → DistinctIds db.outbox
      → Evolves db.outbox (give_up_expired kinds clock db now).0.outbox
        × ((give_up_expired kinds clock db now).0.outbox_seq ≡ db.outbox_seq)
  unfolding give_up_expired
  give_up_expired-Evolves db now d =
      give_up_all-Evolves db (map (λ r. r.id) (keep (is_expired now) db.outbox)) d

  pub retain-Evolves :
      (db : Db) (now : ℕ)
      → DistinctIds db.outbox
      → Evolves db.outbox (retain kinds clock db now).outbox
        × ((retain kinds clock db now).outbox_seq ≡ db.outbox_seq)
  unfolding retain
  retain-Evolves db now d =
      let given = give_up_expired-Evolves db now d in
      (Evolves-trans given.0 (delete-Evolves (λ r. is_some r.outcome) _), given.1)
