-- ===== src/Mail/GiveUp/Kept.antt =====
-- Which rows giving up leaves as they are (src/mail/outbox.rs).
use kohaku.Base.{
  ℕ, ◌≡◌, ◌≢◌, refl, sym, subst, Bool, true, false, ◌&&◌, List, [], ◌∷◌, map, arith, Bool-cases,
  Option-cases, inl, inr, All, keep, any, ◌==◌,
}
use kohaku.Base.Table.{update, delete, find}
use kohaku.Db.{Db, OutboxRow}
use kohaku.Mail.Kind.{MailKind}
use kohaku.Mail.Lifecycle.{DistinctIds}
use kohaku.Mail.Order.{In, In-All}
use kohaku.Mail.GiveUp.{
  is_unsent, has_id, find_kind, run_action, close, give_up, give_up_all, give_up_expired,
  is_expired,
}
use kohaku.Mail.GiveUp.Evolution.{IsQuiet, acted}

pub In-delete :
    (p : OutboxRow → Bool) (r : OutboxRow) (rs : List OutboxRow)
    → p r ≡ false
    → In r rs
    → In r (delete p rs)
In-delete p r [] f i = absurd i
In-delete p r (x ∷ xs) f (inl e) =
    let kept : p x ≡ false = subst (λ y. p y ≡ false) e f in rw kept (inl e)
In-delete p r (x ∷ xs) f (inr i) = elim (Bool-cases (p x)) [
  | inl t ↦ rw t (In-delete p r xs f i)
  | inr g ↦ rw g (inr (In-delete p r xs f i))
]

In-update :
    (p : OutboxRow → Bool) (g : OutboxRow → OutboxRow) (r : OutboxRow) (rs : List OutboxRow)
    → p r ≡ false
    → In r rs
    → In r (update p g rs)
In-update p g r [] f i = absurd i
In-update p g r (x ∷ xs) f (inl e) =
    let kept : p x ≡ false = subst (λ y. p y ≡ false) e f in rw kept (inl e)
In-update p g r (x ∷ xs) f (inr i) = elim (Bool-cases (p x)) [
  | inl t ↦ rw t (inr (In-update p g r xs f i))
  | inr h ↦ rw h (inr (In-update p g r xs f i))
]

module _ (kinds : List MailKind) (quiet : All IsQuiet kinds) (clock : ℕ) (r : OutboxRow) where
  close-In :
      (token : Bool) (db : Db) (id : ℕ)
      → has_id id r ≡ false
      → In r db.outbox
      → In r (close token db id).outbox
  unfolding close
  close-In true db id f i = In-delete (has_id id) r db.outbox f i
  close-In false db id f i =
      In-update (λ r. has_id id r && is_unsent r) _ r db.outbox (ground (arith, f)) i

  give_up-In :
      (db : Db) (id : ℕ)
      → has_id id r ≡ false
      → In r db.outbox
      → In r (give_up kinds clock db id).outbox
  unfolding give_up
  give_up-In db id f i = elim (Option-cases (find (λ r. has_id id r && is_unsent r) db.outbox)) [
    | inl e ↦ rw (give_up, e) i
    | inr (row, e) ↦
        rw (give_up, e)
          (close-In row.token (run_action (find_kind kinds row.kind) clock db id) id f
            (subst (In r) (sym (acted kinds quiet clock db row.kind id).0) i))
  ]

  give_up_all-In :
      (db : Db) (ids : List ℕ)
      → any (λ i. r.id == i) ids ≡ false
      → In r db.outbox
      → In r (give_up_all kinds clock db ids).outbox
  unfolding give_up_all
  give_up_all-In db [] f i = i
  give_up_all-In db (id ∷ ids) f i =
      give_up_all-In (give_up kinds clock db id) ids (ground (arith, f))
        (give_up-In db id (ground (arith, f)) i)

other_ids :
    (now : ℕ) (r : OutboxRow) (rs : List OutboxRow)
    → All (λ x. x.id ≢ r.id) rs
    → any (λ i. r.id == i) (map (λ x. x.id) (keep (is_expired now) rs)) ≡ false
other_ids now r [] a = refl
other_ids now r (x ∷ xs) a = elim (Bool-cases (is_expired now x)) [
  | inl t ↦ rw t (ground (arith, a.0, other_ids now r xs a.1))
  | inr f ↦ rw f (other_ids now r xs a.1)
]

not_listed :
    (now : ℕ) (r : OutboxRow) (rs : List OutboxRow)
    → DistinctIds rs
    → In r rs
    → is_expired now r ≡ false
    → any (λ i. r.id == i) (map (λ x. x.id) (keep (is_expired now) rs)) ≡ false
not_listed now r [] d i f = refl
not_listed now r (x ∷ xs) d (inl e) f =
    let kept : is_expired now x ≡ false = subst (λ y. is_expired now y ≡ false) e f in
    rw kept (other_ids now r xs (subst (λ y. All (λ x. x.id ≢ y.id) xs) (sym e) d.0))
not_listed now r (x ∷ xs) d (inr i) f = elim (Bool-cases (is_expired now x)) [
  | inl t ↦
      let other : r.id ≢ x.id = In-All (λ y. y.id ≢ x.id) r xs i d.0 in
      rw t (ground (arith, other, not_listed now r xs d.1 i f))
  | inr g ↦ rw g (not_listed now r xs d.1 i f)
]

-- A row that has not expired is as it was after the expired ones are given up.
pub give_up_expired-In :
    (kinds : List MailKind) (quiet : All IsQuiet kinds) (clock now : ℕ) (db : Db) (r : OutboxRow)
    → DistinctIds db.outbox
    → In r db.outbox
    → is_expired now r ≡ false
    → In r (give_up_expired kinds clock db now).0.outbox
unfolding give_up_expired
give_up_expired-In kinds quiet clock now db r d i f =
    give_up_all-In kinds quiet clock r db (map (λ r. r.id) (keep (is_expired now) db.outbox))
      (not_listed now r db.outbox d i f) i
