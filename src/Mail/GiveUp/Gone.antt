-- ===== src/Mail/GiveUp/Gone.antt =====
-- After giving up the expired rows (src/mail/outbox.rs), no row is both unsent and expired.
use kohaku.Base.{
  All-imp, ℕ, ◌≡◌, refl, sym, subst, Bool, true, false, ◌&&◌, none, some, List, [], ◌∷◌, map, arith,
  Bool-cases, Option-cases, inl, inr, All, any, keep, ◌==◌,
}
use kohaku.Base.Table.{update, delete, find}
use kohaku.Db.{Db, OutboxRow, given_up}
use kohaku.Mail.Kind.{MailKind}
use kohaku.Mail.Order.{All-imp2}
use kohaku.Mail.GiveUp.{is_unsent, has_id, close, give_up, give_up_all, give_up_expired, is_expired}
use kohaku.Mail.GiveUp.Evolution.{IsQuiet, give_up-Evolves}
use kohaku.Mail.Lifecycle.{
  Change, Changes, unchanged, and_then, count_failure, schedule, deliver, abandon, Evolves-All,
  Evolves-DistinctIds, DistinctIds, Changes-id,
}

pub find-none :
    (p : OutboxRow → Bool) (rs : List OutboxRow) → find p rs ≡ none → All (λ r. p r ≡ false) rs
unfolding find
find-none p [] e = tt
find-none p (r ∷ rs) e = elim (Bool-cases (p r)) [
  | inl t ↦ absurd (ground (arith, t, e))
  | inr f ↦ (f, find-none p rs (ground (arith, f, e)))
]

-- No unsent row has the id.
abbrev pub Gone : ℕ → List OutboxRow → Type 0
Gone id rs = All (λ r. (has_id id r && is_unsent r) ≡ false) rs

abandon-Gone :
    (id : ℕ) (rs : List OutboxRow)
    → Gone id
        (update (λ r. has_id id r && is_unsent r) (λ r. record r { outcome = some given_up }) rs)
abandon-Gone id [] = tt
abandon-Gone id (r ∷ rs) = (ground arith, abandon-Gone id rs)

pub delete-Gone : (id : ℕ) (rs : List OutboxRow) → Gone id (delete (has_id id) rs)
delete-Gone id [] = tt
delete-Gone id (r ∷ rs) = elim (Bool-cases (has_id id r)) [
  | inl t ↦ rw t (delete-Gone id rs)
  | inr f ↦ rw f (rw f refl, delete-Gone id rs)
]

close-Gone : (token : Bool) (db : Db) (id : ℕ) → Gone id (close token db id).outbox
unfolding close
close-Gone true db id = delete-Gone id db.outbox
close-Gone false db id = abandon-Gone id db.outbox

-- After `give_up`, no unsent row has the id: the row is deleted, or its outcome is set.
pub give_up-Gone :
    (kinds : List MailKind) (clock : ℕ) (db : Db) (id : ℕ)
    → Gone id (give_up kinds clock db id).outbox
unfolding give_up
give_up-Gone kinds clock db id =
    elim (Option-cases (find (λ r. has_id id r && is_unsent r) db.outbox)) [
      | inl e ↦ rw (give_up, e) (find-none _ db.outbox e)
      | inr e ↦ rw (give_up, e.1) (close-Gone e.0.token _ id)
    ]

-- A change makes no row expire at the given time.
Change-not_expired :
    (now : ℕ) {r s : OutboxRow} → Change r s → is_expired now s ≡ true → is_expired now r ≡ true
Change-not_expired now {r} {s} (count_failure o e) h =
    subst (λ x. is_expired now x ≡ true → is_expired now r ≡ true) (sym e) (λ k. k) h
Change-not_expired now {r} {s} (schedule next o l e) h =
    subst (λ x. is_expired now x ≡ true → is_expired now r ≡ true) (sym e)
      (λ k. ground (arith, k, o)) h
Change-not_expired now {r} {s} (deliver o t e) h =
    subst (λ x. is_expired now x ≡ true → is_expired now r ≡ true) (sym e)
      (λ k. ground (arith, k, o)) h
Change-not_expired now {r} {s} (abandon o t e) h =
    subst (λ x. is_expired now x ≡ true → is_expired now r ≡ true) (sym e)
      (λ k. ground (arith, k, o)) h

Changes-not_expired :
    (now : ℕ) {r s : OutboxRow} → Changes r s → is_expired now s ≡ true → is_expired now r ≡ true
Changes-not_expired now unchanged h = h
Changes-not_expired now (and_then p c) h = Changes-not_expired now p (Change-not_expired now c h)

-- The expired rows are among the ids.
abbrev pub Listed : ℕ → List ℕ → List OutboxRow → Type 0
Listed now ids rs = All (λ r. is_expired now r ≡ true → any (λ i. r.id == i) ids ≡ true) rs

Changes-Listed :
    (now : ℕ) (ids : List ℕ) (r s : OutboxRow)
    → Changes r s
    → (is_expired now r ≡ true → any (λ i. r.id == i) ids ≡ true)
    → is_expired now s ≡ true
    → any (λ i. s.id == i) ids ≡ true
Changes-Listed now ids r s c h k =
    subst (λ j. any (λ i. j == i) ids ≡ true) (sym (Changes-id c)) (h (Changes-not_expired now c k))

-- Giving up the listed ids leaves no expired row.
give_up_all-clean :
    (kinds : List MailKind) (quiet : All IsQuiet kinds) (clock now : ℕ) (db : Db) (ids : List ℕ)
    → DistinctIds db.outbox
    → Listed now ids db.outbox
    → All (λ r. is_expired now r ≡ false) (give_up_all kinds clock db ids).outbox
unfolding give_up_all
give_up_all-clean kinds quiet clock now db [] d l = All-imp db.outbox (λ r h. ground (arith, h)) l
give_up_all-clean kinds quiet clock now db (id ∷ ids) d l =
    let first = give_up-Evolves kinds quiet clock db id d in
    let kept =
      Evolves-All (λ r. is_expired now r ≡ true → any (λ i. r.id == i) (id ∷ ids) ≡ true)
        (Changes-Listed now (id ∷ ids)) first l in
    give_up_all-clean kinds quiet clock now (give_up kinds clock db id) ids
      (Evolves-DistinctIds first d)
      (All-imp2 (give_up kinds clock db id).outbox (λ r h g k. ground (arith, h k, g, k)) kept
        (give_up-Gone kinds clock db id))

all_expired-Listed :
    (now : ℕ) (rs : List OutboxRow) → Listed now (map (λ r. r.id) (keep (is_expired now) rs)) rs
all_expired-Listed now [] = tt
all_expired-Listed now (r ∷ rs) =
    let rest = all_expired-Listed now rs in
    elim (Bool-cases (is_expired now r)) [
      | inl t ↦ (λ h. ground (arith, t), All-imp rs (λ s g k. ground (arith, t, g k)) rest)
      | inr f ↦
          (λ h. absurd (ground (arith, f, h)), All-imp rs (λ s g k. ground (arith, f, g k)) rest)
    ]

-- After `give_up_expired`, no unsent row has reached its deadline.
pub give_up_expired-clean :
    (kinds : List MailKind) (quiet : All IsQuiet kinds) (clock now : ℕ) (db : Db)
    → DistinctIds db.outbox
    → All (λ r. is_expired now r ≡ false) (give_up_expired kinds clock db now).0.outbox
unfolding give_up_expired
give_up_expired-clean kinds quiet clock now db d =
    give_up_all-clean kinds quiet clock now db (map (λ r. r.id) (keep (is_expired now) db.outbox)) d
      (all_expired-Listed now db.outbox)
