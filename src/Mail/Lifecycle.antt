-- ===== src/Mail/Lifecycle.antt =====
-- How a row of the outbox may change, and that src/mail/outbox.rs changes rows in no other way.
use kohaku.Base.{
  ℕ, ◌+◌, ◌<◌, ◌≡◌, ◌≢◌, refl, sym, ap, ◌∙◌, subst, Bool, true, false, ◌&&◌, none, some, List, [],
  ◌∷◌, arith, Bool-cases, inl, inr, All,
}
use kohaku.Base.Table.{update, delete, find}
use kohaku.Db.{OutboxRow, sent, given_up}
use kohaku.Mail.GiveUp.{is_unsent, has_id}
use kohaku.Mail.Retry.{deadline}

-- One change of an unsent row: a failure is counted, the next attempt is set within the deadline,
-- or a row that carries no token gets its outcome.
pub data Change (r r' : OutboxRow) : Type 0 where
  count_failure : r.outcome ≡ none → r' ≡ record r { attempts = r.attempts + 1 } → Change r r'
  schedule :
      (next : ℕ)
      → r.outcome ≡ none
      → next < deadline r.queued_at r.expires_at
      → r' ≡ record r { attempts = r.attempts + 1; next_attempt_at = next }
      → Change r r'
  deliver :
      r.outcome ≡ none
      → r.token ≡ false
      → r' ≡ record r { outcome = some sent; attempts = r.attempts + 1 }
      → Change r r'
  abandon :
      r.outcome ≡ none → r.token ≡ false → r' ≡ record r { outcome = some given_up } → Change r r'

pub data Changes (r : OutboxRow) : OutboxRow → Type 0 where
  unchanged : Changes r r
  and_then : {s t : OutboxRow} → Changes r s → Change s t → Changes r t

-- Each row of the second list comes from a row of the first, in order; others are deleted.
pub data Evolves : List OutboxRow → List OutboxRow → Type 0 where
  no_rows : Evolves [] []
  deleted : {r : OutboxRow} {rs ss : List OutboxRow} → Evolves rs ss → Evolves (r ∷ rs) ss
  kept :
      {r s : OutboxRow} {rs ss : List OutboxRow}
      → Changes r s
      → Evolves rs ss
      → Evolves (r ∷ rs) (s ∷ ss)

pub Evolves-refl : (rs : List OutboxRow) → Evolves rs rs
Evolves-refl [] = no_rows
Evolves-refl (r ∷ rs) = kept unchanged (Evolves-refl rs)

pub Changes-trans : {r s t : OutboxRow} → Changes r s → Changes s t → Changes r t
Changes-trans p unchanged = p
Changes-trans p (and_then q c) = and_then (Changes-trans p q) c

pub Evolves-trans : {rs ss ts : List OutboxRow} → Evolves rs ss → Evolves ss ts → Evolves rs ts
Evolves-trans no_rows q = q
Evolves-trans (deleted p) q = deleted (Evolves-trans p q)
Evolves-trans (kept c p) (deleted q) = deleted (Evolves-trans p q)
Evolves-trans (kept c p) (kept d q) = kept (Changes-trans c d) (Evolves-trans p q)

pub delete-Evolves : (p : OutboxRow → Bool) (rs : List OutboxRow) → Evolves rs (delete p rs)
delete-Evolves p [] = no_rows
delete-Evolves p (r ∷ rs) = elim (Bool-cases (p r)) [
  | inl e ↦ rw e (deleted (delete-Evolves p rs))
  | inr e ↦ rw e (kept unchanged (delete-Evolves p rs))
]

-- No two rows share an id.
abbrev pub DistinctIds : List OutboxRow → Type 0
DistinctIds [] = Unit
DistinctIds (r ∷ rs) = All (λ x. x.id ≢ r.id) rs × DistinctIds rs

All-weaken :
    {P Q : OutboxRow → Type 0} (rs : List OutboxRow)
    → ((r : OutboxRow) → P r → Q r)
    → All P rs
    → All Q rs
All-weaken [] h a = tt
All-weaken (r ∷ rs) h a = (h r a.0, All-weaken rs h a.1)

find-absent :
    (id : ℕ) (rs : List OutboxRow)
    → All (λ x. x.id ≢ id) rs
    → find (λ r. has_id id r && is_unsent r) rs ≡ none
unfolding find
find-absent id [] a = refl
find-absent id (r ∷ rs) a = ground (arith, find-absent id rs a.1)

-- The row that was read by id is the only one with the id.
pub find_unique :
    (id : ℕ) (row : OutboxRow) (rs : List OutboxRow)
    → DistinctIds rs
    → find (λ r. has_id id r && is_unsent r) rs ≡ some row
    → All (λ r. has_id id r ≡ true → r ≡ row) rs
unfolding find
find_unique id row [] d e = tt
find_unique id row (r ∷ rs) d e = elim (Bool-cases (has_id id r)) [
  | inl h ↦
      let here_id : r.id ≡ id = ground (arith, h) in
      let gone : All (λ x. x.id ≢ id) rs =
        subst (λ k. All (λ (x : OutboxRow). x.id ≢ k) rs) here_id d.0 in
      (
        λ h'. ground (arith, e, h, find-absent id rs gone),
        All-weaken rs (λ x n t. ground arith) gone,
      )
  | inr h ↦ (λ h'. ground arith, find_unique id row rs d.1 (ground (arith, e, h)))
]

pub update-Evolves :
    (p : OutboxRow → Bool) (f : OutboxRow → OutboxRow) (rs : List OutboxRow)
    → All (λ r. p r ≡ true → Change r (f r)) rs
    → Evolves rs (update p f rs)
update-Evolves p f [] a = no_rows
update-Evolves p f (r ∷ rs) a = elim (Bool-cases (p r)) [
  | inl e ↦ rw e (kept (and_then unchanged (a.0 e)) (update-Evolves p f rs a.1))
  | inr e ↦ rw e (kept unchanged (update-Evolves p f rs a.1))
]

-- A write by id changes the row that was read by id, and no other.
pub update_id-Evolves :
    (id : ℕ) (p : OutboxRow → Bool) (f : OutboxRow → OutboxRow) (row : OutboxRow)
    (rs : List OutboxRow)
    → ((r : OutboxRow) → p r ≡ true → has_id id r ≡ true)
    → DistinctIds rs
    → find (λ r. has_id id r && is_unsent r) rs ≡ some row
    → Change row (f row)
    → Evolves rs (update p f rs)
update_id-Evolves id p f row rs h d e c = update-Evolves p f rs (
    All-weaken rs (λ r u t. subst (λ x. Change x (f x)) (sym (u (h r t))) c)
      (find_unique id row rs d e))

Change-id : {r s : OutboxRow} → Change r s → s.id ≡ r.id
Change-id (count_failure o e) = ap (λ x. x.id) e
Change-id (schedule next o h e) = ap (λ x. x.id) e
Change-id (deliver o t e) = ap (λ x. x.id) e
Change-id (abandon o t e) = ap (λ x. x.id) e

pub Changes-id : {r s : OutboxRow} → Changes r s → s.id ≡ r.id
Changes-id unchanged = refl
Changes-id (and_then p c) = Change-id c ∙ Changes-id p

-- A property of rows that every change keeps holds of every row that is left.
pub Evolves-All :
    (P : OutboxRow → Type 0) {rs ss : List OutboxRow}
    → ((r s : OutboxRow) → Changes r s → P r → P s)
    → Evolves rs ss
    → All P rs
    → All P ss
Evolves-All P keep no_rows a = tt
Evolves-All P keep (deleted p) a = Evolves-All P keep p a.1
Evolves-All P keep (kept {r} {s} c p) a = (keep r s c a.0, Evolves-All P keep p a.1)

pub Evolves-DistinctIds : {rs ss : List OutboxRow} → Evolves rs ss → DistinctIds rs → DistinctIds ss
Evolves-DistinctIds no_rows d = tt
Evolves-DistinctIds (deleted p) d = Evolves-DistinctIds p d.1
Evolves-DistinctIds (kept {r} {s} {rs} {ss} c p) d = (
  subst (λ k. All (λ (x : OutboxRow). x.id ≢ k) ss) (sym (Changes-id c))
      (Evolves-All (λ (x : OutboxRow). x.id ≢ r.id)
        (λ a b k h. subst (λ j. j ≢ r.id) (sym (Changes-id k)) h) p d.0),
  Evolves-DistinctIds p d.1,
)
