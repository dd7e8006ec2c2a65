-- ===== src/Auth/Session/Devices.antt =====
-- How many device cookies an account keeps (src/auth/session.rs).
use kohaku.Base.{
  ℕ, suc, ◌≤◌, ◌≡◌, ◌≢◌, ◌⊎◌, refl, sym, subst, Bool, true, false, not, ◌&&◌, List, [], ◌∷◌, ◌++◌,
  arith, All, keep, count, length, Bool-cases, inl, inr, ◌==◌,
}
use kohaku.Base.Table.{delete, max_id}
use kohaku.Base.Text.{Text}
use kohaku.Db.{Db, Device}
use kohaku.Auth.Session.{is_later, is_kept, evict, add_device, devices_kept}

abbrev In : Device → List Device → Type 0
In d [] = ⊥
In d (x ∷ xs) = (d ≡ x) ⊎ In d xs

count_mono :
    (p q : Device → Bool) (ds : List Device)
    → ((d : Device) → p d ≡ true → q d ≡ true)
    → count p ds ≤ count q ds
count_mono p q [] h = omega arith
count_mono p q (d ∷ ds) h = ground (arith, count_mono p q ds h, h d)

-- One more row has the wider test.
count_strict :
    (p q : Device → Bool) (m : Device) (ds : List Device)
    → ((d : Device) → p d ≡ true → q d ≡ true)
    → p m ≡ false
    → q m ≡ true
    → In m ds
    → suc (count p ds) ≤ count q ds
count_strict p q m [] h f t i = absurd i
count_strict p q m (d ∷ ds) h f t (inl e) =
    ground (arith, subst (λ x. p x ≡ false) e f, subst (λ x. q x ≡ true) e t, count_mono p q ds h)
count_strict p q m (d ∷ ds) h f t (inr i) = ground (arith, count_strict p q m ds h f t i, h d)

is_later_trans : (a b c : Device) → is_later a b ≡ true → is_later b c ≡ true → is_later a c ≡ true
is_later_trans a b c h k = ground arith

is_later_irrefl : (a : Device) → is_later a a ≡ false
is_later_irrefl a = ground arith

is_later_total : (a b : Device) → a.id ≢ b.id → (is_later a b ≡ true) ⊎ (is_later b a ≡ true)
is_later_total a b h = elim (Bool-cases (is_later a b)) [
  | inl t ↦ inl t
  | inr f ↦ inr (ground (arith, f, h))
]

abbrev Comparable : List Device → Type 0
Comparable [] = Unit
Comparable (x ∷ xs) = All (λ y. (is_later x y ≡ true) ⊎ (is_later y x ≡ true)) xs × Comparable xs

All-zip :
    {P Q R : Device → Type 0} (ds : List Device)
    → ((d : Device) → P d → Q d → R d)
    → All P ds
    → All Q ds
    → All R ds
All-zip [] h a b = tt
All-zip (d ∷ ds) h a b = (h d a.0 b.0, All-zip ds h a.1 b.1)

-- Of a list of comparable rows, all others are later than the earliest.
earliest :
    (P : Device → Type 0) (x : Device) (xs : List Device)
    → All P (x ∷ xs)
    → Comparable (x ∷ xs)
    → (m : Device) × P m × In m (x ∷ xs) × (length xs ≤ count (λ y. is_later y m) (x ∷ xs))
earliest P x [] a c = (x, a.0, inl refl, omega arith)
earliest P x (y ∷ ys) a c =
    let rest =
      earliest (λ r. P r × ((is_later x r ≡ true) ⊎ (is_later r x ≡ true))) y ys
        (All-zip (y ∷ ys) (λ d p q. (p, q)) a.1 c.0) c.1 in
    elim rest.1.1 [
      | inl l ↦ (rest.0, rest.1.0, inr rest.2, ground (arith, l, rest.3))
      | inr l ↦
          let more =
            count_strict (λ d. is_later d rest.0) (λ d. is_later d x) rest.0 (y ∷ ys)
              (λ d h. is_later_trans d rest.0 x h l) (is_later_irrefl rest.0) l rest.2 in
          (x, a.0, inl refl, ground (arith, more, rest.3))
    ]

-- Rows with distinct ids are comparable.
abbrev pub DistinctDevices : List Device → Type 0
DistinctDevices [] = Unit
DistinctDevices (d ∷ ds) = All (λ x. d.id ≢ x.id) ds × DistinctDevices ds

distinct-Comparable : (ds : List Device) → DistinctDevices ds → Comparable ds
distinct-Comparable [] d = tt
distinct-Comparable (x ∷ xs) d =
    (All-zip xs (λ y n _. is_later_total x y n) d.0 d.0, distinct-Comparable xs d.1)

keep-Comparable : (p : Device → Bool) (ds : List Device) → Comparable ds → Comparable (keep p ds)
keep-Comparable p [] c = tt
keep-Comparable p (d ∷ ds) c = elim (Bool-cases (p d)) [
  | inl t ↦ rw t (keep_part ds c.0, keep-Comparable p ds c.1)
  | inr f ↦ rw f (keep-Comparable p ds c.1)
]
  where
    keep_part :
        (xs : List Device)
        → All (λ y. (is_later d y ≡ true) ⊎ (is_later y d ≡ true)) xs
        → All (λ y. (is_later d y ≡ true) ⊎ (is_later y d ≡ true)) (keep p xs)
    keep_part [] a = tt
    keep_part (x ∷ xs) a = elim (Bool-cases (p x)) [
      | inl t ↦ rw t (a.0, keep_part xs a.1)
      | inr f ↦ rw f (keep_part xs a.1)
    ]

keep_holds : (p : Device → Bool) (ds : List Device) → All (λ d. p d ≡ true) (keep p ds)
keep_holds p [] = tt
keep_holds p (d ∷ ds) = elim (Bool-cases (p d)) [
  | inl t ↦ rw t (t, keep_holds p ds)
  | inr f ↦ rw f (keep_holds p ds)
]

count-keep :
    (p q : Device → Bool) (ds : List Device) → count q (keep p ds) ≤ count (λ d. p d && q d) ds
count-keep p q [] = omega arith
count-keep p q (d ∷ ds) = ground (arith, count-keep p q ds)

-- The kept rows of an account: as many as the limit at most.
kept-limit :
    (user_id : ℕ) (rows ks : List Device)
    → ks ≡ keep (λ d. d.user_id == user_id && is_kept user_id rows d) rows
    → Comparable rows
    → length ks ≤ devices_kept
kept-limit user_id rows [] e c = omega arith
kept-limit user_id rows (x ∷ xs) e c =
    let p = λ (d : Device). d.user_id == user_id && is_kept user_id rows d in
    let last =
      earliest (λ d. p d ≡ true) x xs (subst (All (λ d. p d ≡ true)) (sym e) (keep_holds p rows))
        (subst Comparable (sym e) (keep-Comparable p rows c)) in
    let later = λ (d : Device). is_later d last.0 in
    let few : count later (x ∷ xs) ≤ count (λ d. p d && later d) rows =
      subst (λ l. count later l ≤ count (λ d. p d && later d) rows) (sym e)
        (count-keep p later rows) in
    let own : count (λ d. p d && later d) rows ≤ count (λ d. d.user_id == user_id && later d) rows =
      count_mono (λ d. p d && later d) (λ d. d.user_id == user_id && later d) rows
        (λ d h. ground (arith, h)) in
    ground (arith, last.1, last.3, few, own)

count-evict :
    (user_id : ℕ) (k : Device → Bool) (ds : List Device)
    → count (λ d. d.user_id == user_id) (delete (λ d. d.user_id == user_id && not (k d)) ds)
      ≡ length (keep (λ d. d.user_id == user_id && k d) ds)
count-evict user_id k [] = refl
count-evict user_id k (d ∷ ds) = ground (arith, count-evict user_id k ds)

max_id-le : (ds : List Device) → All (λ d. d.id ≤ max_id (λ (x : Device). x.id) ds) ds
unfolding max_id
max_id-le [] = tt
max_id-le (d ∷ ds) =
    (omega arith, All-zip ds (λ x h _. omega (arith, h)) (max_id-le ds) (max_id-le ds))

append-distinct :
    (n : ℕ) (ds : List Device) (new : Device)
    → All (λ d. d.id ≤ n) ds
    → new.id ≡ suc n
    → DistinctDevices ds
    → DistinctDevices (ds ++ (new ∷ []))
append-distinct n [] new a e d = (tt, tt)
append-distinct n (x ∷ xs) new a e d = (others xs d.0, append-distinct n xs new a.1 e d.1)
  where
    others :
        (ys : List Device) → All (λ y. x.id ≢ y.id) ys → All (λ y. x.id ≢ y.id) (ys ++ (new ∷ []))
    others [] h = (ground (arith, a.0, e), tt)
    others (y ∷ ys) h = (h.0, others ys h.1)

-- After a device is added, its account has ten device cookies at most, whatever it had before.
pub add_device-limit :
    (db : Db) (user_id : ℕ) (token_hash : Text) (now : ℕ)
    → DistinctDevices db.known_devices
    → count (λ d. d.user_id == user_id) (add_device db user_id token_hash now).known_devices ≤ 10
unfolding add_device evict
add_device-limit db user_id token_hash now distinct =
    let new : Device = record {
      id = suc (max_id (λ (d : Device). d.id) db.known_devices);
      user_id = user_id;
      token_hash = token_hash;
      created_at = now;
    } in
    let rows = db.known_devices ++ (new ∷ []) in
    omega (
      arith,
      count-evict user_id (is_kept user_id rows) rows,
      kept-limit user_id rows (keep (λ d. d.user_id == user_id && is_kept user_id rows d) rows) refl
          (distinct-Comparable rows
            (append-distinct _ db.known_devices new (max_id-le db.known_devices) refl distinct)),
    )
