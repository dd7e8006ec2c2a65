-- ===== src/Keys/Framing.antt =====
-- No two inputs of a MAC share an encoding (src/keys.rs).
use kohaku.Base.{ℕ, ◌^◌, ◌<◌, ◌≡◌, refl, ap, ap₂, List, [], ◌∷◌, ◌++◌, arith, length, All}
use kohaku.Base.Text.{Text}
use kohaku.Keys.{Purpose, keycheck, totp, mail_address, label, u32_bytes, framed, mac_input}

-- A part whose length fits into 32 bits.
abbrev pub Fits : Text → Type 0
Fits part = length part < 2 ^ 32

head-eq : {A : Type 0} (x y : A) (xs ys : List A) → (x ∷ xs) ≡ (y ∷ ys) → x ≡ y
head-eq x y xs ys e = ground arith

tail-eq : {A : Type 0} (x y : A) (xs ys : List A) → (x ∷ xs) ≡ (y ∷ ys) → xs ≡ ys
tail-eq x y xs ys e = ground arith

u32_bytes-injective :
    (n m : ℕ) (xs ys : Text)
    → n < 2 ^ 32
    → m < 2 ^ 32
    → (u32_bytes n ++ xs) ≡ (u32_bytes m ++ ys)
    → (n ≡ m) × (xs ≡ ys)
u32_bytes-injective n m xs ys h k e =
    let e1 = tail-eq _ _ _ _ e in
    let e2 = tail-eq _ _ _ _ e1 in
    let e3 = tail-eq _ _ _ _ e2 in
    (
      omega (
        arith,
        h,
        k,
        head-eq _ _ _ _ e,
        head-eq _ _ _ _ e1,
        head-eq _ _ _ _ e2,
        head-eq _ _ _ _ e3,
      ),
      tail-eq _ _ _ _ e3,
    )

append-injective : (a b x y : Text) → length a ≡ length b → (a ++ x) ≡ (b ++ y) → (a ≡ b) × (x ≡ y)
append-injective [] [] x y l e = (refl, e)
append-injective [] (b ∷ bs) x y l e = absurd (omega (arith, l))
append-injective (a ∷ xs) [] x y l e = absurd (omega (arith, l))
append-injective (a ∷ xs) (b ∷ bs) x y l e =
    let rest = append-injective xs bs x y (omega (arith, l)) (tail-eq _ _ _ _ e) in
    (ap₂ (λ c cs. c ∷ cs) (head-eq _ _ _ _ e) rest.0, rest.1)

framed-injective : (ps qs : List Text) → All Fits ps → All Fits qs → framed ps ≡ framed qs → ps ≡ qs
unfolding framed
framed-injective [] [] h k e = refl
framed-injective [] (q ∷ qs) h k e = ground arith
framed-injective (p ∷ ps) [] h k e = ground arith
framed-injective (p ∷ ps) (q ∷ qs) h k e =
    let outer = u32_bytes-injective (length p) (length q) _ _ h.0 k.0 e in
    let inner = append-injective p q (framed ps) (framed qs) outer.0 outer.1 in
    ap₂ (λ c cs. c ∷ cs) inner.0 (framed-injective ps qs h.1 k.1 inner.1)

label-injective : (p q : Purpose) → length (label p) ≡ length (label q) → p ≡ q
unfolding label
label-injective p q e = ground arith

label-Fits : (p : Purpose) → Fits (label p)
unfolding label
label-Fits keycheck = omega arith
label-Fits totp = omega arith
label-Fits mail_address = omega arith

-- Two uses of a MAC hash the same bytes only if they have one purpose and the same fields, as long
-- as each field's length fits into 32 bits.
pub mac_input-injective :
    (p q : Purpose) (fs gs : List Text)
    → All Fits fs
    → All Fits gs
    → mac_input p fs ≡ mac_input q gs
    → (p ≡ q) × (fs ≡ gs)
unfolding mac_input
mac_input-injective p q fs gs h k e =
    let same =
      framed-injective (label p ∷ fs) (label q ∷ gs) (label-Fits p, h) (label-Fits q, k) e in
    (label-injective p q (ap length (head-eq _ _ _ _ same)), tail-eq _ _ _ _ same)
