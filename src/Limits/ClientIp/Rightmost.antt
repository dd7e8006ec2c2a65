-- ===== src/Limits/ClientIp/Rightmost.antt =====
-- A client cannot choose the address it is counted under (src/limits/client_ip.rs).
use mathlib.Core.List.{reverse-append, reverse-cons}
use kohaku.Base.{
  All-imp, ◌≡◌, refl, ap, ◌∙◌, Bool, true, false, not, Option, none, some, List, [], ◌∷◌, ◌++◌,
  reverse, arith, All, All-reverse,
}
use kohaku.Base.Table.{find}
use kohaku.Base.Text.{Text}
use kohaku.Limits.Address.{IpAddr}
use kohaku.Limits.ClientIp.{
  IpNet, trusts, canonical, parse_entries, unwrap_or, choose, forwarded, client_of, resolve,
}

module _ (p : IpAddr → Bool) where
  find_past :
      (xs ys : List IpAddr) (y : IpAddr)
      → All (λ x. p x ≡ false) xs
      → p y ≡ true
      → find p (xs ++ (y ∷ ys)) ≡ some y
  unfolding find
  find_past [] ys y a h = rw h refl
  find_past (x ∷ xs) ys y a h = rw a.0 (find_past xs ys y a.1 h)

  find-none : (xs : List IpAddr) → All (λ x. p x ≡ false) xs → find p xs ≡ none
  unfolding find
  find-none [] a = refl
  find-none (x ∷ xs) a = rw a.0 (find-none xs a.1)

push : (xs ys : List IpAddr) (y : IpAddr) → ((xs ++ (y ∷ [])) ++ ys) ≡ (xs ++ (y ∷ ys))
push [] ys y = refl
push (x ∷ xs) ys y = ap (λ l. x ∷ l) (push xs ys y)

flipped :
    (before proxies : List IpAddr) (entry : IpAddr)
    → reverse (before ++ (entry ∷ proxies)) ≡ (reverse proxies ++ (entry ∷ reverse before))
flipped before proxies entry =
    reverse-append before (entry ∷ proxies)
    ∙ (ap (λ l. l ++ reverse before) (reverse-cons entry proxies)
        ∙ push (reverse proxies) (reverse before) entry)

choose_found :
    (trusted : List IpNet) (peer entry : IpAddr) (entries : List IpAddr)
    → find (λ e. not (trusts trusted e)) (reverse entries) ≡ some entry
    → choose trusted peer entries ≡ entry
unfolding choose find
choose_found trusted peer entry [] e = absurd (ground (arith, e))
choose_found trusted peer entry (first ∷ entries) e = ap (λ o. unwrap_or o first) e

choose_first :
    (trusted : List IpNet) (peer first : IpAddr) (entries : List IpAddr)
    → find (λ e. not (trusts trusted e)) (reverse (first ∷ entries)) ≡ none
    → choose trusted peer (first ∷ entries) ≡ first
unfolding choose
choose_first trusted peer first entries e = ap (λ o. unwrap_or o first) e

module _ (is_utf8 : Text → Bool) (parse : Text → Option IpAddr) where
  untrusted_peer :
      (trusted : List IpNet) (peer : IpAddr) (lines : List Text)
      → trusts trusted peer ≡ false
      → client_of is_utf8 parse trusted peer lines ≡ peer
  unfolding client_of
  untrusted_peer trusted peer [] t = refl
  untrusted_peer trusted peer (line ∷ lines) t = rw t refl

  trusted_peer :
      (trusted : List IpNet) (peer : IpAddr) (lines : List Text)
      → trusts trusted peer ≡ true
      → client_of is_utf8 parse trusted peer lines ≡ forwarded is_utf8 parse trusted peer lines
  unfolding client_of parse_entries choose
  trusted_peer trusted peer [] t = refl
  trusted_peer trusted peer (line ∷ lines) t = rw t refl

  -- A peer that is no trusted proxy is the client, whatever it forwards. Behind a trusted peer the
  -- client is the last forwarded address that is no trusted proxy, whatever stands before it; the
  -- first one, if all are trusted proxies; and the peer, if any entry is malformed.
  pub resolve-rightmost :
      (peer : IpAddr) (lines : List Text) (trusted : List IpNet)
      → (trusts trusted (canonical peer) ≡ false
          → (resolve is_utf8 parse peer lines trusted).client ≡ canonical peer)
        × ((before proxies : List IpAddr) (entry : IpAddr)
            → trusts trusted (canonical peer) ≡ true
            → parse_entries is_utf8 parse lines ≡ some (before ++ (entry ∷ proxies))
            → trusts trusted entry ≡ false
            → All (λ a. trusts trusted a ≡ true) proxies
            → (resolve is_utf8 parse peer lines trusted).client ≡ entry)
        × ((first : IpAddr) (entries : List IpAddr)
            → trusts trusted (canonical peer) ≡ true
            → parse_entries is_utf8 parse lines ≡ some (first ∷ entries)
            → All (λ a. trusts trusted a ≡ true) (first ∷ entries)
            → (resolve is_utf8 parse peer lines trusted).client ≡ first)
        × (trusts trusted (canonical peer) ≡ true
            → parse_entries is_utf8 parse lines ≡ none
            → (resolve is_utf8 parse peer lines trusted).client ≡ canonical peer)
  unfolding resolve
  resolve-rightmost peer lines trusted =
      let outside = λ (e : IpAddr). not (trusts trusted e) in
      (
        λ t. untrusted_peer trusted (canonical peer) lines t,
        λ before proxies entry t e f a.
            trusted_peer trusted (canonical peer) lines t
            ∙ rw (forwarded, e)
                (choose_found trusted (canonical peer) entry (before ++ (entry ∷ proxies)) (
                  rw (flipped before proxies entry) (
                    find_past outside (reverse proxies) (reverse before) entry
                      (All-reverse (λ x. outside x ≡ false) proxies
                        (All-imp proxies (λ x h. ground (arith, h)) a))
                      (ground (arith, f))))),
        λ first entries t e a.
            trusted_peer trusted (canonical peer) lines t
            ∙ rw (forwarded, e)
                (choose_first trusted (canonical peer) first entries (
                  find-none outside (reverse (first ∷ entries)) (
                    All-reverse (λ x. outside x ≡ false) (first ∷ entries)
                      (All-imp (first ∷ entries) (λ x h. ground (arith, h)) a)))),
        λ t e. trusted_peer trusted (canonical peer) lines t ∙ rw (forwarded, e) refl,
      )
