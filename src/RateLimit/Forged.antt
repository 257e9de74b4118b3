-- ===== src/RateLimit/Forged.antt =====
-- What a client puts into `X-Forwarded-For` itself: `resolve` of bauth_server/src/rate_limit.rs.
use bauth.Base.{
  ℕ, ◌≡◌, refl, inl, inr, Bool, true, not, ◌||◌, List, [], ◌∷◌, ◌++◌, map, any, none, some, ◌==◌,
  ==_refl, Bool-cases, Option-cases, arith, ap, ◌∙◌,
}
use bauth.Base.Text.{Text}
use bauth.Base.Text.Words.{trim, split}
use bauth.RateLimit.{IpAddr, Ips, is_trusted, walk, resolve}
use mathlib.Core.List.{reverse, reverse-cons, reverse-append, map-append}

split_cases :
    (sep : ℕ) (s : Text) → (piece : Text) × (pieces : List Text) × (split sep s ≡ piece ∷ pieces)
unfolding split
split_cases sep [] = ([], [], refl)
split_cases sep (c ∷ s) = elim (Bool-cases (c == sep)) [
  | inl t ↦ ([], split sep s, rw t refl)
  | inr t ↦ let (piece, pieces, e) = split_cases sep s in (c ∷ piece, pieces, rw (t, e) refl)
]

-- A separator between two texts separates their pieces.
split-append : (sep : ℕ) (s t : Text) → split sep (s ++ sep ∷ t) ≡ split sep s ++ split sep t
unfolding split
split-append sep [] t = rw (==_refl sep) refl
split-append sep (c ∷ s) t =
    let (piece, pieces, e) = split_cases sep s in
    let rest : split sep (s ++ sep ∷ t) ≡ piece ∷ (pieces ++ split sep t) =
      split-append sep s t ∙ ap (λ ps. ps ++ split sep t) e in
    elim (Bool-cases (c == sep)) [
      | inl hit ↦ rw hit (ap (λ ps. [] ∷ ps) (split-append sep s t))
      | inr miss ↦ rw (miss, rest, e) refl
    ]

module _ (ips : Ips) (trusted : List IpAddr) where
  -- The walk does not go past this hop.
  abbrev pub stops : Text → Bool
  stops hop = elim (ips.parse hop) [ none ↦ true | some ip ↦ not (is_trusted trusted ip) ]

  walk-append :
      (client : IpAddr) (hops more : List Text)
      → any stops hops ≡ true
      → walk ips trusted client (hops ++ more) ≡ walk ips trusted client hops
  unfolding walk
  walk-append client [] more e = absurd (ground arith)
  walk-append client (hop ∷ hops) more e = elim (Option-cases (ips.parse hop)) [
    | inl n ↦ ground arith
    | inr (ip, found) ↦ elim (Bool-cases (is_trusted trusted ip)) [
      | inl t ↦ let rest = walk-append ip hops more (ground arith) in ground (arith, rest)
      | inr t ↦ ground arith
    ]
  ]

  any-append_last :
      (hops : List Text) (hop : Text) → any stops (hops ++ hop ∷ []) ≡ (stops hop || any stops hops)
  any-append_last [] hop = refl
  any-append_last (h ∷ hops) hop = let rest = any-append_last hops hop in ground (arith, rest)

  any-reverse : (hops : List Text) → any stops (reverse hops) ≡ any stops hops
  any-reverse [] = refl
  any-reverse (hop ∷ hops) =
      ap (any stops) (reverse-cons hop hops)
      ∙ (any-append_last (reverse hops) hop ∙ ap (λ b. stops hop || b) (any-reverse hops))

  -- If one of the hops of a forwarded header is not the address of a trusted proxy, then
  -- whatever is put in front of the header, with a comma, does not change the address that the
  -- request is counted for.
  pub resolve-forged :
      (peer : IpAddr) (forged forwarded_for : Text)
      → any stops (map trim (split b',' forwarded_for)) ≡ true
      → resolve ips peer (forged ++ b',' ∷ forwarded_for) trusted
        ≡ resolve ips peer forwarded_for trusted
  unfolding resolve
  resolve-forged peer forged forwarded_for e =
      let pieces = split b',' forwarded_for in
      let before = split b',' forged in
      let hops : reverse (map trim (split b',' (forged ++ b',' ∷ forwarded_for)))
          ≡ reverse (map trim pieces) ++ reverse (map trim before) =
        ap (λ ps. reverse (map trim ps)) (split-append b',' forged forwarded_for)
        ∙ (ap reverse (map-append trim before pieces)
            ∙ reverse-append (map trim before) (map trim pieces)) in
      rw hops (
        rw
          (walk-append peer (reverse (map trim pieces)) (reverse (map trim before))
            (any-reverse (map trim pieces) ∙ e))
          refl)
