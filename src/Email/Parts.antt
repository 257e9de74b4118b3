-- ===== src/Email/Parts.antt =====
-- The searches of bauth_server/src/email.rs in a text, and what they say of its parts.
use bauth.Base.{
  ℕ, ◌≡◌, ◌≢◌, ◌⊎◌, ◌∙◌, ap, refl, Bool, All, All-map, ◌↔◌, true, false, [], ◌∷◌, ◌++◌, some, any,
  ◌==◌, ==_refl, ==_iff, inl, inr, Bool-cases, Option-cases, arith,
}
use bauth.Base.Text.{Text}
use bauth.Base.Text.Words.{split_once}
use bauth.Email.{contains, starts_with, ends_with}

-- The search stops at the first separator.
pub split_once_iff :
    (sep : ℕ) (s before after : Text)
    → (split_once sep s ≡ some (before, after))
      ↔ ((s ≡ before ++ sep ∷ after) × (contains sep before ≡ false))
unfolding split_once
split_once_iff sep s before after = (to s before, from s before)
  where
    to :
        (s before : Text)
        → split_once sep s ≡ some (before, after)
        → (s ≡ before ++ sep ∷ after) × (contains sep before ≡ false)
    to [] before h = absurd (ground arith)
    to (c ∷ s) before h = elim (Bool-cases (c == sep)) [
      | inl t ↦
          let same : c ≡ sep = (==_iff c sep).0 t in
          let empty : [] ≡ before = ground arith in rw (← empty) (ground arith, refl)
      | inr t ↦ elim (Option-cases (split_once sep s)) [
        | inl n ↦ absurd (ground arith)
        | inr ((b, a), r) ↦
            let whole : c ∷ b ≡ before = ground arith in
            let rest : split_once sep s ≡ some (b, after) = ground arith in
            rw (← whole) (ground (arith, to s b rest), ground (arith, to s b rest))
      ]
    ]

    from :
        (s before : Text)
        → (s ≡ before ++ sep ∷ after) × (contains sep before ≡ false)
        → split_once sep s ≡ some (before, after)
    from s [] (e, h) = rw e (ground (arith, ==_refl sep))
    from s (b ∷ before) (e, h) =
        let rest = from (before ++ sep ∷ after) before (refl, ground arith) in
        rw e (ground (arith, rest))

pub any-false : (p : ℕ → Bool) (s : Text) → (any p s ≡ false) ↔ All (λ c. p c ≡ false) s
any-false p s = (to s, from s)
  where
    to : (s : Text) → any p s ≡ false → All (λ c. p c ≡ false) s
    to [] h = tt
    to (c ∷ s) h = (ground arith, to s (ground arith))

    from : (s : Text) → All (λ c. p c ≡ false) s → any p s ≡ false
    from [] h = refl
    from (c ∷ s) h = rw h.0 (from s h.1)

pub contains-false : (sep : ℕ) (s : Text) → (contains sep s ≡ false) ↔ All (λ c. c ≢ sep) s
contains-false sep s = (
  λ h.
      All-map (λ c. (c == sep) ≡ false) (λ c. c ≢ sep)
        (λ c (miss : (c == sep) ≡ false) same. ground (arith, miss, same, ==_refl sep)) s
        ((any-false (λ c. c == sep) s).0 h),
  λ h.
      (any-false (λ c. c == sep) s).1
        (All-map (λ c. c ≢ sep) (λ c. (c == sep) ≡ false) ==_false s h),
)
  where
    ==_false : (c : ℕ) → c ≢ sep → (c == sep) ≡ false
    ==_false c differs = elim (Bool-cases (c == sep)) [
      | inl t ↦ absurd (differs ((==_iff c sep).0 t))
      | inr t ↦ t
    ]

-- A separator that a text contains has a text before it and one after it.
pub contains-true :
    (sep : ℕ) (s : Text)
    → (contains sep s ≡ true) ↔ ((before : Text) × (after : Text) × (s ≡ before ++ sep ∷ after))
contains-true sep s = (to s, λ (before, after, e). rw e (from before after))
  where
    to :
        (s : Text)
        → contains sep s ≡ true
        → (before : Text) × (after : Text) × (s ≡ before ++ sep ∷ after)
    to [] h = absurd (ground arith)
    to (c ∷ s) h = elim (Bool-cases (c == sep)) [
      | inl t ↦ ([], s, rw ((==_iff c sep).0 t) refl)
      | inr t ↦
          let (before, after, e) = to s (ground arith) in (c ∷ before, after, ap (λ z. c ∷ z) e)
    ]

    from : (before after : Text) → contains sep (before ++ sep ∷ after) ≡ true
    from [] after = ground (arith, ==_refl sep)
    from (b ∷ before) after = ground (arith, from before after)

pub starts_with-false :
    (sep : ℕ) (s : Text) → (starts_with sep s ≡ false) ↔ ((rest : Text) → s ≢ sep ∷ rest)
starts_with-false sep [] = (λ h rest e. ground arith, λ h. refl)
starts_with-false sep (c ∷ s) = (
  λ h rest e. ground (arith, ==_refl sep),
  λ h. elim (Bool-cases (c == sep)) [
    | inl t ↦ absurd (h s (ap (λ z. z ∷ s) ((==_iff c sep).0 t)))
    | inr t ↦ t
  ],
)

ends_with-snoc : (sep : ℕ) (front : Text) (c : ℕ) → ends_with sep (front ++ c ∷ []) ≡ (c == sep)
ends_with-snoc sep [] c = refl
ends_with-snoc sep (a ∷ []) c = refl
ends_with-snoc sep (a ∷ b ∷ front) c = ends_with-snoc sep (b ∷ front) c

-- A text is empty or ends in a character.
snoc-cases : (s : Text) → (s ≡ []) ⊎ ((front : Text) × (c : ℕ) × (s ≡ front ++ c ∷ []))
snoc-cases [] = inl refl
snoc-cases (a ∷ s) = elim (snoc-cases s) [
  | inl e ↦ inr ([], a, ap (λ z. a ∷ z) e)
  | inr (front, c, e) ↦ inr (a ∷ front, c, ap (λ z. a ∷ z) e)
]

pub ends_with-false :
    (sep : ℕ) (s : Text) → (ends_with sep s ≡ false) ↔ ((front : Text) → s ≢ front ++ sep ∷ [])
ends_with-false sep s = (
  λ h front e. ground (arith, ap (ends_with sep) e, ends_with-snoc sep front sep, ==_refl sep),
  λ h. elim (snoc-cases s) [
    | inl e ↦ rw e refl
    | inr (front, c, e) ↦ elim (Bool-cases (c == sep)) [
      | inl t ↦ absurd (h front (e ∙ ap (λ z. front ++ z ∷ []) ((==_iff c sep).0 t)))
      | inr t ↦ rw (e, ends_with-snoc sep front c) t
    ]
  ],
)
