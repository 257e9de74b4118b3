-- ===== src/Base/Table/Laws.antt =====
-- What the statements over a table do to its rows.

use mathlib.Core.Path.{◌≡◌, refl}
use mathlib.Core.Logic.{inl, inr}
use mathlib.Core.Bool.{Bool, true, false}
use mathlib.Core.Option.{none, some}
use mathlib.Core.List.{List, [], ◌∷◌}
use native.Mathlib.Omega.{arith}
use bauth.Base.Tests.{if◌then◌else◌, ◌==◌, Bool-cases, Option-cases}
use bauth.Base.Lists.{All}
use bauth.Base.Table.{find, select, update, count, exists, first_by}

module _ {A : Type 0} where
  pub exists_of_count : (p : A → Bool) (xs : List A) → (count p xs == 1) ≡ true → exists p xs ≡ true
  unfolding count exists
  exists_of_count p [] e = absurd (ground arith)
  exists_of_count p (x ∷ xs) e = ground (arith, exists_of_count p xs)

  pub find_sound : (p : A → Bool) (xs : List A) {a : A} → find p xs ≡ some a → p a ≡ true
  unfolding find
  find_sound p [] h = cc
  find_sound p (x ∷ xs) h = elim (Bool-cases (p x)) [
    | inl e ↦ ground arith
    | inr e ↦ find_sound p xs (ground arith)
  ]

  pub All-find {κ} :
      (P : A → Type κ) (p : A → Bool) (xs : List A) {a : A} → All P xs → find p xs ≡ some a → P a
  unfolding find
  All-find P p [] h e = cc
  All-find P p (x ∷ xs) {a} h e = elim (Bool-cases (p x)) [
    | inl t ↦ let same : x ≡ a = ground arith in rw (← same) h.0
    | inr t ↦ All-find P p xs h.1 (ground arith)
  ]

  pub All-find-none : (p : A → Bool) (xs : List A) → find p xs ≡ none → All (λ a. p a ≡ false) xs
  unfolding find
  All-find-none p [] e = tt
  All-find-none p (x ∷ xs) e = elim (Bool-cases (p x)) [
    | inl t ↦ absurd (ground arith)
    | inr t ↦ (t, All-find-none p xs (ground arith))
  ]

  pub All-update {κ} :
      (P : A → Type κ) (p : A → Bool) (f : A → A)
      → ((a : A) → p a ≡ true → P a → P (f a))
      → (xs : List A) → All P xs
      → All P (update p f xs)
  unfolding update
  All-update P p f keep [] h = tt
  All-update P p f keep (x ∷ xs) h = elim (Bool-cases (p x)) [
    | inl t ↦ rw t (keep x t h.0, All-update P p f keep xs h.1)
    | inr t ↦ rw t (h.0, All-update P p f keep xs h.1)
  ]

  -- From what holds before an update to what holds after it.
  pub All-update_both {κ μ} :
      (P : A → Type κ) (Q : A → Type μ) (p : A → Bool) (f : A → A)
      → ((a : A) → p a ≡ true → P a → Q (f a))
      → ((a : A) → p a ≡ false → P a → Q a)
      → (xs : List A) → All P xs
      → All Q (update p f xs)
  unfolding update
  All-update_both P Q p f hit miss [] h = tt
  All-update_both P Q p f hit miss (x ∷ xs) h = elim (Bool-cases (p x)) [
    | inl t ↦ rw t (hit x t h.0, All-update_both P Q p f hit miss xs h.1)
    | inr t ↦ rw t (miss x t h.0, All-update_both P Q p f hit miss xs h.1)
  ]

  pub All-select {κ} :
      (P : A → Type κ) (p : A → Bool) (xs : List A) → All P xs → All P (select p xs)
  unfolding select
  All-select P p [] h = tt
  All-select P p (x ∷ xs) h = elim (Bool-cases (p x)) [
    | inl t ↦ rw t (h.0, All-select P p xs h.1)
    | inr t ↦ rw t (All-select P p xs h.1)
  ]

  pub All-select-true : (p : A → Bool) (xs : List A) → All (λ a. p a ≡ true) (select p xs)
  unfolding select
  All-select-true p [] = tt
  All-select-true p (x ∷ xs) = elim (Bool-cases (p x)) [
    | inl t ↦ rw t (t, All-select-true p xs)
    | inr t ↦ rw t (All-select-true p xs)
  ]

  -- An update that leaves the columns of a lookup alone changes the row found, and not which.
  pub find-update :
      (q p : A → Bool) (f : A → A)
      → ((a : A) → q (f a) ≡ q a)
      → (xs : List A) {a : A} → find q xs ≡ some a
      → find q (update p f xs) ≡ some (if p a then f a else a)
  unfolding find update
  find-update q p f keep [] e = cc
  find-update q p f keep (x ∷ xs) {a} e = elim (Bool-cases (q x)) [
    | inl t ↦ let same : x ≡ a = ground arith in rw (← same) (ground (arith, keep x))
    | inr t ↦ ground (arith, keep x, find-update q p f keep xs {a = a})
  ]

  pub find-update-none :
      (q p : A → Bool) (f : A → A)
      → ((a : A) → q (f a) ≡ q a)
      → (xs : List A) → find q xs ≡ none
      → find q (update p f xs) ≡ none
  unfolding find update
  find-update-none q p f keep [] e = refl
  find-update-none q p f keep (x ∷ xs) e = ground (arith, keep x, find-update-none q p f keep xs)

  pub All-first_by {κ} :
      (P : A → Type κ) (beats : A → A → Bool) (xs : List A) {a : A}
      → All P xs
      → first_by beats xs ≡ some a
      → P a
  unfolding first_by
  All-first_by P beats [] h e = cc
  All-first_by P beats (x ∷ xs) {a} h e = elim (Option-cases (first_by beats xs)) [
    | inl n ↦ let same : x ≡ a = ground arith in rw (← same) h.0
    | inr (y, s) ↦ elim (Bool-cases (beats y x)) [
      | inl t ↦ let same : y ≡ a = ground arith in rw (← same) (All-first_by P beats xs h.1 s)
      | inr t ↦ let same : x ≡ a = ground arith in rw (← same) h.0
    ]
  ]

  pub find-head : (p : A → Bool) (a : A) (xs : List A) → p a ≡ true → find p (a ∷ xs) ≡ some a
  unfolding find
  find-head p a xs h = rw h

  pub update-head :
      (p : A → Bool) (h : A → A) (a : A) (xs : List A)
      → p a ≡ true
      → update p h (a ∷ xs) ≡ h a ∷ update p h xs
  unfolding update
  update-head p h a xs e = rw e

  pub exists-head : (p : A → Bool) (a : A) (xs : List A) → p a ≡ true → exists p (a ∷ xs) ≡ true
  unfolding exists
  exists-head p a xs h = rw h

  pub exists_of_find :
      (p : A → Bool) (xs : List A) {a : A} → find p xs ≡ some a → exists p xs ≡ true
  unfolding find exists
  exists_of_find p [] e = cc
  exists_of_find p (x ∷ xs) {a} e = ground (arith, exists_of_find p xs {a = a})

  pub find_of_exists :
      (p : A → Bool) (xs : List A) → exists p xs ≡ true → (a : A) × (find p xs ≡ some a)
  unfolding find exists
  find_of_exists p [] e = cc
  find_of_exists p (x ∷ xs) e = elim (Bool-cases (p x)) [
    | inl t ↦ (x, rw t)
    | inr t ↦ rw t (find_of_exists p xs (ground arith))
  ]

  pub exists_mono :
      (p q : A → Bool)
      → ((a : A) → p a ≡ true → q a ≡ true)
      → (xs : List A) → exists p xs ≡ true
      → exists q xs ≡ true
  unfolding exists
  exists_mono p q imp [] e = cc
  exists_mono p q imp (x ∷ xs) e = elim (Bool-cases (p x)) [
    | inl t ↦ ground (arith, imp x t)
    | inr t ↦ ground (arith, exists_mono p q imp xs)
  ]

  pub exists-update :
      (q p : A → Bool) (f : A → A)
      → ((a : A) → q (f a) ≡ q a)
      → (xs : List A) → exists q (update p f xs) ≡ exists q xs
  unfolding exists update
  exists-update q p f keep [] = refl
  exists-update q p f keep (x ∷ xs) = ground (arith, keep x, exists-update q p f keep xs)

  -- After an update of the rows that pass `p`, which makes `r` true, every row that passed `p` has `r`.
  pub All-update_hit {κ} :
      (P : A → Type κ) (p : A → Bool) (f : A → A)
      → ((a : A) → p a ≡ true → P (f a))
      → ((a : A) → p a ≡ false → P a)
      → (xs : List A) → All P (update p f xs)
  unfolding update
  All-update_hit P p f hit miss [] = tt
  All-update_hit P p f hit miss (x ∷ xs) = elim (Bool-cases (p x)) [
    | inl t ↦ rw t (hit x t, All-update_hit P p f hit miss xs)
    | inr t ↦ rw t (miss x t, All-update_hit P p f hit miss xs)
  ]

  pub All-exists_false :
      (p : A → Bool) (xs : List A) → exists p xs ≡ false → All (λ a. p a ≡ false) xs
  unfolding exists
  All-exists_false p [] e = tt
  All-exists_false p (x ∷ xs) e = elim (Bool-cases (p x)) [
    | inl t ↦ absurd (ground arith)
    | inr t ↦ (t, All-exists_false p xs (ground arith))
  ]

  -- An update that leaves a test alone commutes with the selection by it.
  pub select-update :
      (q p : A → Bool) (f : A → A)
      → ((a : A) → q (f a) ≡ q a)
      → (xs : List A) → select q (update p f xs) ≡ update p f (select q xs)
  unfolding select update
  select-update q p f keep [] = refl
  select-update q p f keep (x ∷ xs) = ground (arith, keep x, select-update q p f keep xs)

  first_by-update-none :
      (beats : A → A → Bool) (p : A → Bool) (f : A → A) (xs : List A)
      → first_by beats xs ≡ none
      → first_by beats (update p f xs) ≡ none
  unfolding first_by update
  first_by-update-none beats p f [] e = refl
  first_by-update-none beats p f (x ∷ xs) e = elim (Option-cases (first_by beats xs)) [
    | inl n ↦ absurd (ground arith)
    | inr (y, s) ↦ absurd (ground arith)
  ]

  -- An update that leaves the order alone changes the row that comes first, and not which.
  pub first_by-update :
      (beats : A → A → Bool) (p : A → Bool) (f : A → A)
      → ((a b : A) → beats (f a) b ≡ beats a b)
      → ((a b : A) → beats a (f b) ≡ beats a b)
      → (xs : List A) {a : A} → first_by beats xs ≡ some a
      → first_by beats (update p f xs) ≡ some (if p a then f a else a)
  unfolding first_by update
  first_by-update beats p f left right [] e = cc
  first_by-update beats p f left right (x ∷ xs) {a} e = elim (Option-cases (first_by beats xs)) [
    | inl n ↦
        let none_yet : first_by beats (update p f xs) ≡ none =
          first_by-update-none beats p f xs n in
        ground (arith, none_yet)
    | inr (y, s) ↦ ground (
      arith,
      first_by-update beats p f left right xs {a = y} s,
      left y x,
      right y x,
      left y (f x),
    )
  ]
