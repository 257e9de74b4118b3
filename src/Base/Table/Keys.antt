-- ===== src/Base/Table/Keys.antt =====
-- Tables with a primary key: an update by the key changes one row, and what sums make of that.
use Prim.Native.Nat.{ℕ, ◌+◌, ◌≤◌}
use mathlib.Core.Path.{◌≡◌, refl, ap}
use mathlib.Core.Logic.{inl, inr, ◌↔◌}
use mathlib.Core.Bool.{Bool, true, false, ◌&&◌}
use mathlib.Core.Option.{some}
use mathlib.Core.List.{List, [], ◌∷◌}
use native.Mathlib.Omega.{arith}
use bauth.Base.Tests.{if◌then◌else◌, ◌==◌, ==_refl, Bool-cases}
use bauth.Base.Lists.{All, All-map}
use bauth.Base.Table.{find, select, update, sum, exists}
use bauth.Base.Table.Laws.{exists-update, exists_mono, exists_of_find, All-exists_false}

module _ {A : Type 0} where
  pub update_none :
      (p : A → Bool) (f : A → A) (xs : List A) → exists p xs ≡ false → update p f xs ≡ xs
  unfolding exists update
  update_none p f [] e = refl
  update_none p f (x ∷ xs) e = ground (arith, update_none p f xs)

  -- An update that leaves the column and the test alone leaves the sum alone.
  pub sum-update_same :
      (n : A → ℕ) (q p : A → Bool) (f : A → A)
      → ((a : A) → n (f a) ≡ n a)
      → ((a : A) → q (f a) ≡ q a)
      → (xs : List A) → sum n q (update p f xs) ≡ sum n q xs
  unfolding sum update
  sum-update_same n q p f same keep [] = refl
  sum-update_same n q p f same keep (x ∷ xs) =
      ground (arith, same x, keep x, sum-update_same n q p f same keep xs)

  -- So does one whose rows are not in the sum.
  pub sum-update_miss :
      (n : A → ℕ) (q p : A → Bool) (f : A → A)
      → ((a : A) → q (f a) ≡ q a)
      → (xs : List A) → All (λ a. p a ≡ true → q a ≡ false) xs
      → sum n q (update p f xs) ≡ sum n q xs
  unfolding sum update
  sum-update_miss n q p f keep [] h = refl
  sum-update_miss n q p f keep (x ∷ xs) h = elim (Bool-cases (p x)) [
    | inl t ↦ ground (arith, keep x, h.0, sum-update_miss n q p f keep xs h.1)
    | inr t ↦ ground (arith, sum-update_miss n q p f keep xs h.1)
  ]

  pub sum_mono :
      (n : A → ℕ) (q r : A → Bool)
      → ((a : A) → q a ≡ true → r a ≡ true)
      → (xs : List A) → sum n q xs ≤ sum n r xs
  unfolding sum
  sum_mono n q r h [] = omega arith
  sum_mono n q r h (x ∷ xs) = ground (arith, h x, sum_mono n q r h xs)

  -- Fewer rows, a smaller sum.
  pub sum-select-le :
      (n : A → ℕ) (q p : A → Bool) (xs : List A) → sum n q (select p xs) ≤ sum n q xs
  unfolding sum select
  sum-select-le n q p [] = omega arith
  sum-select-le n q p (x ∷ xs) = ground (arith, sum-select-le n q p xs)

  pub exists-select-false :
      (q p : A → Bool) (xs : List A) → exists q xs ≡ false → exists q (select p xs) ≡ false
  unfolding exists select
  exists-select-false q p [] h = h
  exists-select-false q p (x ∷ xs) h = ground (arith, exists-select-false q p xs)

  module _ (key : A → ℕ) where
    abbrev pub Distinct : List A → Type 0
    Distinct [] = Unit {0}
    Distinct (x ∷ xs) = (exists (λ a. key a == key x) xs ≡ false) × Distinct xs

    pub Distinct-update :
        (p : A → Bool) (f : A → A)
        → ((a : A) → key (f a) ≡ key a)
        → (xs : List A) → Distinct xs
        → Distinct (update p f xs)
    unfolding update
    Distinct-update p f keep [] d = tt
    Distinct-update p f keep (x ∷ xs) d = (head, Distinct-update p f keep xs d.1)
      where
        same : key (if p x then f x else x) ≡ key x
        same = ground (arith, keep x)

        head : exists (λ a. key a == key (if p x then f x else x)) (update p f xs) ≡ false
        head = rw same (rw (exists-update (λ a. key a == key x) p f (λ a. rw (keep a)) xs) d.0)

    pub Distinct-select : (p : A → Bool) (xs : List A) → Distinct xs → Distinct (select p xs)
    unfolding select
    Distinct-select p [] d = tt
    Distinct-select p (x ∷ xs) d = elim (Bool-cases (p x)) [
      | inl t ↦ rw t (exists-select-false (λ a. key a == key x) p xs d.0, Distinct-select p xs d.1)
      | inr t ↦ rw t (Distinct-select p xs d.1)
    ]

    -- The key determines the row.
    pub All-Distinct :
        (xs : List A) → Distinct xs → All (λ a. All (λ b. key b ≡ key a → b ≡ a) xs) xs
    All-Distinct [] d = tt
    All-Distinct (x ∷ xs) d = (
      (λ e. refl, All-map _ _ (λ b miss e. absurd (ground (arith, ==_refl (key x)))) xs away),
      All-map _ _
          (λ a (pair : (key a == key x) ≡ false × All (λ b. key b ≡ key a → b ≡ a) xs).
            (λ e. absurd (ground (arith, ==_refl (key x))), pair.1))
          xs (both xs away (All-Distinct xs d.1)),
    )
      where
        away : All (λ a. (key a == key x) ≡ false) xs
        away = All-exists_false (λ a. key a == key x) xs d.0

        both :
            (ys : List A)
            → All (λ a. (key a == key x) ≡ false) ys
            → All (λ a. All (λ b. key b ≡ key a → b ≡ a) xs) ys
            → All (λ a. ((key a == key x) ≡ false) × All (λ b. key b ≡ key a → b ≡ a) xs) ys
        both [] h k = tt
        both (y ∷ ys) h k = ((h.0, k.0), both ys h.1 k.1)

    -- One row has the key: a column that grows by one makes the sum grow by one at most.
    pub sum-update_bump :
        (n : A → ℕ) (q : A → Bool) (f : A → A) (k : ℕ)
        → ((a : A) → n (f a) ≡ n a + 1)
        → ((a : A) → q (f a) ≡ q a)
        → (xs : List A) → Distinct xs
        → sum n q (update (λ a. key a == k) f xs) ≤ sum n q xs + 1
    unfolding sum update
    sum-update_bump n q f k grow keep [] d = omega arith
    sum-update_bump n q f k grow keep (x ∷ xs) d = elim (Bool-cases (key x == k)) [
      | inl t ↦
          let same : update (λ a. key a == k) f xs ≡ xs =
            update_none (λ a. key a == k) f xs (let e : key x ≡ k = ground arith in rw (← e) d.0) in
          ground (arith, grow x, keep x, same)
      | inr t ↦ ground (arith, sum-update_bump n q f k grow keep xs d.1)
    ]

    -- One row has the key: a test that some row with the key passes is passed by the one found.
    pub find-passes :
        (q : A → Bool) (k : ℕ) (xs : List A) {a : A}
        → Distinct xs
        → find (λ a. key a == k) xs ≡ some a
        → exists (λ a. (key a == k) && q a) xs ≡ true
        → q a ≡ true
    unfolding find exists
    find-passes q k [] d e h = cc
    find-passes q k (x ∷ xs) {a} d e h = elim (Bool-cases (key x == k)) [
      | inl t ↦ elim (Bool-cases (q x)) [
        | inl good ↦ let same : x ≡ a = ground arith in rw (← same) good
        | inr bad ↦
            let here : key x ≡ k = ground arith in
            let later : exists (λ a. key a == k) xs ≡ true =
              exists_mono (λ a. (key a == k) && q a) (λ a. key a == k) (λ b t. ground arith) xs
                (ground arith) in
            absurd (ground (arith, ap (λ j. exists (λ a. key a == j) xs) here, d.0, later))
      ]
      | inr t ↦ find-passes q k xs d.1 (ground arith) (ground arith)
    ]

    -- One row has the key: it is found by the key and a test exactly when it is found by the key
    -- and passes the test.
    pub find-key_iff :
        (q : A → Bool) (k : ℕ) (xs : List A) {a : A}
        → Distinct xs
        → (find (λ b. (key b == k) && q b) xs ≡ some a)
          ↔ ((find (λ b. key b == k) xs ≡ some a) × (q a ≡ true))
    unfolding find exists
    find-key_iff q k xs {a} d = (to xs d, λ (e, good). from xs e good)
      where
        to :
            (xs : List A)
            → Distinct xs
            → find (λ b. (key b == k) && q b) xs ≡ some a
            → (find (λ b. key b == k) xs ≡ some a) × (q a ≡ true)
        to [] d e = cc
        to (x ∷ xs) d e = elim (Bool-cases (key x == k)) [
          | inl t ↦ elim (Bool-cases (q x)) [
            | inl good ↦ let same : x ≡ a = ground arith in (ground arith, rw (← same) good)
            | inr bad ↦
                let here : key x ≡ k = ground arith in
                let later : exists (λ b. key b == k) xs ≡ true =
                  exists_mono (λ b. (key b == k) && q b) (λ b. key b == k) (λ b t. ground arith) xs
                    (exists_of_find (λ b. (key b == k) && q b) xs {a = a} (ground arith)) in
                absurd (ground (arith, ap (λ j. exists (λ b. key b == j) xs) here, d.0, later))
          ]
          | inr t ↦ ground (arith, to xs d.1)
        ]

        from :
            (xs : List A)
            → find (λ b. key b == k) xs ≡ some a
            → q a ≡ true
            → find (λ b. (key b == k) && q b) xs ≡ some a
        from [] e good = cc
        from (x ∷ xs) e good = elim (Bool-cases (key x == k)) [
          | inl t ↦ let same : x ≡ a = ground arith in ground (arith, ap q same)
          | inr t ↦ ground (arith, from xs)
        ]
