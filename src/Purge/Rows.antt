-- ===== src/Purge/Rows.antt =====
-- One batch of a DELETE of bauth_server/src/jobs/purge.rs over the rows of a table.
use bauth.Base.{
  ℕ, ◌+◌, ◌≡◌, refl, inl, inr, Bool, true, false, ◌&&◌, List, [], ◌∷◌, map, length, ◌==◌,
  if◌then◌else◌, Bool-cases, arith, ap, ◌∙◌,
}
use bauth.Base.Table.{select, delete, count, exists}
use bauth.Base.Table.Keys.{Distinct}
use bauth.Purge.{Choice, batch_size, in_batch}
use bauth.Purge.Batches.{least}

-- LIMIT lets as many rows pass as it says, if there are so many.
pub record IsLimit (choice : Choice) : Type 0 where
  pub sized :
      (n : ℕ) (ids : List ℕ)
      → Distinct (λ k. k) ids
      → count (choice n ids) ids ≡ least n (length ids)

module _ {A : Type 0} (key : A → ℕ) where
  count-select :
      (p : A → Bool) (c : ℕ → Bool) (xs : List A)
      → count (λ a. p a && c (key a)) xs ≡ count c (map key (select p xs))
  unfolding count select
  count-select p c [] = refl
  count-select p c (x ∷ xs) = ground (arith, count-select p c xs)

  length-select : (p : A → Bool) (xs : List A) → length (map key (select p xs)) ≡ count p xs
  unfolding count select
  length-select p [] = refl
  length-select p (x ∷ xs) = ground (arith, length-select p xs)

  exists-map :
      (k : ℕ) (p : A → Bool) (xs : List A)
      → exists (λ a. key a == k) xs ≡ false
      → exists (λ j. j == k) (map key (select p xs)) ≡ false
  unfolding exists select
  exists-map k p [] e = refl
  exists-map k p (x ∷ xs) e = ground (arith, exists-map k p xs)

  Distinct-map :
      (p : A → Bool) (xs : List A) → Distinct key xs → Distinct (λ k. k) (map key (select p xs))
  unfolding select
  Distinct-map p [] d = tt
  Distinct-map p (x ∷ xs) d = elim (Bool-cases (p x)) [
    | inl t ↦ rw t (exists-map (key x) p xs d.0, Distinct-map p xs d.1)
    | inr t ↦ rw t (Distinct-map p xs d.1)
  ]

  pub count-in_batch :
      (choice : Choice)
      → IsLimit choice
      → (p : A → Bool) (xs : List A) → Distinct key xs
      → count (in_batch choice key p xs) xs ≡ least batch_size (count p xs)
  count-in_batch choice l p xs d =
      count-select p (choice batch_size (map key (select p xs))) xs
      ∙ (l.sized batch_size (map key (select p xs)) (Distinct-map p xs d)
          ∙ ap (least batch_size) (length-select p xs))

module _ {A : Type 0} where
  -- A deletion of some of the rows, then of all of them.
  pub delete-delete :
      (p q r : A → Bool)
      → ((a : A) → r a ≡ (if q a then true else p a))
      → (xs : List A) → delete p (delete q xs) ≡ delete r xs
  unfolding select
  delete-delete p q r h [] = refl
  delete-delete p q r h (x ∷ xs) = ground (arith, h x, delete-delete p q r h xs)

  pub count-delete :
      (p q : A → Bool)
      → ((a : A) → q a ≡ true → p a ≡ true)
      → (xs : List A) → count p (delete q xs) + count q xs ≡ count p xs
  unfolding select count
  count-delete p q h [] = refl
  count-delete p q h (x ∷ xs) = ground (arith, h x, count-delete p q h xs)

  pub count-delete_same : (p : A → Bool) (xs : List A) → count p xs ≡ 0 → delete p xs ≡ xs
  unfolding select count
  count-delete_same p [] e = refl
  count-delete_same p (x ∷ xs) e = ground (arith, count-delete_same p xs)
