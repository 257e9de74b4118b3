-- ===== src/Base/Table.antt =====
-- A database table as the list of its rows, newest insertion first, and the statements over it.
pub mod Laws
pub mod Keys
pub mod Attempts
use Prim.Native.Nat.{ℕ, ◌+◌}
use mathlib.Core.Bool.{Bool, true, false, not}
use mathlib.Core.Option.{Option, none, some}
use mathlib.Core.List.{List, [], ◌∷◌}
use bauth.Base.Tests.{if◌then◌else◌}

module _ {A : Type 0} where
  -- `SELECT … WHERE p`, `fetch_optional`.
  unfoldable pub find : (A → Bool) → List A → Option A
  find p [] = none
  find p (x ∷ xs) = if p x then some x else find p xs

  -- `SELECT … WHERE p`, `fetch_all`.
  unfoldable pub select : (A → Bool) → List A → List A
  select p [] = []
  select p (x ∷ xs) = let rest = select p xs in if p x then x ∷ rest else rest

  -- `DELETE … WHERE p`.
  abbrev pub delete : (A → Bool) → List A → List A
  delete p xs = select (λ a. not (p a)) xs

  -- `UPDATE … SET f WHERE p`.
  unfoldable pub update : (A → Bool) → (A → A) → List A → List A
  update p f [] = []
  update p f (x ∷ xs) = (if p x then f x else x) ∷ update p f xs

  -- `rows_affected`, and `SELECT count(*)`.
  unfoldable pub count : (A → Bool) → List A → ℕ
  count p [] = 0
  count p (x ∷ xs) = (if p x then 1 else 0) + count p xs

  -- `SELECT sum(n) … WHERE p`.
  unfoldable pub sum : (A → ℕ) → (A → Bool) → List A → ℕ
  sum n p [] = 0
  sum n p (x ∷ xs) = (if p x then n x else 0) + sum n p xs

  -- `SELECT EXISTS (… WHERE p)`.
  unfoldable pub exists : (A → Bool) → List A → Bool
  exists p [] = false
  exists p (x ∷ xs) = if p x then true else exists p xs

  -- `ORDER BY … DESC LIMIT 1`: the first row that no later one beats.
  unfoldable pub first_by : (A → A → Bool) → List A → Option A
  first_by beats [] = none
  first_by beats (x ∷ xs) = elim (first_by beats xs) [
    | none ↦ some x
    | some y ↦ if beats y x then some y else some x
  ]
