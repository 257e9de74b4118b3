-- ===== src/Base/Table/Attempts.antt =====
-- A table whose rows count wrong attempts: a cap for each row, at which the row is spent, and a budget
-- for the rows of a key in a window.
use Prim.Native.Nat.{ℕ, ◌+◌, ◌≤◌, ◌<◌}
use mathlib.Core.Path.{◌≡◌}
use mathlib.Core.Logic.{inl, inr}
use mathlib.Core.Bool.{Bool, true, false}
use mathlib.Core.List.{List, [], ◌∷◌}
use native.Mathlib.Omega.{arith}
use bauth.Base.Tests.{if◌then◌else◌, ◌==◌, ==_iff, Bool-cases}
use bauth.Base.Lists.{All, All-map}
use bauth.Base.Table.{update, sum, exists, select}
use bauth.Base.Table.Laws.{All-update, All-select}
use bauth.Base.Table.Keys.{
  Distinct, Distinct-update, Distinct-select, sum-update_same, sum-update_miss, sum-update_bump,
  sum_mono, sum-select-le,
}

-- A row is spent once it has as many wrong attempts as the cap.
abbrev pub IsCapped : {A : Type 0} → (A → ℕ) → (A → Bool) → ℕ → A → Type 0
IsCapped fails spent cap a = (fails a ≤ cap) × (fails a ≡ cap → spent a ≡ true)

module _ {A K : Type 0} (key fails : A → ℕ) (spent : A → Bool) (cap day_cap : ℕ) where
  -- `recent k` tells the rows of `k` in the window.
  pub record IsWithin (recent : K → A → Bool) (rows : List A) : Type 0 where
    pub distinct : Distinct key rows
    pub capped : All (IsCapped fails spent cap) rows
    pub budget : (k : K) → sum fails (recent k) rows ≤ day_cap

  module _ (recent : K → A → Bool) where
    -- A smaller window.
    pub IsWithin-mono :
        (smaller : K → A → Bool) (rows : List A)
        → ((k : K) (a : A) → smaller k a ≡ true → recent k a ≡ true)
        → IsWithin recent rows
        → IsWithin smaller rows
    IsWithin-mono smaller rows imp w = record {
      distinct = w.distinct;
      capped = w.capped;
      budget = λ k. omega (arith, w.budget k, sum_mono fails (smaller k) (recent k) (imp k) rows);
    }

    -- Fewer rows.
    pub IsWithin-select :
        (p : A → Bool) (rows : List A) → IsWithin recent rows → IsWithin recent (select p rows)
    IsWithin-select p rows w = record {
      distinct = Distinct-select key p rows w.distinct;
      capped = All-select (IsCapped fails spent cap) p rows w.capped;
      budget = λ k. omega (arith, w.budget k, sum-select-le fails (recent k) p rows);
    }

    -- An update that spends rows.
    pub IsWithin-update :
        (p : A → Bool) (f : A → A)
        → ((a : A) → key (f a) ≡ key a)
        → ((a : A) → fails (f a) ≡ fails a)
        → ((a : A) → spent (f a) ≡ true)
        → ((k : K) (a : A) → recent k (f a) ≡ recent k a)
        → (rows : List A) → IsWithin recent rows
        → IsWithin recent (update p f rows)
    IsWithin-update p f same count done window rows w = record {
      distinct = Distinct-update key p f same rows w.distinct;
      capped =
          All-update (IsCapped fails spent cap) p f
            (λ a h c. (omega (arith, c.0, count a), λ e. done a)) rows w.capped;
      budget = λ k.
          omega (arith, w.budget k, sum-update_same fails (recent k) p f count (window k) rows);
    }

    -- A new row without an attempt.
    pub IsWithin-cons :
        (a : A) (rows : List A)
        → exists (λ b. key b == key a) rows ≡ false
        → fails a ≡ 0
        → 0 < cap
        → IsWithin recent rows
        → IsWithin recent (a ∷ rows)
    unfolding sum
    IsWithin-cons a rows fresh none some w = record {
      distinct = (fresh, w.distinct);
      capped = ((omega arith, λ full. absurd (omega arith)), w.capped);
      budget = λ k. ground (arith, w.budget k);
    }

    -- One more attempt on a row that is under both limits; the last one spends it.
    pub IsWithin-bump :
        (f : A → A) (link : A) (mine : K)
        → ((a : A) → key (f a) ≡ key a)
        → ((a : A) → fails (f a) ≡ fails a + 1)
        → ((a : A) → cap ≤ fails a + 1 → spent (f a) ≡ true)
        → ((k : K) (a : A) → recent k (f a) ≡ recent k a)
        → ((k : K) → recent k link ≡ true → k ≡ mine)
        → (rows : List A) → All (λ b. key b ≡ key link → b ≡ link) rows
        → fails link < cap
        → sum fails (recent mine) rows < day_cap
        → IsWithin recent rows
        → IsWithin recent (update (λ a. key a == key link) f rows)
    unfolding update
    IsWithin-bump f link mine same grow last window owner rows unique under below w = record {
      distinct = Distinct-update key (λ a. key a == key link) f same rows w.distinct;
      capped = capped rows unique w.capped;
      budget =
          λ k. elim (Bool-cases (recent k link)) [ inl t ↦ hit k (owner k t) | inr t ↦ miss k t ];
    }
      where
        capped :
            (xs : List A)
            → All (λ b. key b ≡ key link → b ≡ link) xs
            → All (IsCapped fails spent cap) xs
            → All (IsCapped fails spent cap) (update (λ a. key a == key link) f xs)
        capped [] u h = tt
        capped (x ∷ xs) u h = (one, capped xs u.1 h.1)
          where
            one : IsCapped fails spent cap (if key x == key link then f x else x)
            one = elim (Bool-cases (key x == key link)) [
              | inl t ↦
                  let e : x ≡ link = u.0 ((==_iff _ _).0 t) in
                  rw t
                    (rw e (omega (arith, grow link), λ full. last link (omega (arith, grow link))))
              | inr t ↦ rw t h.0
            ]

        hit :
            (k : K)
            → k ≡ mine
            → sum fails (recent k) (update (λ a. key a == key link) f rows) ≤ day_cap
        hit k e = rw e (
            omega (
              arith,
              sum-update_bump key fails (recent mine) f (key link) grow (window mine) rows
                  w.distinct,
            ))

        miss :
            (k : K)
            → recent k link ≡ false
            → sum fails (recent k) (update (λ a. key a == key link) f rows) ≤ day_cap
        miss k other = omega (
          arith,
          w.budget k,
          sum-update_miss fails (recent k) (λ a. key a == key link) f (window k) rows
              (All-map (λ b. key b ≡ key link → b ≡ link) _
                (λ b e hit. rw (e ((==_iff _ _).0 hit)) other) rows unique),
        )
