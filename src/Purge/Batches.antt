-- ===== src/Purge/Batches.antt =====
-- The loop `in_batches` of bauth_server/src/jobs/purge.rs.
use bauth.Base.{
  ℕ, zero, suc, ◌+◌, ◌*◌, ◌<◌, ◌≡◌, inl, inr, leb, ltb, some, if◌then◌else◌, Bool-cases, arith, sym,
  ◌∙◌,
}
use bauth.Purge.{batch_size, in_batches}

abbrev pub least : ℕ → ℕ → ℕ
least a b = if leb a b then a else b

-- A statement that deletes some of the matching rows, a full batch if there are so many, where
-- `remove_all` deletes all of them; `good` holds of the states on the way.
pub record IsBatch {S : Type 0} (good : S → Type 0) (matching : S → ℕ) (remove_all : S → S)
    (delete_batch : S → S × ℕ) : Type 0 where
  pub sized : (s : S) → good s → (delete_batch s).1 ≡ least batch_size (matching s)
  pub kept : (s : S) → good s → good (delete_batch s).0
  pub fewer : (s : S) → good s → matching (delete_batch s).0 + (delete_batch s).1 ≡ matching s
  pub same : (s : S) → good s → remove_all (delete_batch s).0 ≡ remove_all s
  pub over : (s : S) → matching s ≡ 0 → remove_all s ≡ s

-- Enough fuel: the loop is one deletion of all rows, and gives their number.
pub in_batches_lem :
    {S : Type 0} (good : S → Type 0) (matching : S → ℕ) (remove_all : S → S)
    (delete_batch : S → S × ℕ)
    → IsBatch good matching remove_all delete_batch
    → (fuel : ℕ) (s : S) → good s
    → matching s < fuel * batch_size
    → in_batches delete_batch fuel s ≡ some (remove_all s, matching s)
unfolding in_batches
in_batches_lem good matching remove_all delete_batch b zero s g lt = absurd (omega arith)
in_batches_lem good matching remove_all delete_batch b (suc fuel) s g lt =
    let left = (delete_batch s).0 in
    let k = (delete_batch s).1 in
    elim (Bool-cases (ltb k batch_size)) [
      | inl short ↦
          let none_left : matching left ≡ 0 = ground (arith, b.sized s g, b.fewer s g) in
          let all_gone : left ≡ remove_all s = sym (b.over left none_left) ∙ b.same s g in
          let number : k ≡ matching s = ground (arith, b.sized s g, b.fewer s g) in
          rw short (λ i. some (all_gone i, number i))
      | inr full ↦
          let rest =
            in_batches_lem good matching remove_all delete_batch b fuel left (b.kept s g)
              (ground (arith, b.fewer s g)) in
          let number : k + matching left ≡ matching s = omega (arith, b.fewer s g) in
          rw full (rw rest (λ i. some (b.same s g i, number i)))
    ]
