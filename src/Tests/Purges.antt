-- ===== src/Tests/Purges.antt =====
-- The purge on the fixtures, with the first rows of a table for those that LIMIT lets pass.
use bauth.Base.{
  ℕ, zero, suc, ◌+◌, ◌≡◌, refl, Bool, true, false, List, [], ◌∷◌, All, All-map, length, take, ◌==◌,
  none, some, if◌then◌else◌, leb, arith,
}
use bauth.Base.Table.{count, exists}
use bauth.Base.Table.Keys.{Distinct}
use bauth.Base.Table.Laws.{All-exists_false}
use bauth.Base.Text.{text}
use bauth.Purge.{Choice, purge}
use bauth.Purge.Batches.{least}
use bauth.Purge.Keyed.{IsKeyed}
use bauth.Purge.Kept
use bauth.Purge.Laws
use bauth.Purge.Laws.{purge_all, IsEnough}
use bauth.Purge.Rows.{IsLimit}
use bauth.Queries.Sessions
use bauth.Queries.Sessions.{AuthenticatedSession}
use bauth.Schema.{Db, User}
use bauth.Tests.Fixtures.{db, user}

abbrev first_ones : Choice
first_ones n ids id = exists (λ k. k == id) (take n ids)

count_same : (p q : ℕ → Bool) (xs : List ℕ) → All (λ k. p k ≡ q k) xs → count p xs ≡ count q xs
unfolding count
count_same p q [] h = refl
count_same p q (x ∷ xs) h = ground (arith, h.0, count_same p q xs h.1)

none_first : (xs : List ℕ) → count (λ id. false) xs ≡ 0
unfolding count
none_first [] = refl
none_first (x ∷ xs) = ground (arith, none_first xs)

first_ones_sized :
    (n : ℕ) (ids : List ℕ)
    → Distinct (λ k. k) ids
    → count (first_ones n ids) ids ≡ least n (length ids)
unfolding exists count
first_ones_sized zero ids d = ground (arith, none_first ids)
first_ones_sized (suc n) [] d = ground arith
first_ones_sized (suc n) (x ∷ xs) d =
    let rest = first_ones_sized n xs d.1 in
    let same = count_same (first_ones (suc n) (x ∷ xs)) (first_ones n xs) xs (
      All-map (λ k. (k == x) ≡ false) (λ k. first_ones (suc n) (x ∷ xs) k ≡ first_ones n xs k)
        (λ k h. ground (arith, h)) xs (All-exists_false (λ k. k == x) xs d.0)) in
    ground (arith, rest, same)

first_ones-IsLimit : IsLimit first_ones
first_ones-IsLimit = record { sized = λ n ids d. first_ones_sized n ids d }

-- A month and a day later, with a second account that is not verified.
abbrev late : ℕ
late = 2_700_000_000_000

abbrev verified : User
verified = record user { email_verified_at = some 1 }

abbrev crowded : Db
crowded = record db { users = record user { id = 2; email = text "x" } ∷ verified ∷ [] }

keyed : IsKeyed crowded
unfolding exists
keyed = record {
  login_flows = (refl, tt);
  email_changes = tt;
  confirmations = tt;
  sessions = (refl, tt);
  users = (refl, (refl, tt));
}

enough : IsEnough 1 (purge_all late crowded).0
unfolding purge_all count bauth.Queries.Cascades.delete_flows bauth.Queries.Cascades.delete_codes
    bauth.Queries.Cascades.delete_sessions bauth.Queries.Cascades.delete_users
    bauth.Base.Table.select bauth.Base.Table.update exists
enough = record {
  login_flows = omega arith;
  email_changes = omega arith;
  confirmations = omega arith;
  sessions = omega arith;
  unverified_users = omega arith;
}

purge_lem_example : purge first_ones 1 late crowded ≡ some (purge_all late crowded)
purge_lem_example = Laws.purge_lem first_ones 1 late crowded first_ones-IsLimit keyed enough

abbrev found : AuthenticatedSession
found = record { user_id = 1; email = text "a@b.c" }

logged_in : Sessions.find_authenticated 1_000_000_000_000 30 crowded ≡ some found
unfolding Sessions.find_authenticated bauth.Base.Table.find
logged_in = refl

purge_all-find_authenticated_example :
    Sessions.find_authenticated 1_000_000_000_000 30 (purge_all 1_000_000_000_000 crowded).1
    ≡ some found
unfolding bauth.Queries.Users.find_by_id bauth.Base.Table.find
purge_all-find_authenticated_example =
    Kept.purge_all-find_authenticated 1_000_000_000_000 30 crowded found verified keyed logged_in
      refl refl
