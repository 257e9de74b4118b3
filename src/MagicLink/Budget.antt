-- ===== src/MagicLink/Budget.antt =====
-- The budget of wrong codes over bauth.magic_links: the statements of
-- bauth_server/src/queries/magic_links.rs that count them.
use bauth.Base.{
  ℕ, ◌≤◌, ◌<◌, ◌≡◌, refl, inl, inr, Bool, true, false, none, some, ok, List, [], ◌∷◌, All, ◌==◌,
  ◌=?◌, =?_sound, is_some, if◌then◌else◌, Option-cases, Option, arith,
}
use bauth.Base.Text.{Text}
use bauth.Base.Table.{sum, update, exists, select}
use bauth.Base.Table.Laws.{All-select, All-first_by}
use bauth.Base.Table.Keys.{Distinct, All-Distinct}
use bauth.Base.Table.Attempts.{
  IsWithin, IsWithin-mono, IsWithin-update, IsWithin-cons, IsWithin-bump,
}
use bauth.MagicCode.{max_failures_per_code, max_failures_per_day}
use bauth.Schema.{Db, MagicLink}
use bauth.Queries.Users.{normalized}
use bauth.Queries.MagicLinks.{
  create, set_consumed, newer, newest_of_flow, in_last_day, find_code_candidate, record_failure,
  record_code_failure,
}

-- The wrong codes of the emails that were created for an address in the last day.
abbrev pub failures : ℕ → Text → List MagicLink → ℕ
failures now email rows = sum (λ m. m.code_failures) (in_last_day now email) rows

abbrev pub IsBudgeted : ℕ → List MagicLink → Type 0
IsBudgeted now rows =
    IsWithin (λ (m : MagicLink). m.id) (λ m. m.code_failures) (λ m. is_some m.consumed_at)
      max_failures_per_code max_failures_per_day (in_last_day now) rows

-- Time only takes rows out of the last day.
pub IsBudgeted-later :
    (now later : ℕ) (rows : List MagicLink)
    → now ≤ later
    → IsBudgeted now rows
    → IsBudgeted later rows
IsBudgeted-later now later rows le b =
    IsWithin-mono _ _ _ _ _ (in_last_day now) (in_last_day later) rows (λ k m h. ground arith) b

-- Marking links used changes no count.
pub IsBudgeted-set_consumed :
    (now at : ℕ) (p : MagicLink → Bool) (rows : List MagicLink)
    → IsBudgeted now rows
    → IsBudgeted now (update p (set_consumed at) rows)
IsBudgeted-set_consumed now at p rows b =
    IsWithin-update _ _ _ _ _ (in_last_day now) p (set_consumed at) (λ m. refl) (λ m. refl)
      (λ m. refl) (λ k m. refl) rows b

pub IsBudgeted-create :
    (lower : Text → Text) (now id flow_id : ℕ) (user_id : Option ℕ) (email : Text)
    (token_hash code_hash : List ℕ) (expires_at : ℕ) (db : Db) {to : Text} {left : Db}
    → IsBudgeted now db.magic_links
    → create lower now id flow_id user_id email token_hash code_hash expires_at db ≡ ok (to, left)
    → IsBudgeted now left.magic_links
unfolding create sum exists
IsBudgeted-create lower now id flow_id user_id email token_hash code_hash expires_at db {left} b e =
    let row : MagicLink = record {
      id = id;
      flow_id = flow_id;
      user_id = user_id;
      email = normalized lower email;
      token_hash = token_hash;
      code_hash = code_hash;
      code_failures = 0;
      expires_at = expires_at;
      consumed_at = none;
      created_at = now;
    } in
    let rows : row ∷ db.magic_links ≡ left.magic_links = ground arith in
    let fresh : exists (λ m. if m.id == id then true else m.token_hash =? token_hash) db.magic_links
        ≡ false =
      ground arith in
    rw (← rows) (
      IsWithin-cons _ _ _ _ _ (in_last_day now) row db.magic_links (weaken db.magic_links fresh)
        refl (omega arith) b)
  where
    weaken :
        (xs : List MagicLink)
        → exists (λ m. if m.id == id then true else m.token_hash =? token_hash) xs ≡ false
        → exists (λ m. m.id == id) xs ≡ false
    weaken [] h = refl
    weaken (x ∷ xs) h = ground (arith, weaken xs)

-- What the row that a code is checked against has passed.
pub record IsCandidate (now flow_id : ℕ) (db : Db) (link : MagicLink) : Type 0 where
  pub newest : newest_of_flow flow_id db ≡ some link
  pub pending : link.consumed_at ≡ none
  pub unexpired : now < link.expires_at
  pub under_cap : link.code_failures < max_failures_per_code
  pub under_budget : failures now link.email db.magic_links < max_failures_per_day

pub find_code_candidate_inv :
    (now flow_id : ℕ) (db : Db) (link : MagicLink)
    → find_code_candidate now flow_id max_failures_per_code max_failures_per_day db ≡ some link
    → IsCandidate now flow_id db link
unfolding find_code_candidate
find_code_candidate_inv now flow_id db link e = elim (Option-cases (newest_of_flow flow_id db)) [
  | inl n ↦ absurd (ground arith)
  | inr (m, found) ↦
      let same : m ≡ link = ground arith in
      rw (← same) (record {
        newest = found;
        pending = ground arith;
        unexpired = ground arith;
        under_cap = ground arith;
        under_budget = ground arith;
      })
]

-- The key of a candidate belongs to no other row.
pub candidate_unique :
    (now flow_id : ℕ) (db : Db) (link : MagicLink)
    → Distinct (λ m. m.id) db.magic_links
    → IsCandidate now flow_id db link
    → All (λ b. b.id ≡ link.id → b ≡ link) db.magic_links
unfolding newest_of_flow
candidate_unique now flow_id db link d c =
    All-first_by (λ a. All (λ b. b.id ≡ a.id → b ≡ a) db.magic_links) newer
      (select (λ m. m.flow_id == flow_id) db.magic_links)
      (All-select _ (λ m. m.flow_id == flow_id) db.magic_links
        (All-Distinct (λ m. m.id) db.magic_links d))
      c.newest

-- Counting a wrong code on the link that `find_code_candidate` lets pass keeps the budget:
-- distinct ids, five wrong codes for each email with the fifth consuming it, ten for the emails
-- that were created for an address in the last day.
pub IsBudgeted-record_code_failure :
    (now flow_id : ℕ) (db : Db) (link : MagicLink)
    → IsBudgeted now db.magic_links
    → IsCandidate now flow_id db link
    → IsBudgeted now (record_code_failure now link.id max_failures_per_code db).magic_links
unfolding record_code_failure
IsBudgeted-record_code_failure now flow_id db link b c =
    IsWithin-bump _ _ _ _ _ (in_last_day now) (record_failure now max_failures_per_code) link
      link.email (λ m. refl) (λ m. refl) (λ m full. ground arith) (λ k m. refl)
      (λ k t. ground (arith, =?_sound link.email k)) db.magic_links
      (candidate_unique now flow_id db link b.distinct c) c.under_cap c.under_budget b
