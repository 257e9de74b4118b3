-- ===== src/Account/Budget.antt =====
-- The budget of wrong codes over bauth.confirmations: the statements of
-- bauth_server/src/queries/confirmations.rs that count them.
use bauth.Base.{
  ℕ, ◌≤◌, ◌<◌, ◌≡◌, refl, inl, inr, Bool, true, false, none, some, ok, List, ◌∷◌, All, ◌==◌, ap,
  is_some, Option-cases, arith,
}
use bauth.Base.Text.{Text}
use bauth.Base.Table.{sum, select, exists}
use bauth.Base.Table.Laws.{All-select, All-select-true, All-first_by, All-update}
use bauth.Base.Table.Keys.{All-Distinct}
use bauth.Base.Table.Attempts.{
  IsWithin, IsWithin-mono, IsWithin-select, IsWithin-update, IsWithin-cons, IsWithin-bump,
}
use bauth.MagicCode.{max_failures_per_code, max_failures_per_day}
use bauth.Schema.{Db, Confirmation}
use bauth.Queries.Confirmations.{
  create, newer, is_about, newest_about, in_last_day, find_code_candidate, record_failure,
  record_code_failure, set_consumed, consume_by_id,
}
use bauth.Queries.Users

-- The wrong codes of the confirmations that were created for an account in the last day.
abbrev pub failures : ℕ → ℕ → List Confirmation → ℕ
failures now user_id rows = sum (λ c. c.code_failures) (in_last_day now user_id) rows

abbrev pub IsBudgeted : ℕ → List Confirmation → Type 0
IsBudgeted now rows =
    IsWithin (λ (c : Confirmation). c.id) (λ c. c.code_failures) (λ c. is_some c.consumed_at)
      max_failures_per_code max_failures_per_day (in_last_day now) rows

-- Each confirmation belongs to the account of its session.
abbrev pub IsOwned : (ℕ → ℕ) → List Confirmation → Type 0
IsOwned owner rows = All (λ c. c.user_id ≡ owner c.session_id) rows

-- Both, which the statements keep together.
abbrev pub IsGuarded : (ℕ → ℕ) → ℕ → Db → Type 0
IsGuarded owner now db = IsBudgeted now db.confirmations × IsOwned owner db.confirmations

pub IsGuarded-later :
    (owner : ℕ → ℕ) (now later : ℕ) (db : Db)
    → now ≤ later
    → IsGuarded owner now db
    → IsGuarded owner later db
IsGuarded-later owner now later db le g = (
  IsWithin-mono _ _ _ _ _ (in_last_day now) (in_last_day later) db.confirmations
      (λ k c h. ground arith) g.0,
  g.1,
)

pub IsGuarded-create :
    (owner : ℕ → ℕ) (now id user_id session_id : ℕ) (action email : Text) (code_hash : List ℕ)
    (expires_at : ℕ) (db : Db) {left : Db}
    → user_id ≡ owner session_id
    → IsGuarded owner now db
    → create now id user_id session_id action email code_hash expires_at db ≡ ok left
    → IsGuarded owner now left
unfolding create
IsGuarded-create owner now id user_id session_id action email code_hash expires_at db {left} o g e =
    let row : Confirmation = record {
      id = id;
      user_id = user_id;
      session_id = session_id;
      action = action;
      email = email;
      code_hash = code_hash;
      code_failures = 0;
      expires_at = expires_at;
      consumed_at = none;
      created_at = now;
    } in
    let rows : row ∷ db.confirmations ≡ left.confirmations = ground arith in
    let fresh : exists (λ c. c.id == id) db.confirmations ≡ false = ground arith in
    rw (← rows) (
      IsWithin-cons _ _ _ _ _ (in_last_day now) row db.confirmations fresh refl (omega arith) g.0,
      (o, g.1),
    )

pub IsGuarded-consume_by_id :
    (owner : ℕ → ℕ) (now id : ℕ) (db : Db)
    → IsGuarded owner now db
    → IsGuarded owner now (consume_by_id now id db)
unfolding consume_by_id
IsGuarded-consume_by_id owner now id db g = (
  IsWithin-update _ _ _ _ _ (in_last_day now) (λ c. c.id == id) (set_consumed now) (λ c. refl)
      (λ c. refl) (λ c. refl) (λ k c. refl) db.confirmations g.0,
  All-update (λ c. c.user_id ≡ owner c.session_id) _ (set_consumed now) (λ c h o. o)
      db.confirmations g.1,
)

-- What the row that a code is checked against has passed.
pub record IsCandidate (now user_id session_id : ℕ) (action : Text) (db : Db) (row : Confirmation)
    : Type 0 where
  pub newest : newest_about session_id action db ≡ some row
  pub pending : row.consumed_at ≡ none
  pub unexpired : now < row.expires_at
  pub under_cap : row.code_failures < max_failures_per_code
  pub under_budget : failures now user_id db.confirmations < max_failures_per_day

pub find_code_candidate_inv :
    (now user_id session_id : ℕ) (action : Text) (db : Db) (row : Confirmation)
    → find_code_candidate now user_id session_id action max_failures_per_code max_failures_per_day
        db
      ≡ some row
    → IsCandidate now user_id session_id action db row
unfolding find_code_candidate
find_code_candidate_inv now user_id session_id action db row e =
    elim (Option-cases (newest_about session_id action db)) [
      | inl n ↦ absurd (ground arith)
      | inr (c, found) ↦
          let same : c ≡ row = ground arith in
          rw (← same) (record {
            newest = found;
            pending = ground arith;
            unexpired = ground arith;
            under_cap = ground arith;
            under_budget = ground arith;
          })
    ]

pub find_code_candidate_lem :
    (now user_id session_id : ℕ) (action : Text) (db : Db) (row : Confirmation)
    → IsCandidate now user_id session_id action db row
    → find_code_candidate now user_id session_id action max_failures_per_code max_failures_per_day
        db
      ≡ some row
unfolding find_code_candidate
find_code_candidate_lem now user_id session_id action db row c =
    ground (arith, c.newest, c.pending, c.unexpired, c.under_cap, c.under_budget)

-- A property of all rows and of the rows about the session and the action holds of a candidate.
candidate :
    (P : Confirmation → Type 0) (session_id : ℕ) (action : Text) (db : Db) (row : Confirmation)
    → All P db.confirmations
    → newest_about session_id action db ≡ some row
    → P row
unfolding newest_about
candidate P session_id action db row all e =
    All-first_by P newer (select (is_about session_id action) db.confirmations)
      (All-select P (is_about session_id action) db.confirmations all) e

pub candidate_about :
    (session_id : ℕ) (action : Text) (db : Db) (row : Confirmation)
    → newest_about session_id action db ≡ some row
    → is_about session_id action row ≡ true
unfolding newest_about
candidate_about session_id action db row e =
    All-first_by (λ c. is_about session_id action c ≡ true) newer
      (select (is_about session_id action) db.confirmations)
      (All-select-true (is_about session_id action) db.confirmations) e

pub IsGuarded-record_code_failure :
    (owner : ℕ → ℕ) (now user_id session_id : ℕ) (action : Text) (db : Db) (row : Confirmation)
    → user_id ≡ owner session_id
    → IsGuarded owner now db
    → IsCandidate now user_id session_id action db row
    → IsGuarded owner now (record_code_failure now row.id max_failures_per_code db)
unfolding record_code_failure
IsGuarded-record_code_failure owner now user_id session_id action db row o g c =
    let mine : row.user_id ≡ owner row.session_id =
      candidate (λ r. r.user_id ≡ owner r.session_id) session_id action db row g.1 c.newest in
    let about = candidate_about session_id action db row c.newest in
    let here : row.session_id ≡ session_id = ground arith in
    let same : row.user_id ≡ user_id = ground (arith, ap owner here) in
    (
      IsWithin-bump _ _ _ _ _ (in_last_day now) (record_failure now max_failures_per_code) row
          user_id (λ r. refl) (λ r. refl) (λ r full. ground arith) (λ k r. refl)
          (λ k t. ground arith) db.confirmations
          (candidate (λ a. All (λ b. b.id ≡ a.id → b ≡ a) db.confirmations) session_id action db row
            (All-Distinct (λ r. r.id) db.confirmations g.0.distinct) c.newest)
          c.under_cap c.under_budget g.0,
      All-update (λ r. r.user_id ≡ owner r.session_id) _ _ (λ r h w. w) db.confirmations g.1,
    )

-- Fewer rows.
IsGuarded-select :
    (owner : ℕ → ℕ) (now : ℕ) (p : Confirmation → Bool) (rows : List Confirmation)
    → IsBudgeted now rows × IsOwned owner rows
    → IsBudgeted now (select p rows) × IsOwned owner (select p rows)
IsGuarded-select owner now p rows g = (
  IsWithin-select _ _ _ _ _ (in_last_day now) p rows g.0,
  All-select (λ c. c.user_id ≡ owner c.session_id) p rows g.1,
)

pub IsGuarded-delete :
    (owner : ℕ → ℕ) (now id : ℕ) (db : Db)
    → IsGuarded owner now db
    → IsGuarded owner now (Users.delete id db)
unfolding Users.delete
IsGuarded-delete owner now id db g =
    IsGuarded-select owner now _ _ (IsGuarded-select owner now _ db.confirmations g)
