-- ===== src/MagicLink/Guesses.antt =====
-- The wrong codes that are typed for an address from a start on: the statements of
-- bauth_server/src/queries/magic_links.rs that count them, on the emails created before and after it.
use bauth.Base.{
  ℕ, ◌+◌, ◌*◌, ◌≤◌, ◌<◌, ◌≡◌, refl, inl, inr, Bool, true, false, ◌&&◌, ok, none, List, [], ◌∷◌, All,
  All-map, ◌==◌, ==_iff, ◌=?◌, =?_sound, ltb, leb, Bool-cases, Option, arith,
}
use bauth.Base.Text.{Text}
use bauth.Base.Time.{days}
use bauth.Base.Table.{sum, update, select}
use bauth.Base.Table.Laws.{All-update, All-select, All-first_by}
use bauth.Base.Table.Keys.{sum-update_same, sum-update_miss, sum-update_bump, sum_mono}
use bauth.MagicCode.{code_ttl, max_failures_per_code, max_failures_per_day}
use bauth.MagicLink.Budget.{
  failures, IsBudgeted, IsCandidate, candidate_unique, IsBudgeted-create, IsBudgeted-set_consumed,
  IsBudgeted-record_code_failure, IsBudgeted-later,
}
use bauth.Queries.MagicLinks.{
  create, set_consumed, newer, newest_of_flow, in_last_day, record_failure, record_code_failure,
}
use bauth.Queries.Users.{normalized}
use bauth.Schema.{Db, MagicLink}

abbrev pub sent_to : Text → MagicLink → Bool
sent_to email m = m.email =? email

-- Emails created before the start, that may outlive it, or that end before it.
abbrev pub late : ℕ → Text → MagicLink → Bool
late start email m =
    sent_to email m && (ltb m.created_at start && ltb start (m.created_at + code_ttl))

abbrev pub dead : ℕ → Text → MagicLink → Bool
dead start email m =
    sent_to email m && (ltb m.created_at start && leb (m.created_at + code_ttl) start)

abbrev pub fresh : ℕ → Text → MagicLink → Bool
fresh start email m = sent_to email m && leb start m.created_at

abbrev pub wrong_codes : (MagicLink → Bool) → List MagicLink → ℕ
wrong_codes p rows = sum (λ m. m.code_failures) p rows

abbrev pub IsTimed : MagicLink → Type 0
IsTimed m = m.expires_at ≤ m.created_at + code_ttl

wrong_codes-split :
    (start : ℕ) (email : Text) (rows : List MagicLink)
    → wrong_codes (sent_to email) rows
      ≡ wrong_codes (fresh start email) rows
        + (wrong_codes (late start email) rows + wrong_codes (dead start email) rows)
unfolding sum
wrong_codes-split start email [] = refl
wrong_codes-split start email (m ∷ rows) = ground (arith, wrong_codes-split start email rows)

not_counted :
    (q : MagicLink → Bool) (m : MagicLink) (rows : List MagicLink)
    → q m ≡ false
    → wrong_codes q (m ∷ rows) ≡ wrong_codes q rows
unfolding sum
not_counted q m rows miss = ground (arith, miss)

-- What holds from the start on, `spent` wrong codes being typed for the emails that ended before.
pub record IsGuessed (start spent : ℕ) (email : Text) (now : ℕ) (rows : List MagicLink)
    : Type 0 where
  pub budgeted : IsBudgeted now rows
  pub timed : All IsTimed rows
  pub few : wrong_codes (late start email) rows ≤ max_failures_per_day
  pub same : wrong_codes (dead start email) rows ≤ spent

module _ (start spent : ℕ) (email : Text) (now : ℕ) (started : start ≤ now) where
  pub IsGuessed-later :
      (later : ℕ) (rows : List MagicLink)
      → now ≤ later
      → IsGuessed start spent email now rows
      → IsGuessed start spent email later rows
  IsGuessed-later later rows le g = record {
    budgeted = IsBudgeted-later now later rows le g.budgeted;
    timed = g.timed;
    few = g.few;
    same = g.same;
  }

  pub IsGuessed-set_consumed :
      (at : ℕ) (p : MagicLink → Bool) (rows : List MagicLink)
      → IsGuessed start spent email now rows
      → IsGuessed start spent email now (update p (set_consumed at) rows)
  IsGuessed-set_consumed at p rows g =
      let count = λ (q : MagicLink → Bool) (keep : (m : MagicLink) → q (set_consumed at m) ≡ q m).
        sum-update_same (λ m. m.code_failures) q p (set_consumed at) (λ m. refl) keep rows in
      record {
        budgeted = IsBudgeted-set_consumed now at p rows g.budgeted;
        timed = All-update IsTimed p (set_consumed at) (λ m hit t. t) rows g.timed;
        few = omega (arith, g.few, count (late start email) (λ m. refl));
        same = omega (arith, g.same, count (dead start email) (λ m. refl));
      }

  create_row :
      (lower : Text → Text) (id flow_id : ℕ) (user_id : Option ℕ) (to : Text)
      (token_hash code_hash : List ℕ) (db : Db) {given : Text} {left : Db}
      → create lower now id flow_id user_id to token_hash code_hash (now + code_ttl) db
        ≡ ok (given, left)
      → (m : MagicLink) × (left.magic_links ≡ m ∷ db.magic_links)
        × (m.created_at ≡ now)
        × (m.expires_at ≡ now + code_ttl)
  unfolding create
  create_row lower id flow_id user_id to token_hash code_hash db e =
      let row : MagicLink = record {
        id = id;
        flow_id = flow_id;
        user_id = user_id;
        email = normalized lower to;
        token_hash = token_hash;
        code_hash = code_hash;
        code_failures = 0;
        expires_at = now + code_ttl;
        consumed_at = none;
        created_at = now;
      } in
      (row, ground arith, refl, refl)

  pub IsGuessed-create :
      (lower : Text → Text) (id flow_id : ℕ) (user_id : Option ℕ) (to : Text)
      (token_hash code_hash : List ℕ) (db : Db) {given : Text} {left : Db}
      → IsGuessed start spent email now db.magic_links
      → create lower now id flow_id user_id to token_hash code_hash (now + code_ttl) db
        ≡ ok (given, left)
      → IsGuessed start spent email now left.magic_links
  IsGuessed-create lower id flow_id user_id to token_hash code_hash db {left} g e =
      let (m, rows, made, ends) =
        create_row lower id flow_id user_id to token_hash code_hash db e in
      record {
        budgeted =
            IsBudgeted-create lower now id flow_id user_id to token_hash code_hash (now + code_ttl)
              db g.budgeted e;
        timed = rw rows (omega arith, g.timed);
        few =
            rw rows (
              omega (arith, g.few, not_counted (late start email) m db.magic_links (ground arith)));
        same =
            rw rows (
              omega
                (arith, g.same, not_counted (dead start email) m db.magic_links (ground arith)));
      }

  -- A candidate of a time from the start on has not ended before the start.
  candidate-alive :
      (flow_id : ℕ) (db : Db) (link : MagicLink)
      → All IsTimed db.magic_links
      → IsCandidate now flow_id db link
      → link.expires_at ≤ link.created_at + code_ttl
  unfolding newest_of_flow
  candidate-alive flow_id db link t c =
      All-first_by IsTimed newer (select (λ m. m.flow_id == flow_id) db.magic_links)
        (All-select IsTimed (λ m. m.flow_id == flow_id) db.magic_links t) c.newest

  module _ (flow_id : ℕ) (link : MagicLink) (db : Db)
      (g : IsGuessed start spent email now db.magic_links)
      (c : IsCandidate now flow_id db link) where
    after : List MagicLink
    after = (record_code_failure now link.id max_failures_per_code db).magic_links

    -- A count that the candidate is not in stays.
    counted_miss :
        (q : MagicLink → Bool)
        → ((m : MagicLink) → q (record_failure now max_failures_per_code m) ≡ q m)
        → q link ≡ false
        → wrong_codes q after ≡ wrong_codes q db.magic_links
    unfolding after record_code_failure
    counted_miss q keep miss =
        sum-update_miss (λ m. m.code_failures) q (λ m. m.id == link.id)
          (record_failure now max_failures_per_code) keep db.magic_links
          (All-map (λ b. b.id ≡ link.id → b ≡ link) (λ b. (b.id == link.id) ≡ true → q b ≡ false)
            (λ b e hit. rw (e ((==_iff b.id link.id).0 hit)) miss) db.magic_links
            (candidate_unique now flow_id db link g.budgeted.distinct c))

    counted_hit :
        (q : MagicLink → Bool)
        → ((m : MagicLink) → q (record_failure now max_failures_per_code m) ≡ q m)
        → wrong_codes q after ≤ wrong_codes q db.magic_links + 1
    unfolding after record_code_failure
    counted_hit q keep =
        sum-update_bump (λ (m : MagicLink). m.id) (λ m. m.code_failures) q
          (record_failure now max_failures_per_code) link.id (λ m. refl) keep db.magic_links
          g.budgeted.distinct

    late_few : wrong_codes (late start email) after ≤ max_failures_per_day
    late_few = elim (Bool-cases (late start email link)) [
      | inr miss ↦ omega (arith, g.few, counted_miss (late start email) (λ m. refl) miss)
      | inl hit ↦
          let alive = candidate-alive flow_id db link g.timed c in
          let mine : link.email ≡ email = =?_sound link.email email (ground arith) in
          let soon : now < start + code_ttl = ground (arith, c.unexpired) in
          let recent : wrong_codes (late start email) db.magic_links
              ≤ failures now link.email db.magic_links =
            rw mine (
              sum_mono (λ m. m.code_failures) (late start email) (in_last_day now email)
                (λ m t. ground (arith, soon)) db.magic_links) in
          omega (arith, recent, c.under_budget, counted_hit (late start email) (λ m. refl))
    ]

    dead_same : wrong_codes (dead start email) after ≤ spent
    dead_same =
        let alive = candidate-alive flow_id db link g.timed c in
        omega
          (arith, g.same, counted_miss (dead start email) (λ m. refl) (ground (arith, c.unexpired)))

    pub IsGuessed-record_code_failure :
        IsGuessed start spent email now
          (record_code_failure now link.id max_failures_per_code db).magic_links
    unfolding after record_code_failure
    IsGuessed-record_code_failure = record {
      budgeted = IsBudgeted-record_code_failure now flow_id db link g.budgeted c;
      timed =
          All-update IsTimed (λ m. m.id == link.id) (record_failure now max_failures_per_code)
            (λ m hit t. t) db.magic_links g.timed;
      few = late_few;
      same = dead_same;
    }

-- At the start, the budget bounds the emails that may outlive it.
pub IsGuessed-start :
    (start : ℕ) (email : Text) (rows : List MagicLink)
    → IsBudgeted start rows
    → All IsTimed rows
    → IsGuessed start (wrong_codes (dead start email) rows) email start rows
IsGuessed-start start email rows b t = record {
  budgeted = b;
  timed = t;
  few = omega (
    arith,
    b.budget email,
    sum_mono (λ m. m.code_failures) (late start email) (in_last_day start email)
        (λ m h. ground arith) rows,
  );
  same = omega arith;
}

-- Within a day of the start, there are ten for the emails created before it and ten after.
pub IsGuessed-day :
    (start now : ℕ) (email : Text) (rows left : List MagicLink)
    → now < start + days 1
    → IsGuessed start (wrong_codes (dead start email) rows) email now left
    → wrong_codes (sent_to email) left ≤ wrong_codes (sent_to email) rows + 2 * max_failures_per_day
IsGuessed-day start now email rows left soon g = omega (
  arith,
  wrong_codes-split start email rows,
  wrong_codes-split start email left,
  g.few,
  g.same,
  g.budgeted.budget email,
  sum_mono (λ m. m.code_failures) (fresh start email) (in_last_day now email) (λ m h. ground arith)
      left,
)
