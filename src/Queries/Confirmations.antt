-- ===== src/Queries/Confirmations.antt =====
-- bauth_server/src/queries/confirmations.rs.
use bauth.Base.{
  ℕ, ◌+◌, Bool, true, false, ◌&&◌, List, Option, none, some, Result, ok, ◌>>=◌, ltb, leb, ◌==◌,
  ◌=?◌, is_none, if◌then◌else◌,
}
use bauth.Base.Text.{Text}
use bauth.Base.Table.{select, update, sum, exists, first_by}
use bauth.Base.Time.{days}
use bauth.Schema.{Db, Confirmation, SqlError, insert}

unfoldable pub create : ℕ → ℕ → ℕ → ℕ → Text → Text → List ℕ → ℕ → Db → Result SqlError Db
create now id user_id session_id action email code_hash expires_at db = do
  rows ←
      insert (exists (λ c. c.id == id) db.confirmations)
        (exists (λ u. u.id == user_id) db.users && exists (λ s. s.id == session_id) db.sessions)
        (record {
          id = id;
          user_id = user_id;
          session_id = session_id;
          action = action;
          email = email;
          code_hash = code_hash;
          code_failures = 0;
          expires_at = expires_at;
          consumed_at = none;
          created_at = now;
        })
        db.confirmations
  ok (record db { confirmations = rows })

-- `ORDER BY created_at DESC, id DESC`.
abbrev pub newer : Confirmation → Confirmation → Bool
newer a b =
    if ltb b.created_at a.created_at
    then true
    else if a.created_at == b.created_at
    then ltb b.id a.id
    else false

-- `WHERE session_id = $1 AND action = $2`.
abbrev pub is_about : ℕ → Text → Confirmation → Bool
is_about session_id action c = (c.session_id == session_id) && (c.action =? action)

unfoldable pub newest_about : ℕ → Text → Db → Option Confirmation
newest_about session_id action db =
    first_by newer (select (is_about session_id action) db.confirmations)

-- `user_id = $4 AND created_at > now() - interval '1 day'`: it is the confirmation that was created
-- in the last day, whenever its wrong codes were typed.
abbrev pub in_last_day : ℕ → ℕ → Confirmation → Bool
in_last_day now user_id c = (c.user_id == user_id) && ltb now (c.created_at + days 1)

unfoldable pub failures_in_last_day : ℕ → ℕ → Db → ℕ
failures_in_last_day now user_id db =
    sum (λ c. c.code_failures) (in_last_day now user_id) db.confirmations

-- `CodeCandidate` is the row: its id, its address and its hash are read. The lock on the account is
-- free, since requests are one after the other here.
unfoldable pub find_code_candidate : ℕ → ℕ → ℕ → Text → ℕ → ℕ → Db → Option Confirmation
unfolding newest_about failures_in_last_day
find_code_candidate now user_id session_id action max_code_failures max_user_failures db =
    elim (newest_about session_id action db) [
      | none ↦ none
      | some c ↦
          if is_none c.consumed_at
            && (ltb now c.expires_at
                && (ltb c.code_failures max_code_failures
                    && ltb (failures_in_last_day now user_id db) max_user_failures))
          then some c
          else none
    ]

abbrev pub record_failure : ℕ → ℕ → Confirmation → Confirmation
record_failure now max_code_failures c = record c {
  code_failures = c.code_failures + 1;
  consumed_at = if leb max_code_failures (c.code_failures + 1) then some now else none;
}

unfoldable pub record_code_failure : ℕ → ℕ → ℕ → Db → Db
record_code_failure now id max_code_failures db = record db {
  confirmations = update (λ c. c.id == id) (record_failure now max_code_failures) db.confirmations;
}

abbrev pub set_consumed : ℕ → Confirmation → Confirmation
set_consumed now c = record c { consumed_at = some now }

unfoldable pub consume_by_id : ℕ → ℕ → Db → Db
consume_by_id now id db = record db {
  confirmations = update (λ c. c.id == id) (set_consumed now) db.confirmations;
}
