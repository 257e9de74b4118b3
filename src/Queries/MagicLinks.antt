-- ===== src/Queries/MagicLinks.antt =====
-- bauth_server/src/queries/magic_links.rs.
use bauth.Base.{
  ℕ, ◌+◌, Bool, true, false, ◌&&◌, List, Option, none, some, Result, ok, ◌>>=◌, ltb, leb, ◌==◌,
  ◌=?◌, is_none, if◌then◌else◌,
}
use bauth.Base.Text.{Text}
use bauth.Base.Table.{find, select, update, sum, exists, first_by}
use bauth.Base.Time.{days}
use bauth.Schema.{Db, MagicLink, User, SqlError, insert}
use bauth.Queries.Users.{normalized}

abbrev pub is_user : Option ℕ → List User → Bool
is_user none users = true
is_user (some id) users = exists (λ u. u.id == id) users

unfoldable pub create :
    (Text → Text)
    → ℕ
    → ℕ
    → ℕ
    → Option ℕ
    → Text
    → List ℕ
    → List ℕ
    → ℕ
    → Db
    → Result SqlError (Text × Db)
create lower now id flow_id user_id email token_hash code_hash expires_at db = do
  rows ←
      insert (exists (λ m. if m.id == id then true else m.token_hash =? token_hash) db.magic_links)
        (exists (λ f. f.id == flow_id) db.login_flows && is_user user_id db.users)
        (record {
          id = id;
          flow_id = flow_id;
          user_id = user_id;
          email = normalized lower email;
          token_hash = token_hash;
          code_hash = code_hash;
          code_failures = 0;
          expires_at = expires_at;
          consumed_at = none;
          created_at = now;
        })
        db.magic_links
  ok (normalized lower email, record db { magic_links = rows })

abbrev pub set_consumed : ℕ → MagicLink → MagicLink
set_consumed now m = record m { consumed_at = some now }

abbrev pub is_usable : ℕ → List ℕ → MagicLink → Bool
is_usable now token_hash m =
    (m.token_hash =? token_hash) && (is_none m.consumed_at && ltb now m.expires_at)

-- `ConsumedMagicLink` is the row: its flow, its user and its address are read.
unfoldable pub consume : ℕ → List ℕ → Db → Option (MagicLink × Db)
consume now token_hash db = elim (find (is_usable now token_hash) db.magic_links) [
  | none ↦ none
  | some m ↦ some (
    m,
    record db { magic_links = update (is_usable now token_hash) (set_consumed now) db.magic_links },
  )
]

-- `ORDER BY created_at DESC, id DESC`.
abbrev pub newer : MagicLink → MagicLink → Bool
newer a b =
    if ltb b.created_at a.created_at
    then true
    else if a.created_at == b.created_at
    then ltb b.id a.id
    else false

unfoldable pub newest_of_flow : ℕ → Db → Option MagicLink
newest_of_flow flow_id db = first_by newer (select (λ m. m.flow_id == flow_id) db.magic_links)

-- `email = $2 AND created_at > now() - interval '1 day'`, and the sum of the wrong codes there:
-- it is the email that was created in the last day, whenever its wrong codes were typed.
abbrev pub in_last_day : ℕ → Text → MagicLink → Bool
in_last_day now email m = (m.email =? email) && ltb now (m.created_at + days 1)

unfoldable pub failures_in_last_day : ℕ → Text → Db → ℕ
failures_in_last_day now email db =
    sum (λ m. m.code_failures) (in_last_day now email) db.magic_links

-- Requests are one after the other here, so the address of the first statement is the newest
-- link's in the second, and the advisory lock is always free.
unfoldable pub find_code_candidate : ℕ → ℕ → ℕ → ℕ → Db → Option MagicLink
unfolding newest_of_flow failures_in_last_day
find_code_candidate now flow_id max_link_failures max_address_failures db =
    elim (newest_of_flow flow_id db) [
      | none ↦ none
      | some m ↦
          if is_none m.consumed_at
            && (ltb now m.expires_at
                && (ltb m.code_failures max_link_failures
                    && ltb (failures_in_last_day now m.email db) max_address_failures))
          then some m
          else none
    ]

abbrev pub record_failure : ℕ → ℕ → MagicLink → MagicLink
record_failure now max_link_failures m = record m {
  code_failures = m.code_failures + 1;
  consumed_at = if leb max_link_failures (m.code_failures + 1) then some now else none;
}

unfoldable pub record_code_failure : ℕ → ℕ → ℕ → Db → Db
record_code_failure now id max_link_failures db = record db {
  magic_links = update (λ m. m.id == id) (record_failure now max_link_failures) db.magic_links;
}

unfoldable pub consume_by_id : ℕ → ℕ → Db → Db
consume_by_id now id db = record db {
  magic_links = update (λ m. m.id == id) (set_consumed now) db.magic_links;
}
