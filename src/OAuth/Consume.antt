-- ===== src/OAuth/Consume.antt =====
-- `consume` and `find_consumed` of bauth_server/src/queries/authorization_codes.rs.
use bauth.Base.{
  ℕ, ◌≤◌, ◌<◌, ◌≡◌, refl, inl, inr, Bool, true, false, ◌&&◌, none, some, List, [], ◌∷◌, All, ◌==◌,
  ◌=?◌, =?_sound, is_none, is_some, and-eq-true, ltb→lt, Bool-cases, Option-cases, arith,
}
use bauth.Base.Table.{find, update}
use bauth.Base.Table.Laws.{find_sound, All-update_hit}
use bauth.Schema.{Db, AuthorizationCode, LoginFlow}
use bauth.Queries.AuthorizationCodes.{
  ConsumedCode, consume, is_usable, mark_consumed, find_consumed,
}

module _ (now : ℕ) (h : List ℕ) (db : Db) where
  -- What `consume` found, and the rows that it leaves.
  pub record IsConsumed (consumed : ConsumedCode) (tx : Db) : Type 0 where
    pub code : AuthorizationCode
    pub flow : LoginFlow
    pub found : find (is_usable now h) db.authorization_codes ≡ some code
    pub flow_found : find (λ f. f.id == code.flow_id) db.login_flows ≡ some flow
    pub hashed : code.code_hash ≡ h
    pub pending : is_none code.consumed_at ≡ true
    pub unexpired : now < code.expires_at
    pub same_id : consumed.id ≡ code.id
    pub same_user : consumed.user_id ≡ code.user_id
    pub same_client : consumed.client_id ≡ flow.client_id
    pub same_redirect : consumed.redirect_uri ≡ flow.redirect_uri
    pub same_challenge : consumed.code_challenge ≡ flow.code_challenge
    pub left : tx ≡ record db {
      authorization_codes = update (is_usable now h) (mark_consumed now) db.authorization_codes;
    }

  usable :
      (c : AuthorizationCode)
      → is_usable now h c ≡ true
      → (c.code_hash ≡ h) × (is_none c.consumed_at ≡ true) × (now < c.expires_at)
  usable c u =
      let (same, rest) = and-eq-true _ _ u in
      let (pending, live) = and-eq-true _ _ rest in (=?_sound _ _ same, pending, ltb→lt _ _ live)

  pub consume_inv :
      (consumed : ConsumedCode) (tx : Db)
      → consume now h db ≡ some (consumed, tx)
      → IsConsumed consumed tx
  unfolding consume
  consume_inv consumed tx e = elim (Option-cases (find (is_usable now h) db.authorization_codes)) [
    | inl n ↦ absurd (ground arith)
    | inr (c, found) ↦ elim (Option-cases (find (λ f. f.id == c.flow_id) db.login_flows)) [
      | inl n ↦ absurd (ground arith)
      | inr (f, flow_found) ↦
          let (hashed, pending, live) =
            usable c (find_sound (is_usable now h) db.authorization_codes found) in
          record {
            code = c;
            flow = f;
            found = found;
            flow_found = flow_found;
            hashed = hashed;
            pending = pending;
            unexpired = live;
            same_id = ground arith;
            same_user = ground arith;
            same_client = ground arith;
            same_redirect = ground arith;
            same_challenge = ground arith;
            left = ground arith;
          }
    ]
  ]

  -- From then on no row of this hash is usable.
  pub update_unusable :
      (later : ℕ)
      → now ≤ later
      → All
          (λ c. is_usable later h c ≡ false)
          (update (is_usable now h) (mark_consumed now) db.authorization_codes)
  update_unusable later le =
      All-update_hit (λ c. is_usable later h c ≡ false) (is_usable now h) (mark_consumed now)
        (λ c u. ground arith) (λ c u. ground arith) db.authorization_codes

find_of_All-false :
    {A : Type 0} (p : A → Bool) (xs : List A) → All (λ a. p a ≡ false) xs → find p xs ≡ none
unfolding find
find_of_All-false p [] h = refl
find_of_All-false p (x ∷ xs) h = ground (arith, find_of_All-false p xs)

pub consume_again :
    (later : ℕ) (h : List ℕ) (db : Db)
    → All (λ c. is_usable later h c ≡ false) db.authorization_codes
    → consume later h db ≡ none
unfolding consume
consume_again later h db a =
    rw (find_of_All-false (is_usable later h) db.authorization_codes a, consume)

-- The code that was consumed is found as such: any row of its hash has its id.
find_marked :
    (now : ℕ) (h : List ℕ) (id : ℕ) (rows : List AuthorizationCode) (c : AuthorizationCode)
    → All (λ a. a.code_hash ≡ h → a.id ≡ id) rows
    → find (is_usable now h) rows ≡ some c
    → (r : AuthorizationCode) × (find
          (λ a. (a.code_hash =? h) && is_some a.consumed_at)
          (update (is_usable now h) (mark_consumed now) rows)
        ≡ some r)
      × (r.id ≡ id)
unfolding find update
find_marked now h id [] c u e = cc
find_marked now h id (a ∷ rows) c u e = elim (Bool-cases (is_usable now h a)) [
  | inl t ↦
      let (same, rest) = and-eq-true _ _ t in
      (mark_consumed now a, rw (t, same), u.0 (=?_sound _ _ same))
  | inr t ↦ elim (Bool-cases ((a.code_hash =? h) && is_some a.consumed_at)) [
    | inl s ↦ let (same, rest) = and-eq-true _ _ s in (a, rw (t, s), u.0 (=?_sound _ _ same))
    | inr s ↦ rw (t, s) (find_marked now h id rows c u.1 (rw t at e))
  ]
]

pub find_consumed-consume :
    (now : ℕ) (h : List ℕ) (id : ℕ) (db : Db) (c : AuthorizationCode) (left : Db)
    → All (λ a. a.code_hash ≡ h → a.id ≡ id) db.authorization_codes
    → find (is_usable now h) db.authorization_codes ≡ some c
    → update (is_usable now h) (mark_consumed now) db.authorization_codes ≡ left.authorization_codes
    → find_consumed h left ≡ some id
unfolding find_consumed
find_consumed-consume now h id db c left u e same =
    let (r, found, ids) = find_marked now h id db.authorization_codes c u e in
    rw (rw same at found, find_consumed) (rw ids)
