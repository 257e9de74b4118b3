-- ===== src/SigningKeys/Loaded.antt =====
-- The key set that `load` of bauth_server/src/signing_keys.rs reads: a key to sign with, and the
-- keys that verifiers need.
use bauth.Base.{
  ℕ, ◌+◌, ◌≤◌, ◌≡◌, refl, ◌∙◌, Bool, true, ◌&&◌, inl, inr, List, [], ◌∷◌, map, none, ok, ◌==◌,
  is_some, Bool-cases, Option-cases, Result-cases, if◌then◌else◌, arith,
}
use bauth.AccessToken.{access_token_ttl}
use bauth.Base.Table.{exists, find, select}
use bauth.Base.Table.Laws.{exists_mono}
use bauth.Crypto.{Crypto}
use bauth.Schema.{Db, SigningKeyRow}
use bauth.Server.{LoadedKey, SigningKeys, can_sign, signing_key, not_retired}
use bauth.SigningKeys.{
  MasterKey, GeneratedKey, load_key, load_keys, load, create_now, ensure_and_load, signs,
  retired_key_grace, jwk,
}
use bauth.Queries.SigningKeys.{place, newest_first, list_published, is_published, insert_key}

exists-place :
    (p : SigningKeyRow → Bool) (k : SigningKeyRow) (xs : List SigningKeyRow)
    → exists p (place k xs) ≡ (if p k then true else exists p xs)
unfolding exists place
exists-place p k [] = refl
exists-place p k (x ∷ xs) = ground (arith, exists-place p k xs)

exists-newest_first :
    (p : SigningKeyRow → Bool) (xs : List SigningKeyRow) → exists p (newest_first xs) ≡ exists p xs
unfolding exists newest_first
exists-newest_first p [] = refl
exists-newest_first p (x ∷ xs) =
    ground (arith, exists-place p x (newest_first xs), exists-newest_first p xs)

exists-select :
    {A : Type 0} (p q : A → Bool)
    → ((a : A) → p a ≡ true → q a ≡ true)
    → (xs : List A) → exists p xs ≡ true
    → exists p (select q xs) ≡ true
unfolding exists select
exists-select p q imp [] h = h
exists-select p q imp (x ∷ xs) h = elim (Bool-cases (p x)) [
  | inl t ↦ ground (arith, imp x t)
  | inr t ↦ ground (arith, exists-select p q imp xs)
]

-- A row that has not left the key set is among the published ones.
pub exists-list_published :
    (p : SigningKeyRow → Bool) (now : ℕ) (db : Db)
    → ((k : SigningKeyRow) → p k ≡ true → is_published now retired_key_grace k.retired_at ≡ true)
    → exists p db.signing_keys ≡ true
    → exists p (list_published now retired_key_grace db) ≡ true
unfolding list_published
exists-list_published p now db imp h =
    exists-newest_first p
      (select (λ k. is_published now retired_key_grace k.retired_at) db.signing_keys)
    ∙ exists-select p (λ k. is_published now retired_key_grace k.retired_at) imp db.signing_keys h

module _ (x : Crypto) (master_key : MasterKey) where
  load_key_inv :
      (row : SigningKeyRow) {key : LoadedKey}
      → load_key x master_key row ≡ ok key
      → (key.active_at ≡ row.active_at) × (key.retired_at ≡ row.retired_at)
  unfolding load_key
  load_key_inv row e = (ground arith, ground arith)

  -- The keys loaded sign whenever one of the rows does.
  load_keys-signs :
      (t : ℕ) (rows : List SigningKeyRow) {keys : List LoadedKey}
      → load_keys x master_key rows ≡ ok keys
      → exists (signs t) rows ≡ true
      → is_some (find (λ key. can_sign key t) keys) ≡ true
  unfolding load_keys exists find can_sign
  load_keys-signs t [] e h = absurd (ground arith)
  load_keys-signs t (row ∷ rows) {keys} e h = elim (Result-cases (load_key x master_key row)) [
    | inr (bad, n) ↦ absurd (ground arith)
    | inl (key, k) ↦ elim (Result-cases (load_keys x master_key rows)) [
      | inr (bad, n) ↦ absurd (ground arith)
      | inl (rest, r) ↦
          let same : key ∷ rest ≡ keys = ground arith in
          let (active, end) = load_key_inv row k in
          rw (← same) (ground (arith, load_keys-signs t rows {keys = rest} r))
    ]
  ]

  -- A key set that was loaded gives a signing key at any time not before the load at which a row
  -- of the table could sign, so that a pending key takes over without a reload.
  pub load-signing_key :
      (now t : ℕ) (db : Db) {keys : SigningKeys}
      → now ≤ t
      → load x master_key now db ≡ ok keys
      → exists (signs t) db.signing_keys ≡ true
      → is_some (signing_key keys t) ≡ true
  unfolding load signing_key
  load-signing_key now t db {keys} le e h =
      let rows = list_published now retired_key_grace db in
      let kept = select (λ row. not_retired row.retired_at now) rows in
      elim (Result-cases (load_keys x master_key kept)) [
        | inr (bad, n) ↦ absurd (ground arith)
        | inl (loaded, l) ↦
            let same : loaded ≡ keys.keys = ground arith in
            rw (← same) (
              load_keys-signs t kept l (
                exists-select (signs t) (λ row. not_retired row.retired_at now)
                  (λ k s. ground arith) rows
                  (exists-list_published (signs t) now db (λ k s. ground arith) h)))
      ]

  pub load-jwks :
      (now t kid : ℕ) (db : Db) {keys : SigningKeys}
      → now ≤ t + access_token_ttl
      → exists (λ k. (k.id == kid) && not_retired k.retired_at t) db.signing_keys ≡ true
      → load x master_key now db ≡ ok keys
      → exists (λ j. j.key_id == kid) keys.jwks ≡ true
  unfolding load exists
  load-jwks now t kid db {keys} le h e =
      let rows = list_published now retired_key_grace db in
      let listed : exists (λ k. (k.id == kid) && not_retired k.retired_at t) rows ≡ true =
        exists-list_published _ now db (λ k s. ground arith) h in
      let named : exists (λ k. k.id == kid) rows ≡ true =
        exists_mono _ (λ k. k.id == kid) (λ k s. ground arith) rows listed in
      let same : keys.jwks ≡ map (λ row. jwk x master_key row.id row.public_key) rows =
        ground arith in
      rw same (mapped rows named)
    where
      mapped :
          (rows : List SigningKeyRow)
          → exists (λ k. k.id == kid) rows ≡ true
          → exists (λ j. j.key_id == kid) (map (λ row. jwk x master_key row.id row.public_key) rows)
            ≡ true
      mapped [] r = r
      mapped (k ∷ ks) r = ground (arith, mapped ks)

  create_now_inv :
      (now : ℕ) (key : GeneratedKey) (db : Db) {keys : SigningKeys} {left : Db}
      → create_now x master_key now key db ≡ ok (keys, left)
      → (exists (signs now) left.signing_keys ≡ true) × (load x master_key now left ≡ ok keys)
  unfolding create_now insert_key exists
  create_now_inv now key db {keys} {left} e =
      let row : SigningKeyRow = record {
        id = key.kid;
        public_key = key.public_key;
        encrypted_private_key = key.encrypted_private_key;
        active_at = now;
        retired_at = none;
      } in
      let made : Db = record db { signing_keys = row ∷ db.signing_keys } in
      elim (Bool-cases (exists (λ k. k.id == key.kid) db.signing_keys)) [
        | inl taken ↦ absurd (ground arith)
        | inr free ↦ elim (Result-cases (load x master_key now made)) [
          | inr (bad, n) ↦ absurd (ground arith)
          | inl (fresh, l) ↦
              let same : made ≡ left = ground arith in
              let got : fresh ≡ keys = ground arith in rw (← same, ← got) (ground arith, l)
        ]
      ]

  -- The key set that `ensure_and_load` returns has a signing key at the time of the call.
  pub ensure_and_load-signs :
      (now : ℕ) (key : GeneratedKey) (db : Db) {keys : SigningKeys} {left : Db}
      → ensure_and_load x master_key now key db ≡ ok (keys, left)
      → is_some (signing_key keys now) ≡ true
  unfolding ensure_and_load
  ensure_and_load-signs now key db {keys} {left} e =
      elim (Result-cases (load x master_key now db)) [
        | inr (bad, n) ↦ absurd (ground arith)
        | inl (old, l) ↦ elim (Option-cases (signing_key old now)) [
          | inr (k, s) ↦ ground arith
          | inl n ↦
              let created : create_now x master_key now key db ≡ ok (keys, left) = ground arith in
              let (there, loaded) = create_now_inv now key db created in
              load-signing_key now now left (omega arith) loaded there
        ]
      ]
