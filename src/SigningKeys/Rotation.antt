-- ===== src/SigningKeys/Rotation.antt =====
-- The rotation of signing keys of bauth_server/src/signing_keys.rs over time.
use bauth.Base.{
  ℕ, ◌+◌, ◌≤◌, ◌<◌, ◌≡◌, Bool, true, false, not, ◌&&◌, ◌⊎◌, inl, inr, List, [], ◌∷◌, All, Result,
  Option, none, ok, err, leb, ◌==◌, Bool-cases, Result-cases, arith,
}
use bauth.Base.Table.{exists, update}
use bauth.Schema.{Db, SigningKeyRow}
use bauth.SigningKeys.{SigningKeyError, GeneratedKey, signs, rotate_if_due, prepublication}
use bauth.Queries.SigningKeys.{insert_key, retire_all_except, retires_after, set_retired}

abbrev pub new_key : GeneratedKey → ℕ → SigningKeyRow
new_key key active_at = record {
  id = key.kid;
  public_key = key.public_key;
  encrypted_private_key = key.encrypted_private_key;
  active_at = active_at;
  retired_at = none;
}

abbrev pub retired : GeneratedKey → ℕ → List SigningKeyRow → List SigningKeyRow
retired key at rows =
    update (λ k. not (k.id == key.kid) && retires_after at k.retired_at) (set_retired at) rows

-- A rotation leaves the table, or puts a new key in it and retires the others when that takes over.
pub rotate_if_due_inv :
    (locked : Bool) (now : ℕ) (key : GeneratedKey) (db : Db) {answer : Option ℕ} {left : Db}
    → rotate_if_due locked now key db ≡ ok (answer, left)
    → (left ≡ db)
      ⊎ (left.signing_keys
          ≡ new_key key (now + prepublication) ∷ retired key (now + prepublication) db.signing_keys)
unfolding rotate_if_due insert_key retire_all_except update
rotate_if_due_inv false now key db e = inl (ground arith)
rotate_if_due_inv true now key db e =
    elim (Bool-cases (exists (λ k. k.id == key.kid) db.signing_keys)) [
      | inl t ↦ inl (ground arith)
      | inr t ↦ ground arith
    ]

-- Retiring keys at a later instant than `t` leaves a key that signs at `t`.
exists-retired :
    (t at : ℕ) (key : GeneratedKey) (rows : List SigningKeyRow)
    → t < at
    → exists (signs t) rows ≡ true
    → exists (signs t) (retired key at rows) ≡ true
unfolding exists update
exists-retired t at key [] lt h = h
exists-retired t at key (x ∷ xs) lt h = ground (arith, exists-retired t at key xs lt)

-- A key that signs at `t`, with its id or any other property that retiring leaves alone.
abbrev pub signs_as : ℕ → ℕ → SigningKeyRow → Bool
signs_as kid t k = (k.id == kid) && signs t k

exists-retired_as :
    (kid t at : ℕ) (key : GeneratedKey) (rows : List SigningKeyRow)
    → t < at
    → exists (signs_as kid t) rows ≡ true
    → exists (signs_as kid t) (retired key at rows) ≡ true
unfolding exists update
exists-retired_as kid t at key [] lt h = h
exists-retired_as kid t at key (x ∷ xs) lt h = ground (arith, exists-retired_as kid t at key xs lt)

-- One run of the job: the clock, the lock, the key that it would create.
pub record Attempt : Type 0 where
  pub locked : Bool
  pub now : ℕ
  pub key : GeneratedKey

-- What the job leaves; a failure leaves the table as it was.
abbrev pub committed : Db → Result SigningKeyError (Option ℕ × Db) → Db
committed db (err e) = db
committed db (ok (answer, left)) = left

unfoldable pub rotations : List Attempt → Db → Db
rotations [] db = db
rotations (a ∷ tries) db = rotations tries (committed db (rotate_if_due a.locked a.now a.key db))

committed-signs_as :
    (a : Attempt) (kid t : ℕ) (db : Db)
    → t ≤ a.now
    → exists (signs_as kid t) db.signing_keys ≡ true
    → exists (signs_as kid t) (committed db (rotate_if_due a.locked a.now a.key db)).signing_keys
      ≡ true
unfolding exists
committed-signs_as a kid t db le h = elim (Result-cases (rotate_if_due a.locked a.now a.key db)) [
  | inr (e, n) ↦ rw n h
  | inl ((answer, left), r) ↦ rw r (elim (rotate_if_due_inv a.locked a.now a.key db r) [
    | inl same ↦ rw same h
    | inr rows ↦ rw rows (
        ground (
          arith,
          exists-retired_as kid t (a.now + prepublication) a.key db.signing_keys (omega arith) h,
        ))
  ])
]

-- A key that signed at `t` is still there, not retired before `t`, after rotations from `t` on.
pub rotations-signs_as :
    (tries : List Attempt) (kid t : ℕ) (db : Db)
    → All (λ a. t ≤ a.now) tries
    → exists (signs_as kid t) db.signing_keys ≡ true
    → exists (signs_as kid t) (rotations tries db).signing_keys ≡ true
unfolding rotations
rotations-signs_as [] kid t db o h = h
rotations-signs_as (a ∷ tries) kid t db o h =
    rotations-signs_as tries kid t _ o.1 (committed-signs_as a kid t db o.0 h)

-- From an instant on, after the job.
committed-signs_from :
    (a : Attempt) (start t : ℕ) (db : Db)
    → start ≤ a.now
    → ((u : ℕ) → start ≤ u → exists (signs u) db.signing_keys ≡ true)
    → start ≤ t
    → exists (signs t) (committed db (rotate_if_due a.locked a.now a.key db)).signing_keys ≡ true
unfolding exists
committed-signs_from a start t db le before from =
    elim (Result-cases (rotate_if_due a.locked a.now a.key db)) [
      | inr (e, n) ↦ rw n (before t from)
      | inl ((answer, left), r) ↦ rw r (elim (rotate_if_due_inv a.locked a.now a.key db r) [
        | inl same ↦ rw same (before t from)
        | inr rows ↦ elim (Bool-cases (leb (a.now + prepublication) t)) [
          | inl late ↦ rw rows (ground arith)
          | inr early ↦ rw rows (
              ground (
                arith,
                exists-retired t (a.now + prepublication) a.key db.signing_keys (ground arith)
                    (before t from),
              ))
        ]
      ])
    ]

-- If from an instant on there is always a row of the table that can sign, then it is so still
-- after any runs of the rotation job at that instant or later: rotation leaves no gap.
pub rotations-signs :
    (tries : List Attempt) (start : ℕ) (db : Db)
    → All (λ a. start ≤ a.now) tries
    → ((u : ℕ) → start ≤ u → exists (signs u) db.signing_keys ≡ true)
    → (t : ℕ) → start ≤ t
    → exists (signs t) (rotations tries db).signing_keys ≡ true
unfolding rotations
rotations-signs [] start db o before t le = before t le
rotations-signs (a ∷ tries) start db o before t le =
    rotations-signs tries start _ o.1 (λ u from. committed-signs_from a start u db o.0 before from)
      t le
