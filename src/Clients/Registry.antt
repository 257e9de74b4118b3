-- ===== src/Clients/Registry.antt =====
-- The registry that bauth_server/src/clients.rs makes of the clients of bauth.toml.
use bauth.Base.{
  ◌≡◌, refl, inl, inr, List, [], ◌∷◌, All, none, some, ok, ◌=?◌, =?_sound, =?_refl, Bool-cases,
  Option-cases, Result-cases, arith,
}
use bauth.Base.Text.{Text}
use bauth.Base.Table.{find}
use bauth.Clients.{Client, get}
use bauth.Clients.Config.{Parsers, reason, validate, register, from_toml}
use bauth.Clients.Valid.{IsValid, reason_inv}

module _ (p : Parsers) where
  -- What a loop over clients leaves: valid ones, those registered before, and those of the file.
  record IsRegistered (file before out : List Client) : Type 0 where
    valid : All (IsValid p) out
    kept : (id : Text) (c : Client) → get id before ≡ some c → get id out ≡ some c
    listed : All (λ c. get c.id out ≡ some c) file

  register_inv :
      (file before out : List Client)
      → All (IsValid p) before
      → register p file before ≡ ok out
      → IsRegistered file before out
  unfolding register validate get find
  register_inv [] before out v e =
      let same : before ≡ out = ground arith in
      record { valid = rw (← same) v; kept = λ id c found. rw (← same) found; listed = tt }
  register_inv (client ∷ file) before out v e = elim (Result-cases (reason p client)) [
    | inr (x, failed) ↦ absurd (ground arith)
    | inl (tt, passed) ↦ elim (Option-cases (get client.id before)) [
      | inr (c, taken) ↦ absurd (ground arith)
      | inl free ↦
          let rest =
            register_inv file (client ∷ before) out (reason_inv p client passed, v)
              (ground arith) in
          record {
            valid = rest.valid;
            kept = λ id c found. rest.kept id c (still id c free found);
            listed = (rest.kept client.id client (rw (=?_refl client.id) refl), rest.listed);
          }
    ]
  ]
    where
      still :
          (id : Text) (c : Client)
          → get client.id before ≡ none
          → get id before ≡ some c
          → get id (client ∷ before) ≡ some c
      still id c free found = elim (Bool-cases (client.id =? id)) [
        | inl t ↦
            let same : client.id ≡ id = =?_sound client.id id t in
            absurd (let gone : get id before ≡ none = rw (← same) free in ground arith)
        | inr t ↦ rw t found
      ]

  -- If the file reads as a list of clients and the registry is made, then each client of the
  -- registry has a well-formed id, at least one redirect URI, redirect URIs that are written as
  -- their parser prints them, and allowed origins that are origins; its redirect URIs and links
  -- have no fragment and use https, http on this machine or the scheme of an app; and each
  -- client of the file is found under its id.
  pub from_toml-IsValid :
      (content : Text) (file clients : List Client)
      → p.parse_toml content ≡ ok file
      → from_toml p content ≡ ok clients
      → All (IsValid p) clients × All (λ c. get c.id clients ≡ some c) file
  unfolding from_toml
  from_toml-IsValid content file clients read e =
      let r = register_inv file [] clients tt (ground (arith, read)) in (r.valid, r.listed)
