-- ===== src/Verifier/Laws.antt =====
-- What `verify` of bauth_client/src/verifier.rs accepts.
use bauth.Base.{
  ℕ, ◌≤◌, ◌≡◌, subst, ◌⊎◌, inl, inr, Bool, true, false, not, ◌&&◌, ◌||◌, List, [], ◌∷◌, Option,
  some, ok, err, is_some, Bool-cases, Result-cases, Option-cases, arith,
}
use bauth.Base.Text.{Text}
use bauth.Base.Table.{exists}
use bauth.CurrentUser.{Header, Jwt, is_access_token, is_text}
use bauth.Server.{AccessTokenClaims}
use bauth.Verifier.{
  AuthUser, Keys, KeyCache, PublishedKey, Reply, collect, inserted, decoding_key, refreshed,
  replace, key_id_of, verify, verified, is_stale, can_refetch, lookup, validation, is_empty,
}

module _ (from_jwk : PublishedKey → Option (List ℕ)) (jwt : Jwt) (issuer audience : Text) where
  -- An access token with its key in the cache that is left.
  pub record IsVerified (clock : ℕ) (token : Text) (user : AuthUser) (left : KeyCache)
      : Type 0 where
    pub header : Header
    pub kid : Text
    pub key : List ℕ
    pub claims : AccessTokenClaims
    pub decoded : jwt.decode_header token ≡ some header
    pub access_token : is_access_token header ≡ true
    pub named : header.kid ≡ some kid
    pub known : lookup kid left.keys ≡ some key
    pub valid : jwt.decode clock token key (validation from_jwk jwt issuer audience) ≡ some claims
    pub same :
        user
        ≡ record { id = claims.sub; client_id = claims.client_id; claims = claims; token = token }

  key_id_of_inv :
      (token kid : Text)
      → key_id_of from_jwk jwt issuer audience token ≡ ok kid
      → (header : Header) × (jwt.decode_header token ≡ some header)
        × (is_access_token header ≡ true)
        × (header.kid ≡ some kid)
  unfolding key_id_of
  key_id_of_inv token kid e = elim (Option-cases (jwt.decode_header token)) [
    | inl n ↦ absurd (ground arith)
    | inr (header, decoded) ↦ elim (Bool-cases (is_access_token header)) [
      | inr other ↦ absurd (ground arith)
      | inl access ↦ elim (Option-cases header.kid) [
        | inl n ↦ absurd (ground arith)
        | inr (k, named) ↦ (header, decoded, access, ground arith)
      ]
    ]
  ]

  -- The key is in the cache that is left, which is fresh unless the issuer did not answer.
  decoding_key_inv :
      (now : ℕ) (kid : Text) (reply : Reply) (cache : KeyCache) {key : List ℕ}
      → now ≤ reply.at
      → (decoding_key from_jwk now kid reply cache).answer ≡ ok key
      → (lookup kid (decoding_key from_jwk now kid reply cache).cache.keys ≡ some key)
        × ((is_stale now (decoding_key from_jwk now kid reply cache).cache ≡ false)
            ⊎ ((e : Text) × (reply.jwks ≡ err e)))
  unfolding decoding_key refreshed replace is_stale can_refetch
  decoding_key_inv now kid reply cache {key} le e =
      elim (Bool-cases
        ((is_stale now cache || not (is_some (lookup kid cache.keys))) && can_refetch now cache)) [
          | inr spared ↦ (ground arith, inl (spared_fresh spared))
          | inl due ↦ elim (Result-cases reply.jwks) [
            | inr (x, failed) ↦ elim (Bool-cases (is_empty from_jwk cache.keys)) [
              | inl none_yet ↦ absurd (ground arith)
              | inr some_yet ↦ (ground arith, inr (x, failed))
            ]
            | inl (published, answered) ↦ (ground arith, inl (ground arith))
          ]
        ]
    where
      spared_fresh :
          ((is_stale now cache || not (is_some (lookup kid cache.keys))) && can_refetch now cache)
            ≡ false
          → is_stale now (decoding_key from_jwk now kid reply cache).cache ≡ false
      spared_fresh h = elim (Option-cases cache.fetched_at) [
        | inl n ↦ absurd (ground arith)
        | inr (at, s) ↦ ground arith
      ]

  published_lookup :
      (kid : Text) (published : List PublishedKey) (keys : Keys)
      → is_some (lookup kid keys) ≡ true
      → is_some (lookup kid (collect from_jwk published keys)) ≡ true
  unfolding collect lookup
  published_lookup kid [] keys h = h
  published_lookup kid (j ∷ js) keys h =
      published_lookup kid js (inserted from_jwk j.key_id (from_jwk j) keys)
        (elim (Option-cases j.key_id) [
          | inl n ↦ rw n h
          | inr (name, named) ↦ elim (Option-cases (from_jwk j)) [
            | inl n ↦ rw (n, named) h
            | inr (key, usable) ↦ rw (usable, named) (ground (arith, h))
          ]
        ])

  -- A key that the issuer publishes under the id.
  abbrev pub publishes : Text → PublishedKey → Bool
  publishes kid j = is_text j.key_id kid && is_some (from_jwk j)

  collect-publishes :
      (kid : Text) (published : List PublishedKey) (keys : Keys)
      → exists (publishes kid) published ≡ true
      → is_some (lookup kid (collect from_jwk published keys)) ≡ true
  unfolding collect exists lookup
  collect-publishes kid [] keys h = absurd (ground arith)
  collect-publishes kid (j ∷ js) keys h = elim (Bool-cases (publishes kid j)) [
    | inr other ↦ collect-publishes kid js _ (ground arith)
    | inl here ↦ elim (Option-cases j.key_id) [
      | inl n ↦ absurd (ground arith)
      | inr (name, named) ↦ elim (Option-cases (from_jwk j)) [
        | inl n ↦ absurd (ground arith)
        | inr (key, usable) ↦ published_lookup kid js _ (rw (usable, named) (ground arith))
      ]
    ]
  ]

  -- If the issuer answers with a usable key of the id, and was last asked with success at least
  -- 30 seconds ago or never, then the verifier finds a key of the id.
  pub decoding_key-published :
      (now : ℕ) (kid : Text) (reply : Reply) (cache : KeyCache) (published : List PublishedKey)
      → can_refetch now cache ≡ true
      → reply.jwks ≡ ok published
      → exists (publishes kid) published ≡ true
      → (key : List ℕ) × ((decoding_key from_jwk now kid reply cache).answer ≡ ok key)
  unfolding decoding_key refreshed replace
  decoding_key-published now kid reply cache published may answered h =
      let listed = collect-publishes kid published [] h in
      elim (Option-cases (lookup kid (collect from_jwk published []))) [
        | inl n ↦ absurd (ground arith)
        | inr (key, there) ↦
            elim (Bool-cases (is_stale now cache || not (is_some (lookup kid cache.keys)))) [
              | inl due ↦ (key, ground arith)
              | inr fresh ↦ elim (Option-cases (lookup kid cache.keys)) [
                | inl n ↦ absurd (ground arith)
                | inr (old, cached) ↦ (old, ground arith)
              ]
            ]
      ]

  -- If the issuer does not answer before it is asked and a token is verified, then it decodes to
  -- an EdDSA access token with a key id, under which the cache that is left has a key, and its
  -- claims pass the validation of the issuer and the audience under that key; and the cache that
  -- is left was fetched less than an hour ago, or the issuer does not answer.
  pub verify_granted :
      (clock now : ℕ) (token : Text) (reply : Reply) (cache left : KeyCache) (user : AuthUser)
      → now ≤ reply.at
      → verify from_jwk jwt issuer audience clock now token reply cache ≡ (ok user, left)
      → IsVerified clock token user left
        × ((is_stale now left ≡ false) ⊎ ((e : Text) × (reply.jwks ≡ err e)))
  unfolding verify verified
  verify_granted clock now token reply cache left user le e =
      elim (Result-cases (key_id_of from_jwk jwt issuer audience token)) [
        | inr (x, failed) ↦ absurd (ground arith)
        | inl (kid, k) ↦
            let (header, decoded, access, named) = key_id_of_inv token kid k in
            let there : (decoding_key from_jwk now kid reply cache).cache ≡ left = ground arith in
            elim (Result-cases (decoding_key from_jwk now kid reply cache).answer) [
              | inr (x, failed) ↦ absurd (ground arith)
              | inl (key, given) ↦
                  let (known, fresh) = decoding_key_inv now kid reply cache le given in
                  elim (Option-cases
                    (jwt.decode clock token key (validation from_jwk jwt issuer audience))) [
                      | inl n ↦ absurd (ground arith)
                      | inr (claims, valid) ↦ (
                        record {
                          header = header;
                          kid = kid;
                          key = key;
                          claims = claims;
                          decoded = decoded;
                          access_token = access;
                          named = named;
                          known = rw (← there) known;
                          valid = valid;
                          same = ground arith;
                        },
                        subst
                            (λ (c : KeyCache).
                              (is_stale now c ≡ false) ⊎ ((x : Text) × (reply.jwks ≡ err x)))
                            there fresh,
                      )
                    ]
            ]
      ]
