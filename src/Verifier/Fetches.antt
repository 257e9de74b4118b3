-- ===== src/Verifier/Fetches.antt =====
-- How often `verify` of bauth_client/src/verifier.rs asks the issuer for its keys.
use bauth.Base.{
  ℕ, ◌+◌, ◌*◌, ◌≤◌, ◌≡◌, refl, ◌⊎◌, inl, inr, Bool, true, false, not, ◌&&◌, ◌||◌, List, [], ◌∷◌,
  All, Option, none, some, length, Result, ok, err, is_some, if◌then◌else◌, Bool-cases,
  Result-cases, arith,
}
use bauth.Base.Text.{Text}
use bauth.CurrentUser.{Jwt}
use bauth.Verifier.{
  KeyCache, PublishedKey, Reply, decoding_key, refreshed, replace, key_id_of, verify, is_stale,
  can_refetch, lookup, min_refetch_interval,
}

-- A token to verify, with the clocks and what the issuer answers if it is asked.
pub record Request : Type 0 where
  pub clock : ℕ
  pub now : ℕ
  pub token : Text
  pub reply : Reply

abbrev pub is_ok : {E A : Type 0} → Result E A → Bool
is_ok (ok a) = true
is_ok (err e) = false

module _ (from_jwk : PublishedKey → Option (List ℕ)) (jwt : Jwt) (issuer audience : Text) where
  unfoldable pub after : Request → KeyCache → KeyCache
  after r cache = (verify from_jwk jwt issuer audience r.clock r.now r.token r.reply cache).1

  -- The request had the keys replaced.
  unfoldable pub fetched : Request → KeyCache → Bool
  fetched r cache = elim (key_id_of from_jwk jwt issuer audience r.token) [
    | err e ↦ false
    | ok kid ↦ (decoding_key from_jwk r.now kid r.reply cache).asked && is_ok r.reply.jwks
  ]

  unfoldable pub fetches : List Request → KeyCache → ℕ
  unfolding after fetched
  fetches [] cache = 0
  fetches (r ∷ rs) cache = (if fetched r cache then 1 else 0) + fetches rs (after r cache)

  -- What a request does to a cache that was filled.
  step_cases :
      (r : Request) (cache : KeyCache) (t : ℕ)
      → cache.fetched_at ≡ some t
      → ((fetched r cache ≡ true)
          × (t + min_refetch_interval ≤ r.now)
          × ((after r cache).fetched_at ≡ some r.reply.at))
        ⊎ ((fetched r cache ≡ false) × (after r cache ≡ cache))
  unfolding after fetched verify decoding_key refreshed replace
  step_cases r cache t e = elim (Result-cases (key_id_of from_jwk jwt issuer audience r.token)) [
    | inr (x, failed) ↦ inr (ground arith, ground arith)
    | inl (kid, named) ↦
        elim (Bool-cases (
          (is_stale r.now cache || not (is_some (lookup kid cache.keys)))
          && can_refetch r.now cache)) [
            | inr spared ↦ inr (ground arith, ground arith)
            | inl due ↦ elim (Result-cases r.reply.jwks) [
              | inr (x, failed) ↦ inr (ground arith, ground arith)
              | inl (published, answered) ↦ inl (ground arith, ground arith, ground arith)
            ]
          ]
  ]

  -- For a cache that was fetched at some time, and requests where the issuer answers not before
  -- it is asked and not after an end: the time of that fetch, and 30 seconds for each later
  -- fetch that succeeds, come to no more than the end, whatever the tokens.
  pub fetches-bound :
      (rs : List Request) (cache : KeyCache) (t end : ℕ)
      → cache.fetched_at ≡ some t
      → t ≤ end
      → All (λ r. (r.now ≤ r.reply.at) × (r.reply.at ≤ end)) rs
      → t + fetches rs cache * min_refetch_interval ≤ end
  unfolding fetches
  fetches-bound [] cache t end e le h = omega arith
  fetches-bound (r ∷ rs) cache t end e le h = elim (step_cases r cache t e) [
    | inl (hit, due, at) ↦
        let rest = fetches-bound rs (after r cache) r.reply.at end at h.0.1 h.1 in
        rw hit (omega (arith, rest, due, h.0.0))
    | inr (miss, same) ↦
        let rest = fetches-bound rs cache t end e le h.1 in rw miss (rw same (omega (arith, rest)))
  ]

  -- The request had the issuer asked, whatever it answered.
  unfoldable pub asks : List Request → KeyCache → ℕ
  unfolding after
  asks [] cache = 0
  asks (r ∷ rs) cache =
      (elim (key_id_of from_jwk jwt issuer audience r.token) [
        | err e ↦ 0
        | ok kid ↦ if (decoding_key from_jwk r.now kid r.reply cache).asked then 1 else 0
      ])
      + asks rs (after r cache)

  -- A well-formed token whose key is not in the cache, while the issuer does not answer.
  abbrev pub IsUnknown : KeyCache → Request → Type 0
  IsUnknown cache r =
      (is_ok r.reply.jwks ≡ false)
      × ((kid : Text) × (key_id_of from_jwk jwt issuer audience r.token ≡ ok kid)
          × (lookup kid cache.keys ≡ none))

  outage_step :
      (r : Request) (cache : KeyCache) → is_ok r.reply.jwks ≡ false → after r cache ≡ cache
  unfolding after verify decoding_key refreshed
  outage_step r cache e = elim (Result-cases r.reply.jwks) [
    | inl (published, answered) ↦ absurd (ground arith)
    | inr (x, failed) ↦ elim (Result-cases (key_id_of from_jwk jwt issuer audience r.token)) [
      | inr (y, malformed) ↦ ground arith
      | inl (kid, named) ↦ ground arith
    ]
  ]

  -- While the issuer gives no answer, every well-formed token whose key is not in a cache that
  -- may be fetched again has the issuer asked: as many times as there are such requests.
  pub asks-outage :
      (rs : List Request) (cache : KeyCache)
      → All (λ r. can_refetch r.now cache ≡ true) rs
      → All (IsUnknown cache) rs
      → asks rs cache ≡ length rs
  unfolding asks decoding_key refreshed
  asks-outage [] cache c u = refl
  asks-outage (r ∷ rs) cache c u =
      let (kid, named, missing) = u.0.1 in
      let same = outage_step r cache u.0.0 in
      let rest = asks-outage rs cache c.1 u.1 in
      elim (Result-cases r.reply.jwks) [
        | inl (published, answered) ↦ absurd (ground (arith, u.0.0))
        | inr (x, failed) ↦ rw same (ground (arith, rest, c.0, named, missing))
      ]
