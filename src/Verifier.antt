-- ===== src/Verifier.antt =====
-- bauth_client/src/verifier.rs: access tokens verified by an API against the keys that the issuer
-- publishes. jsonwebtoken and the HTTP client are parameters.
pub mod Extract
pub mod Fetches
pub mod Laws
use bauth.Base.{
  ℕ, ◌-◌, Bool, true, false, not, ◌&&◌, ◌||◌, List, [], ◌∷◌, any, Option, none, some, Result, ok,
  err, ◌>>=◌, ◌>>◌, ok_or, guard, ◌=?◌, leb, is_some, if◌then◌else◌,
}
use bauth.Base.Text.{Text, text}
use bauth.Base.Time.{seconds, hours}
use bauth.CurrentUser.{Header, Jwt, Validation, is_access_token}
use bauth.Server.{AccessTokenClaims}

abbrev pub jwks_max_age : ℕ
jwks_max_age = hours 1

abbrev pub min_refetch_interval : ℕ
min_refetch_interval = seconds 30

abbrev pub leeway_seconds : ℕ
leeway_seconds = 30

-- reqwest's errors are texts.
pub data VerifyError : Type 0 where
  malformed unknown_key invalid : VerifyError
  jwks : Text → VerifyError

pub record AuthUser : Type 0 where
  pub id : ℕ
  pub client_id : Text
  pub claims : AccessTokenClaims
  pub token : Text

pub record WrongClient : Type 0 where
  pub client_id : Text

unfoldable pub require_client : List Text → AuthUser → Result WrongClient (Unit {0})
require_client client_ids user =
    if any (λ c. c =? user.client_id) client_ids
    then ok tt
    else err (record { client_id = user.client_id })

-- A key of the set that the issuer answers with.
pub record PublishedKey : Type 0 where
  pub key_id : Option Text
  pub x : Text

-- The map from key ids to keys, latest insertion first, and the time of the last fetch.
abbrev pub Keys : Type 0
Keys = List (Text × List ℕ)

pub record KeyCache : Type 0 where
  pub keys : Keys
  pub fetched_at : Option ℕ

abbrev pub empty_cache : KeyCache
empty_cache = record { keys = []; fetched_at = none }

-- `HashMap::get`.
unfoldable pub lookup : Text → Keys → Option (List ℕ)
lookup kid [] = none
lookup kid ((name, key) ∷ keys) =
    let rest = lookup kid keys in if name =? kid then some key else rest

-- `Option::is_none_or`.
abbrev pub is_none_or : Option ℕ → (ℕ → Bool) → Bool
is_none_or none p = true
is_none_or (some n) p = p n

-- `at.elapsed() >= …` at an instant of the monotonic clock.
unfoldable pub is_stale : ℕ → KeyCache → Bool
is_stale now cache = is_none_or cache.fetched_at (λ at. leb jwks_max_age (now - at))

unfoldable pub can_refetch : ℕ → KeyCache → Bool
can_refetch now cache = is_none_or cache.fetched_at (λ at. leb min_refetch_interval (now - at))

-- What the HTTP client answers, and when.
pub record Reply : Type 0 where
  pub at : ℕ
  pub jwks : Result Text (List PublishedKey)

-- `DecodingKey::from_jwk`.
module _ (from_jwk : PublishedKey → Option (List ℕ)) where
  -- The closure of `filter_map`, and the insertion of what it gives.
  abbrev pub inserted : Option Text → Option (List ℕ) → Keys → Keys
  inserted (some kid) (some key) keys = (kid, key) ∷ keys
  inserted (some kid) none keys = keys
  inserted none key keys = keys

  -- `collect`, from the map so far.
  unfoldable pub collect : List PublishedKey → Keys → Keys
  collect [] keys = keys
  collect (jwk ∷ rest) keys = collect rest (inserted jwk.key_id (from_jwk jwk) keys)

  unfoldable pub replace : ℕ → List PublishedKey → KeyCache
  unfolding collect
  replace now published = record { keys = collect published []; fetched_at = some now }

  -- The answer, the cache that is left, and whether the key set was asked for.
  pub record Lookup : Type 0 where
    pub answer : Result VerifyError (List ℕ)
    pub cache : KeyCache
    pub asked : Bool

  abbrev pub is_empty : Keys → Bool
  is_empty [] = true
  is_empty (k ∷ ks) = false

  -- The end of `decoding_key`.
  abbrev pub found : Text → KeyCache → Bool → Lookup
  found kid cache asked = record {
    answer = ok_or (lookup kid cache.keys) unknown_key;
    cache = cache;
    asked = asked;
  }

  -- The `match` on the answer of the issuer.
  unfoldable pub refreshed : Text → Reply → KeyCache → Lookup
  unfolding replace lookup
  refreshed kid reply cache = elim reply.jwks [
    | ok published ↦ found kid (replace reply.at published) true
    | err e ↦
        if is_empty cache.keys
        then record { answer = err (jwks e); cache = cache; asked = true }
        else found kid cache true
  ]

  -- No other request runs between the two locks.
  unfoldable pub decoding_key : ℕ → Text → Reply → KeyCache → Lookup
  unfolding lookup is_stale can_refetch refreshed
  decoding_key now kid reply cache =
      if (is_stale now cache || not (is_some (lookup kid cache.keys))) && can_refetch now cache
      then refreshed kid reply cache
      else found kid cache false

  module _ (jwt : Jwt) (issuer audience : Text) where
    abbrev pub validation : Validation
    validation = record {
      issuer = issuer;
      audience = some audience;
      required = text "exp" ∷ text "iss" ∷ text "aud" ∷ text "sub" ∷ [];
      leeway = leeway_seconds;
    }

    -- `verify` once the key is known; the wall clock is that of `decode`.
    unfoldable pub verified : ℕ → Text → Result VerifyError (List ℕ) → Result VerifyError AuthUser
    verified clock token answer = do
      key ← answer
      claims ← ok_or (jwt.decode clock token key validation) invalid
      ok (record { id = claims.sub; client_id = claims.client_id; claims = claims; token = token })

    -- The key id of an access token.
    unfoldable pub key_id_of : Text → Result VerifyError Text
    key_id_of token = do
      header ← ok_or (jwt.decode_header token) malformed
      guard (is_access_token header) malformed
      ok_or header.kid malformed

    unfoldable pub verify :
        (clock now : ℕ) → Text → Reply → KeyCache → Result VerifyError AuthUser × KeyCache
    unfolding key_id_of decoding_key verified
    verify clock now token reply cache = elim (key_id_of token) [
      | err e ↦ (err e, cache)
      | ok kid ↦
          let lookup = decoding_key now kid reply cache in
          (verified clock token lookup.answer, lookup.cache)
    ]
