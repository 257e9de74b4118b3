-- ===== src/Tests/Verified.antt =====
-- The verifier on a published key.
use bauth.Base.{
  ℕ, ◌+◌, ◌*◌, ◌≤◌, ◌≡◌, ◌⊎◌, refl, List, [], ◌∷◌, length, Option, none, some, ok, err, true, false,
  arith,
}
use bauth.Base.Text.{Text, text}
use bauth.Verifier.{
  AuthUser, KeyCache, PublishedKey, Reply, decoding_key, empty_cache, is_stale,
  min_refetch_interval, verify,
}
use bauth.Verifier.Fetches
use bauth.Verifier.Fetches.{Request, fetches, asks}
use bauth.Verifier.Laws
use bauth.Verifier.Laws.{IsVerified}
use bauth.Tests.Fixtures.{jwt, claims}

abbrev from_jwk : PublishedKey → Option (List ℕ)
from_jwk j = some j.x

abbrev published : List PublishedKey
published = record { key_id = some (text "1"); x = text "k" } ∷ []

abbrev answered : ℕ → Reply
answered at = record { at = at; jwks = ok published }

abbrev unanswered : ℕ → Reply
unanswered at = record { at = at; jwks = err (text "timeout") }

abbrev filled : KeyCache
filled = record { keys = (text "1", text "k") ∷ []; fetched_at = some 1_000_000 }

abbrev other_key : KeyCache
other_key = record { keys = (text "2", text "k") ∷ []; fetched_at = some 1_000_000 }

abbrev someone : AuthUser
someone = record { id = 1; client_id = text "web"; claims = claims; token = text "t" }

accepted :
    verify from_jwk jwt
      (text "https://auth")
      (text "api")
      5
      60_000_000
      (text "t")
      (answered 61_000_000)
      empty_cache
    ≡ (ok someone, record { keys = (text "1", text "k") ∷ []; fetched_at = some 61_000_000 })
unfolding verify bauth.Base.◌=?◌
accepted = refl

verify_granted_example :
    IsVerified from_jwk jwt
      (text "https://auth")
      (text "api")
      5
      (text "t")
      someone
      (record { keys = (text "1", text "k") ∷ []; fetched_at = some 61_000_000 })
    × ((is_stale 60_000_000
            (record { keys = (text "1", text "k") ∷ []; fetched_at = some 61_000_000 })
          ≡ false)
        ⊎ ((e : Text) × ((answered 61_000_000).jwks ≡ err e)))
verify_granted_example =
    Laws.verify_granted from_jwk jwt (text "https://auth") (text "api") 5 60_000_000 (text "t")
      (answered 61_000_000) empty_cache
      (record { keys = (text "1", text "k") ∷ []; fetched_at = some 61_000_000 }) someone
      (omega arith) accepted

decoding_key-published_example :
    (key : List ℕ) × ((decoding_key from_jwk 60_000_000
        (text "1")
        (answered 61_000_000)
        other_key).answer
      ≡ ok key)
unfolding bauth.Verifier.can_refetch bauth.Base.Table.exists bauth.Base.◌=?◌
decoding_key-published_example =
    Laws.decoding_key-published from_jwk jwt (text "https://auth") (text "api") 60_000_000
      (text "1") (answered 61_000_000) other_key published refl refl refl

-- Within 30 s, after them, and at once again.
abbrev requests : List Request
requests =
    record { clock = 5; now = 2_000_000; token = text "a"; reply = answered 3_000_000 }
    ∷ record { clock = 5; now = 40_000_000; token = text "b"; reply = answered 41_000_000 }
    ∷ record { clock = 5; now = 41_000_000; token = text "c"; reply = answered 42_000_000 }
    ∷ []

-- No answer fills the cache with the key of these tokens.
abbrev no_key : PublishedKey → Option (List ℕ)
no_key j = none

fetches-bound_example :
    1_000_000
      + fetches no_key jwt (text "https://auth") (text "api") requests other_key
        * min_refetch_interval
    ≤ 42_000_000
fetches-bound_example =
    Fetches.fetches-bound no_key jwt (text "https://auth") (text "api") requests other_key 1_000_000
      42_000_000 refl (omega arith)
      ((omega arith, omega arith), ((omega arith, omega arith), ((omega arith, omega arith), tt)))

one_fetch : fetches no_key jwt (text "https://auth") (text "api") requests other_key ≡ 1
unfolding fetches bauth.Verifier.key_id_of bauth.Base.◌=?◌ decoding_key verify
one_fetch = refl

-- Two requests in a second, and the issuer is asked twice.
abbrev outage : List Request
outage =
    record { clock = 5; now = 40_000_000; token = text "a"; reply = unanswered 41_000_000 }
    ∷ record { clock = 5; now = 40_500_000; token = text "b"; reply = unanswered 41_500_000 }
    ∷ []

asks-outage_example :
    asks from_jwk jwt (text "https://auth") (text "api") outage other_key ≡ length outage
unfolding bauth.Verifier.can_refetch bauth.Verifier.key_id_of bauth.Base.◌=?◌ bauth.Verifier.lookup
asks-outage_example =
    Fetches.asks-outage from_jwk jwt (text "https://auth") (text "api") outage other_key
      (refl, (refl, tt)) ((refl, (text "1", refl, refl)), ((refl, (text "1", refl, refl)), tt))
