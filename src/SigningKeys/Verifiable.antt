-- ===== src/SigningKeys/Verifiable.antt =====
-- The keys that verify the access tokens of bauth_server/src/access_token.rs, over rotations.
use bauth.Base.{ℕ, ◌+◌, ◌≤◌, ◌≡◌, true, ◌&&◌, All, List, ◌==◌, ok, arith}
use bauth.AccessToken.{access_token_ttl}
use bauth.Base.Table.{exists}
use bauth.Base.Table.Laws.{exists_mono}
use bauth.Crypto.{Crypto}
use bauth.Schema.{Db}
use bauth.Server.{SigningKeys, not_retired}
use bauth.SigningKeys.{MasterKey, load}
use bauth.SigningKeys.Loaded.{load-jwks}
use bauth.SigningKeys.Rotation.{Attempt, rotations, rotations-signs_as, signs_as}

-- If a key can sign at an instant, then after any runs of the rotation job at that instant or
-- later, a key set loaded not later than the lifetime of an access token after the instant
-- publishes this key: a token stays verifiable until it expires.
pub rotations-load :
    (x : Crypto) (master_key : MasterKey) (tries : List Attempt) (kid t later : ℕ) (db : Db)
    {keys : SigningKeys}
    → exists (signs_as kid t) db.signing_keys ≡ true
    → All (λ a. t ≤ a.now) tries
    → later ≤ t + access_token_ttl
    → load x master_key later (rotations tries db) ≡ ok keys
    → exists (λ j. j.key_id == kid) keys.jwks ≡ true
rotations-load x master_key tries kid t later db h o le e =
    load-jwks x master_key later t kid (rotations tries db) le
      (exists_mono (signs_as kid t) (λ k. (k.id == kid) && not_retired k.retired_at t)
        (λ k s. ground arith) (rotations tries db).signing_keys
        (rotations-signs_as tries kid t db o h))
      e
