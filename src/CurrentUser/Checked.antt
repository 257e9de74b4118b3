-- ===== src/CurrentUser/Checked.antt =====
-- The steps of `from_request_parts` of bauth_server/src/current_user.rs.
use bauth.Base.{
  and_then, ℕ, ◌≡◌, ◌==◌, ==_refl, refl, inl, inr, true, some, ok, List, [], ◌∷◌, ◌++◌, Option,
  Bool-cases, Option-cases, arith,
}
use bauth.Base.Text.{Text, text}
use bauth.CurrentUser.{
  Header, Jwt, CurrentUser, strip_prefix, is_access_token, decoding_key, validation, current_user,
}
use bauth.Schema.{Db}
use bauth.Server.{Server, AccessTokenClaims}
use bauth.Queries.Sessions
use bauth.Queries.Sessions.{AuthenticatedSession}

strip_prefix_sound : (prefix s t : Text) → strip_prefix prefix s ≡ some t → s ≡ prefix ++ t
unfolding strip_prefix
strip_prefix_sound [] s t e = ground arith
strip_prefix_sound (c ∷ cs) [] t e = absurd (ground arith)
strip_prefix_sound (c ∷ cs) (d ∷ s) t e = ground (arith, strip_prefix_sound cs s t)

strip_prefix-append : (prefix t : Text) → strip_prefix prefix (prefix ++ t) ≡ some t
unfolding strip_prefix
strip_prefix-append [] t = refl
strip_prefix-append (c ∷ cs) t = rw (==_refl c) (strip_prefix-append cs t)

-- What the handler has computed for a user.
pub record IsChecked (server : Server) (jwt : Jwt) (now : ℕ) (authorization : Option Text) (db : Db)
    (user : CurrentUser) : Type 0 where
  pub token : Text
  pub header : Header
  pub kid : Text
  pub key : List ℕ
  pub claims : AccessTokenClaims
  pub session : AuthenticatedSession
  pub bearer : authorization ≡ some (text "Bearer " ++ token)
  pub decoded : jwt.decode_header token ≡ some header
  pub access_token : is_access_token header ≡ true
  pub named : header.kid ≡ some kid
  pub published : decoding_key server jwt kid ≡ some key
  pub verified : jwt.decode now token key (validation server jwt) ≡ some claims
  pub live : Sessions.find_authenticated now claims.sid db ≡ some session
  pub own : session.user_id ≡ claims.sub
  pub same : user ≡ record {
    id = claims.sub;
    email = session.email;
    session_id = claims.sid;
    client_id = claims.client_id;
  }

module _ (server : Server) (jwt : Jwt) (now : ℕ) (authorization : Option Text) (db : Db)
    (user : CurrentUser) where
  bearer_of :
      (token : Text)
      → and_then authorization (strip_prefix (text "Bearer ")) ≡ some token
      → authorization ≡ some (text "Bearer " ++ token)
  bearer_of token e = elim (Option-cases authorization) [
    | inl n ↦ absurd (ground arith)
    | inr (value, given) ↦
        let same : value ≡ text "Bearer " ++ token =
          strip_prefix_sound (text "Bearer ") value token (ground arith) in
        rw (given, same) refl
  ]

  given :
      (token : Text)
      → authorization ≡ some (text "Bearer " ++ token)
      → and_then authorization (strip_prefix (text "Bearer ")) ≡ some token
  given token e = rw e (strip_prefix-append (text "Bearer ") token)

  pub authenticated :
      current_user server jwt now authorization db ≡ ok user
      → IsChecked server jwt now authorization db user
  unfolding current_user
  authenticated e = elim (Option-cases (and_then authorization (strip_prefix (text "Bearer ")))) [
    | inl n ↦ absurd (ground arith)
    | inr (token, bearer) ↦ elim (Option-cases (jwt.decode_header token)) [
      | inl n ↦ absurd (ground arith)
      | inr (header, decoded) ↦ elim (Bool-cases (is_access_token header)) [
        | inr other ↦ absurd (ground arith)
        | inl access ↦ elim (Option-cases header.kid) [
          | inl n ↦ absurd (ground arith)
          | inr (kid, named) ↦ elim (Option-cases (decoding_key server jwt kid)) [
            | inl n ↦ absurd (ground arith)
            | inr (key, published) ↦
                elim (Option-cases (jwt.decode now token key (validation server jwt))) [
                  | inl n ↦ absurd (ground arith)
                  | inr (claims, verified) ↦
                      elim (Option-cases (Sessions.find_authenticated now claims.sid db)) [
                        | inl n ↦ absurd (ground arith)
                        | inr (session, live) ↦ elim (Bool-cases (session.user_id == claims.sub)) [
                          | inr other ↦ absurd (ground arith)
                          | inl own ↦ record {
                            token = token;
                            header = header;
                            kid = kid;
                            key = key;
                            claims = claims;
                            session = session;
                            bearer = bearer_of token bearer;
                            decoded = decoded;
                            access_token = access;
                            named = named;
                            published = published;
                            verified = verified;
                            live = live;
                            own = ground arith;
                            same = ground arith;
                          }
                        ]
                      ]
                ]
          ]
        ]
      ]
    ]
  ]

  pub authenticates :
      IsChecked server jwt now authorization db user
      → current_user server jwt now authorization db ≡ ok user
  unfolding current_user
  authenticates a =
      let token = given a.token a.bearer in
      rw (token, a.decoded, a.access_token, a.named, a.published, a.verified, a.live)
        (ground (arith, a.own, a.same, ==_refl a.claims.sub))
