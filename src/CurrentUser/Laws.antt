-- ===== src/CurrentUser/Laws.antt =====
-- Who is authenticated: bauth_server/src/current_user.rs.
use bauth.Base.{
  ◌≡◌, ◌<◌, ◌↔◌, ◌==◌, ◌=?◌, =?_sound, =?_refl, refl, sym, ◌∙◌, ap, inl, inr, true, none, some, ok,
  List, [], ◌∷◌, ◌++◌, ℕ, Option, Option-cases, arith,
}
use bauth.Base.Text.{Text, text}
use bauth.Base.Table.{find}
use bauth.Base.Table.Keys.{Distinct}
use bauth.CurrentUser.{Header, Jwt, CurrentUser, is_access_token, decoding_key, current_user}
use bauth.CurrentUser.Checked.{IsChecked, authenticated, authenticates}
use bauth.Schema.{Db, User, Session}
use bauth.Server.{Server, Jwk, AccessTokenClaims}
use bauth.Queries.Sessions.{AuthenticatedSession}
use bauth.CurrentUser.Joined.{find_authenticated_inv, find_authenticated_of}

-- An access token that the server signed, with the rows of its session and of its account.
pub record IsAuthenticated (server : Server) (jwt : Jwt) (now : ℕ) (authorization : Option Text)
    (db : Db) (user : CurrentUser) : Type 0 where
  pub token : Text
  pub header : Header
  pub kid : Text
  pub jwk : Jwk
  pub key : List ℕ
  pub claims : AccessTokenClaims
  pub session : Session
  pub account : User
  pub bearer : authorization ≡ some (text "Bearer " ++ token)
  pub decoded : jwt.decode_header token ≡ some header
  pub eddsa : header.is_eddsa ≡ true
  pub access_token : header.typ ≡ some (text "at+jwt")
  pub named : header.kid ≡ some kid
  pub published : find (λ j. jwt.print_uuid j.key_id =? kid) server.signing_keys.jwks ≡ some jwk
  pub usable : jwt.from_jwk jwk ≡ some key
  pub verified :
      jwt.decode now token key (record {
        issuer = server.issuer;
        audience = none;
        required = text "exp" ∷ text "iss" ∷ text "sub" ∷ [];
        leeway = 30;
      })
      ≡ some claims
  pub session_row : find (λ s. s.id == claims.sid) db.sessions ≡ some session
  pub unrevoked : session.revoked_at ≡ none
  pub unexpired : now < session.expires_at
  pub account_row : find (λ u. u.id == claims.sub) db.users ≡ some account
  pub enabled : account.disabled_at ≡ none
  pub own : session.user_id ≡ claims.sub
  pub same : user ≡ record {
    id = claims.sub;
    email = account.email;
    session_id = claims.sid;
    client_id = claims.client_id;
  }

access_token_iff :
    (header : Header)
    → (is_access_token header ≡ true)
      ↔ ((header.is_eddsa ≡ true) × (header.typ ≡ some (text "at+jwt")))
access_token_iff header = elim (Option-cases header.typ) [
  | inl n ↦ (λ h. absurd (ground (arith, n)), λ (e, t). absurd (ground (arith, n)))
  | inr (typ, given) ↦ (
    λ h. (
      ground (arith, given),
      given ∙ ap some (=?_sound typ (text "at+jwt") (ground (arith, given))),
    ),
    λ (e, t). rw (e, t) (=?_refl (text "at+jwt")),
  )
]

decoding_key_inv :
    (server : Server) (jwt : Jwt) (kid : Text) (key : List ℕ)
    → decoding_key server jwt kid ≡ some key
    → (jwk : Jwk) × (find (λ j. jwt.print_uuid j.key_id =? kid) server.signing_keys.jwks ≡ some jwk)
      × (jwt.from_jwk jwk ≡ some key)
unfolding decoding_key
decoding_key_inv server jwt kid key e =
    elim (Option-cases (find (λ j. jwt.print_uuid j.key_id =? kid) server.signing_keys.jwks)) [
      | inl n ↦ absurd (ground arith)
      | inr (jwk, there) ↦ (jwk, there, ground arith)
    ]

decoding_key_of :
    (server : Server) (jwt : Jwt) (kid : Text) (key : List ℕ) (jwk : Jwk)
    → find (λ j. jwt.print_uuid j.key_id =? kid) server.signing_keys.jwks ≡ some jwk
    → jwt.from_jwk jwk ≡ some key
    → decoding_key server jwt kid ≡ some key
unfolding decoding_key
decoding_key_of server jwt kid key jwk there usable = rw there usable

module _ (server : Server) (jwt : Jwt) (now : ℕ) (authorization : Option Text) (db : Db)
    (user : CurrentUser) (sessions : Distinct (λ (s : Session). s.id) db.sessions)
    (users : Distinct (λ (u : User). u.id) db.users) where
  to_rows :
      IsChecked server jwt now authorization db user
      → IsAuthenticated server jwt now authorization db user
  to_rows c =
      let (eddsa, typ) = (access_token_iff c.header).0 c.access_token in
      let (jwk, there, usable) = decoding_key_inv server jwt c.kid c.key c.published in
      let j = find_authenticated_inv now c.claims.sid db sessions users c.session c.live in
      let owner : j.session.user_id ≡ c.claims.sub = sym j.owner ∙ c.own in
      record {
        token = c.token;
        header = c.header;
        kid = c.kid;
        jwk = jwk;
        key = c.key;
        claims = c.claims;
        session = j.session;
        account = j.account;
        bearer = c.bearer;
        decoded = c.decoded;
        eddsa = eddsa;
        access_token = typ;
        named = c.named;
        published = there;
        usable = usable;
        verified = c.verified;
        session_row = j.session_row;
        unrevoked = j.unrevoked;
        unexpired = j.unexpired;
        account_row = ap (λ k. find (λ u. u.id == k) db.users) (sym owner) ∙ j.account_row;
        enabled = j.enabled;
        own = owner;
        same = ground (arith, c.same, j.address);
      }

  from_rows :
      IsAuthenticated server jwt now authorization db user
      → IsChecked server jwt now authorization db user
  from_rows a =
      let found : AuthenticatedSession = record {
        user_id = a.session.user_id;
        email = a.account.email;
      } in
      record {
        token = a.token;
        header = a.header;
        kid = a.kid;
        key = a.key;
        claims = a.claims;
        session = found;
        bearer = a.bearer;
        decoded = a.decoded;
        access_token = (access_token_iff a.header).1 (a.eddsa, a.access_token);
        named = a.named;
        published = decoding_key_of server jwt a.kid a.key a.jwk a.published a.usable;
        verified = a.verified;
        live = find_authenticated_of now a.claims.sid db sessions users found (record {
          session = a.session;
          account = a.account;
          session_row = a.session_row;
          unrevoked = a.unrevoked;
          unexpired = a.unexpired;
          account_row = ap (λ k. find (λ u. u.id == k) db.users) a.own ∙ a.account_row;
          enabled = a.enabled;
          owner = refl;
          address = refl;
        });
        own = a.own;
        same = a.same;
      }

-- If the ids of sessions and of users are distinct, a request is that of a user exactly when its
-- header is `Bearer` with a token that decodes to a header with the algorithm EdDSA, the type
-- `at+jwt` and the id of a key that the server publishes; its claims pass the validation under
-- that key, of the issuer of the server and any audience with 30 seconds of leeway; the row of
-- the session of the claims is not revoked and not expired; the session belongs to the subject
-- of the claims, whose row is not disabled; and the user is the subject, with the address of
-- this row and the session and the client of the claims.
pub current_user_iff :
    (server : Server) (jwt : Jwt) (now : ℕ) (authorization : Option Text) (db : Db)
    (user : CurrentUser)
    → Distinct (λ (s : Session). s.id) db.sessions
    → Distinct (λ (u : User). u.id) db.users
    → (current_user server jwt now authorization db ≡ ok user)
      ↔ IsAuthenticated server jwt now authorization db user
current_user_iff server jwt now authorization db user sessions users = (
  λ e.
      to_rows server jwt now authorization db user sessions users
        (authenticated server jwt now authorization db user e),
  λ a.
      authenticates server jwt now authorization db user
        (from_rows server jwt now authorization db user sessions users a),
)
