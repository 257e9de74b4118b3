-- ===== src/Lib.antt =====
-- bauth: an authentication server (bauth_server), its claims (bauth_core) and the verifier of tokens
-- for APIs (bauth_client), verified as pure functions over the tables of its database.
--
-- An app creates a login flow (LoginFlow). The user asks for an email with a link and a code
-- (MagicLink.request), and confirms with one of them (MagicLink.confirm, confirm_code); this completes
-- the flow with an authorization code, which the app exchanges with its PKCE verifier for tokens
-- (OAuth.token). Refresh tokens are rotated, with detection of stolen copies (OAuth.refresh_token).
-- A user with an access token (CurrentUser) lists and revokes sessions, and changes the address or
-- deletes the account with an emailed code (Account). An API checks access tokens against the keys that
-- the server publishes (Verifier). A job deletes old rows (Purge).
--
-- Files, and the code that each is about:
-- - Base: shared tests, lists, results, tables, text and time. No code of the repository.
-- - Crypto: sha2, base64 and aws-lc-rs as a parameter.
-- - Errors, Email, Pkce, Token, Sessions, AccessToken, MagicCode, Clients:
--   bauth_server/src/errors.rs, email.rs, pkce.rs, token.rs, sessions.rs, access_token.rs,
--   magic_code.rs, clients.rs.
-- - Schema, Queries: the tables of bauth_server/migrations, and bauth_server/src/queries. A statement is
--   a function on the tables: UPDATE ... WHERE is `update`, SELECT is `find`, `count` or `exists`, INSERT
--   checks unique columns and references and gives an SqlError otherwise.
-- - Server: AppState of bauth_server/src/main.rs, with the key set of bauth_server/src/signing_keys.rs and what a
--   request takes from outside (Env): the time, new ids, random bytes.
-- - Handler: rate limits (bauth_server/src/rate_limit.rs) and emails sent (bauth_server/src/emails.rs).
-- - SigningKeys: bauth_server/src/signing_keys.rs, loading and rotation. The generated key is an argument,
--   decryption with the master key is a parameter, and `locked` is the answer of the advisory lock.
-- - LoginFlow, MagicLink, OAuth: bauth_server/src/login_flow.rs and bauth_server/src/routes. A handler is a function
--   from the state to its answer and the state that it leaves; a transaction that is not committed
--   leaves the database that it began with.
-- - CurrentUser, Account: bauth_server/src/current_user.rs, and routes/me.rs and routes/email_change.rs of
--   the same folder. Account/Calls has sequences of requests to these handlers.
-- - Verifier: bauth_client/src/verifier.rs, and Verifier/Extract bauth_client/src/extract.rs. What the
--   issuer answers is an argument.
-- - Purge: bauth_server/src/jobs/purge.rs, over the deletes of Queries/Cascades, which follow the
--   references of bauth_server/migrations.
-- - RateLimit: the address of a client behind proxies, of bauth_server/src/rate_limit.rs.
-- - MasterKey: bauth_server/src/master_key.rs, and the generation of signing keys.
-- - System: sequences of requests to the login, token and revocation endpoints, and the properties of the
--   database that every one of them keeps (an interface, System/Stable, with one instance for each
--   property).
-- - Tests: the theorems on concrete servers.
--
-- Conventions. Requests run one after the other, each whole: row locks and advisory locks are always
-- free, and no interleaving inside a handler is modelled. `Utc::now()` agrees with the database's
-- `now()` and is one instant for each request. The database answers each statement; it fails only by a unique
-- column or a missing reference. Instants are microseconds since the epoch, ids are numbers, text is a
-- list of Unicode scalar values whose UTF-8 bytes are computed where the code looks at bytes.
-- Counters are numbers without bound. The loop of `random_below` goes over the list of the generator's
-- draws, and gives nothing when they run out. The loop of the purge runs on fuel: one for each
-- batch, and enough when its batches take more rows than there are to delete. All statements of one purge see the same instant.
--
-- Parameters, since their code is not in the repository: SHA-256, base64url, HMAC (Crypto), the encoding
-- of access tokens, the cipher of the master key (MasterKey), the database's `lower` and Rust's
-- `to_lowercase` (Server), the answers of the crate governor (Verdict in Handler), jsonwebtoken's
-- decoding (Jwt in CurrentUser, and the keys of Verifier), the URL and TOML parsers (Clients/Config), how
-- addresses are read and printed (RateLimit), and which rows a LIMIT without an order lets pass (Purge).
--
-- Not modelled, since it is input and output or belongs to other crates: reading the environment and
-- files, HTTP routing, extraction and headers, CORS, the OpenAPI document, templates and SMTP, tracing,
-- the scheduler of jobs, the issuer for the tests of APIs (bauth_client/src/testing.rs), and the
-- TypeScript SDK, which is in another language.
pub mod Base
pub mod Crypto
pub mod Errors
pub mod Email
pub mod Pkce
pub mod MagicCode
pub mod Schema
pub mod Queries
pub mod Clients
pub mod Server
pub mod Token
pub mod AccessToken
pub mod Sessions
pub mod OAuth
pub mod Handler
pub mod LoginFlow
pub mod MagicLink
pub mod SigningKeys
pub mod System
pub mod Tests
pub mod CurrentUser
pub mod Account
pub mod Verifier
pub mod Purge
pub mod RateLimit
pub mod MasterKey
