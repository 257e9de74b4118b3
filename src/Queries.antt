-- ===== src/Queries.antt =====
-- bauth_server/src/queries: one function per statement, over the tables of `Schema`. `now` is the
-- database's `now()`, and the id that `DEFAULT uuidv7()` gives a new row is an argument.
pub mod Users
pub mod LoginFlows
pub mod AuthorizationCodes
pub mod Sessions
pub mod SigningKeys
pub mod Cascades
pub mod Confirmations
pub mod EmailChanges
pub mod RefreshTokens
pub mod MagicLinks
