-- ===== src/Clients.antt =====
-- bauth_server/src/clients.rs: the registered OAuth clients.
pub mod Config
pub mod Valid
pub mod Registry
use bauth.Base.{Bool, List, Option, none, some, any, ◌=?◌}
use bauth.Base.Text.{Text}
use bauth.Base.Table.{find}

pub record Client : Type 0 where
  pub id : Text
  pub name : Text
  pub redirect_uris : List Text
  pub allow_signup : Bool
  pub audience : Option Text
  pub magic_link_url : Text
  pub email_change_url : Option Text
  pub allowed_origins : List Text

-- `Clients::get`: the map has the clients under their ids.
unfoldable pub get : Text → List Client → Option Client
get id clients = find (λ c. c.id =? id) clients

unfoldable pub allows_redirect_uri : Client → Text → Bool
allows_redirect_uri client redirect_uri =
    any (λ allowed. allowed =? redirect_uri) client.redirect_uris

-- `Client::audience`, by the optional field.
abbrev pub unwrap_or : Option Text → Text → Text
unwrap_or none d = d
unwrap_or (some a) d = a

unfoldable pub audience : Client → Text
audience client = unwrap_or client.audience client.id
