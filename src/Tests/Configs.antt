-- ===== src/Tests/Configs.antt =====
-- The registry of one client.
use bauth.Base.{◌≡◌, refl, List, [], ◌∷◌, All, none, some, ok, Result}
use bauth.Base.Text.{Text, text}
use bauth.Clients.{get}
use bauth.Clients.Config.{Parsers, from_toml}
use bauth.Clients.Registry
use bauth.Clients.Valid.{IsValid}
use bauth.Tests.Fixtures.{web}

-- Every URL is at this host.
abbrev parsers : Parsers
parsers = record {
  parse_url = λ url. ok (record {
    as_str = url;
    scheme = text "https";
    host_str = some (text "app");
    port = none;
    fragment = none;
  });
  print_port = λ port. [];
  parse_toml = λ content. ok (web ∷ []);
}

read : from_toml parsers (text "t") ≡ ok (web ∷ [])
unfolding from_toml bauth.Base.Text.bytes bauth.Base.◌=?◌ get bauth.Base.Table.find
read = refl

from_toml-IsValid_example :
    All (IsValid parsers) (web ∷ []) × All (λ c. get c.id (web ∷ []) ≡ some c) (web ∷ [])
from_toml-IsValid_example =
    Registry.from_toml-IsValid parsers (text "t") (web ∷ []) (web ∷ []) refl read
