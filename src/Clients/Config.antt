-- ===== src/Clients/Config.antt =====
-- bauth_server/src/clients.rs: the validation of bauth.toml, once read. The crates url and toml are
-- parameters.
use bauth.Base.{
  ℕ, Bool, true, false, not, ◌&&◌, ◌||◌, List, [], ◌∷◌, ◌++◌, all, any, Option, none, some, Result,
  ok, err, ◌>>=◌, ◌>>◌, guard, map_err, ◌==◌, ◌=?◌, is_none, if◌then◌else◌,
}
use bauth.Base.Text.{Text, text, bytes, is_ascii_lowercase, is_ascii_digit}
use bauth.Base.Text.Words.{is_empty}
use bauth.Clients.{Client, get}

-- What the code reads of a parsed URL.
pub record Url : Type 0 where
  pub as_str : Text
  pub scheme : Text
  pub host_str : Option Text
  pub port : Option ℕ
  pub fragment : Option Text

-- `Url::parse`, how a port is printed, and `toml::from_str` for the clients of the file.
pub record Parsers : Type 0 where
  pub parse_url : Text → Result Text Url
  pub print_port : ℕ → Text
  pub parse_toml : Text → Result Text (List Client)

-- Reading the file is left out.
pub data ClientsError : Type 0 where
  parse : Text → ClientsError
  invalid : Text → Text → ClientsError

abbrev pub is_loopback : Option Text → Bool
is_loopback none = false
is_loopback (some host) =
    (host =? text "localhost") || ((host =? text "127.0.0.1") || (host =? text "[::1]"))

abbrev pub is_allowed : Url → Bool
is_allowed url =
    (url.scheme =? text "https")
    || (((url.scheme =? text "http") && is_loopback url.host_str)
        || any (λ c. c == b'.') url.scheme)

abbrev pub is_valid_id : Text → Bool
is_valid_id id =
    not (is_empty id)
    && all (λ b. is_ascii_lowercase b || (is_ascii_digit b || (b == b'-' || b == b'_'))) (bytes id)

-- A field and a value, as the messages quote them.
abbrev pub quoted : Text → Text → Text → Text
quoted field value reason = field ++ (text " `" ++ (value ++ (text "`" ++ reason)))

module _ (p : Parsers) where
  unfoldable pub check_url : Text → Text → Result Text Url
  check_url field url = do
    parsed ← map_err (λ e. quoted field url (text ": " ++ e)) (p.parse_url url)
    guard (is_none parsed.fragment) (quoted field url (text " must not contain a fragment"))
    guard (is_allowed parsed) (
        quoted field url (
          text
            " must use https, http on localhost, or an app scheme like `fr.example.app:/callback`"))
    ok parsed

  unfoldable pub origin_of : Url → Option Text
  origin_of url = elim url.host_str [
    | none ↦ none
    | some host ↦ elim url.port [
      | none ↦ some (url.scheme ++ (text "://" ++ host))
      | some port ↦ some (url.scheme ++ (text "://" ++ (host ++ (text ":" ++ p.print_port port))))
    ]
  ]

  -- `filter_map` of the URLs, then the two filters on each.
  abbrev pub web_origin : Result Text Url → List Text
  web_origin (err e) = []
  web_origin (ok url) =
      if (url.scheme =? text "http") || (url.scheme =? text "https")
      then elim (origin_of url) [ none ↦ [] | some origin ↦ origin ∷ [] ]
      else []

  unfoldable pub web_origins : List Text → List Text
  unfolding origin_of
  web_origins [] = []
  web_origins (url ∷ urls) = web_origin (p.parse_url url) ++ web_origins urls

  abbrev pub optional : Option Text → List Text
  optional none = []
  optional (some url) = url ∷ []

  unfoldable pub origins : Client → List Text
  unfolding web_origins
  origins client =
      web_origins
        (client.redirect_uris ++ (client.magic_link_url ∷ optional client.email_change_url))
      ++ client.allowed_origins

  -- The body of the loop over `redirect_uris`.
  unfoldable pub check_redirect_uri : Text → Result Text (Unit {0})
  unfolding check_url
  check_redirect_uri uri = do
    parsed ← map_err (λ e. quoted (text "redirect_uri") uri (text ": " ++ e)) (p.parse_url uri)
    guard (parsed.as_str =? uri) (
        quoted (text "redirect_uri") uri (text " must be written `" ++ (parsed.as_str ++ text "`")))
    checked ← check_url (text "redirect_uri") uri
    ok tt

  -- The body of the loop over `allowed_origins`.
  abbrev pub is_origin : Option Text → Text → Bool
  is_origin none origin = false
  is_origin (some parsed) origin = parsed =? origin

  unfoldable pub check_origin : Text → Result Text (Unit {0})
  unfolding origin_of
  check_origin origin = do
    parsed ←
        map_err (λ e. quoted (text "allowed_origin") origin (text ": " ++ e)) (p.parse_url origin)
    guard (is_origin (origin_of parsed) origin) (
        quoted (text "allowed_origin") origin
          (text " must be an origin like `https://app.example.com` (no path, no trailing slash)"))

  -- A loop that ends at the first error.
  unfoldable pub each : (Text → Result Text (Unit {0})) → List Text → Result Text (Unit {0})
  each check [] = ok tt
  each check (x ∷ xs) = check x >> each check xs

  abbrev pub check_optional_url : Option Text → Result Text (Unit {0})
  check_optional_url none = ok tt
  check_optional_url (some url) = check_url (text "email_change_url") url >>= λ parsed. ok tt

  abbrev pub has_none : List Text → Bool
  has_none [] = true
  has_none (x ∷ xs) = false

  -- The reason of `ClientsError::Invalid`.
  unfoldable pub reason : Client → Result Text (Unit {0})
  unfolding check_url check_redirect_uri check_origin each
  reason client = do
    guard (is_valid_id client.id) (text "id must match [a-z0-9_-]+")
    guard (not (has_none client.redirect_uris)) (text "at least one redirect_uri is required")
    each check_redirect_uri client.redirect_uris
    link ← check_url (text "magic_link_url") client.magic_link_url
    check_optional_url client.email_change_url
    each check_origin client.allowed_origins

  unfoldable pub validate : Client → Result ClientsError (Unit {0})
  unfolding reason
  validate client = map_err (invalid client.id) (reason client)

  -- The loop over the clients of the file, with those inserted so far.
  unfoldable pub register : List Client → List Client → Result ClientsError (List Client)
  unfolding validate
  register [] clients = ok clients
  register (client ∷ rest) clients = do
    validate client
    guard (is_none (get client.id clients)) (invalid client.id (text "duplicate id"))
    register rest (client ∷ clients)

  unfoldable pub from_toml : Text → Result ClientsError (List Client)
  unfolding register
  from_toml content = do file ← map_err parse (p.parse_toml content); register file []
