-- ===== src/RateLimit.antt =====
-- bauth_server/src/rate_limit.rs: the address that a limit is kept for, behind proxies. How addresses
-- are read and printed is the standard library's, a parameter.
pub mod Forged
use bauth.Base.{
  ℕ, ◌*◌, ◌/◌, ◌%◌, ◌^◌, Bool, true, false, not, ◌&&◌, List, [], ◌∷◌, ◌++◌, map, any, Option, none,
  some, Result, ok, err, ◌>>=◌, ok_or, ◌==◌, if◌then◌else◌,
}
use bauth.Base.Text.{Text, text}
use bauth.Base.Text.Words.{is_empty, trim, split, join}
use bauth.Errors.{ApiError, internal}
use mathlib.Core.List.{reverse}

-- 32 bits, or the upper and the lower 64 bits: the segments 0 to 3, and 4 to 7.
pub data IpAddr : Type 0 where
  v4 : ℕ → IpAddr
  v6 : ℕ → ℕ → IpAddr

-- `str::parse`, and `to_string` of the two kinds of addresses.
pub record Ips : Type 0 where
  pub parse : Text → Option IpAddr
  pub print_v4 : ℕ → Text
  pub print_v6 : ℕ → ℕ → Text

abbrev pub same_ip : IpAddr → IpAddr → Bool
same_ip (v4 a) (v4 b) = a == b
same_ip (v4 a) (v6 b c) = false
same_ip (v6 a b) (v4 c) = false
same_ip (v6 a b) (v6 c d) = (a == c) && (b == d)

-- `contains`.
abbrev pub is_trusted : List IpAddr → IpAddr → Bool
is_trusted trusted ip = any (same_ip ip) trusted

-- `Ipv6Addr::to_ipv4_mapped`: `::ffff:a.b.c.d`.
abbrev pub to_ipv4_mapped : ℕ → ℕ → Option ℕ
to_ipv4_mapped upper lower =
    if (upper == 0) && (lower / 2 ^ 32 == 0xFFFF) then some (lower % 2 ^ 32) else none

-- The `filter` of the items, trimmed, that are not empty.
unfoldable pub items : List Text → List Text
items [] = []
items (piece ∷ pieces) =
    let rest = items pieces in if is_empty (trim piece) then rest else trim piece ∷ rest

module _ (ips : Ips) where
  -- `ClientIp::key`.
  unfoldable pub key : IpAddr → Text
  key (v4 ip) = ips.print_v4 ip
  key (v6 upper lower) = elim (to_ipv4_mapped upper lower) [
    | some ip ↦ ips.print_v4 ip
    | none ↦ ips.print_v6 upper 0 ++ text "/64"
  ]

  -- The `collect` of the results: the first error, or all addresses.
  unfoldable pub parse_all : List Text → Result Text (List IpAddr)
  parse_all [] = ok []
  parse_all (ip ∷ rest) = do
    first ←
        ok_or (ips.parse ip)
          (text "BAUTH_TRUSTED_PROXIES: `" ++ (ip ++ text "` is not an IP address"))
    others ← parse_all rest
    ok (first ∷ others)

  unfoldable pub parse_trusted_proxies : Text → Result Text (List IpAddr)
  unfolding parse_all items split
  parse_trusted_proxies value = parse_all (items (split b',' value))

  -- The loop of `resolve`, from the client found so far.
  unfoldable pub walk : List IpAddr → IpAddr → List Text → IpAddr
  walk trusted client [] = client
  walk trusted client (hop ∷ hops) = elim (ips.parse hop) [
    | none ↦ client
    | some ip ↦ let rest = walk trusted ip hops in if is_trusted trusted ip then rest else ip
  ]

  unfoldable pub resolve : IpAddr → Text → List IpAddr → IpAddr
  unfolding walk split
  resolve peer forwarded_for trusted =
      let client = walk trusted peer (reverse (map trim (split b',' forwarded_for))) in
      if is_trusted trusted peer then client else peer

  -- The values of the headers that are text.
  abbrev pub texts : List (Option Text) → List Text
  texts [] = []
  texts (none ∷ values) = texts values
  texts (some value ∷ values) = value ∷ texts values

  -- `ClientIp::from_request_parts`, from the address of the peer and the values of the headers.
  unfoldable pub client_ip :
      Option IpAddr → List (Option Text) → List IpAddr → Result ApiError IpAddr
  unfolding resolve
  client_ip peer forwarded_for trusted = do
    ip ← ok_or peer internal
    ok (resolve ip (join (text ",") (texts forwarded_for)) trusted)
