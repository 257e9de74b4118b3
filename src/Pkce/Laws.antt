-- ===== src/Pkce/Laws.antt =====
-- The checks of bauth_server/src/pkce.rs against RFC 7636, stated over characters.
use bauth.Base.{
  ℕ, ◌≤◌, ◌<◌, ◌≡◌, ◌↔◌, true, ◌∙◌, sym, all, length, arith, and-eq-true, =?_sound, =?_refl, List,
  [], ◌∷◌, ◌+◌, ◌-◌, ◌&&◌, ◌==◌, ltb, leb, map, All, refl, ap, if◌then◌else◌,
}
use bauth.Base.Text.{Text, bytes}
use bauth.Base.Text.Ascii.{bytes_ascii, ascii_bytes}
use bauth.Crypto.{Crypto}
use bauth.Pkce.{
  is_unreserved_byte, is_base64url_byte, is_valid_verifier, is_valid_challenge, verify,
}

is_unreserved_byte-lt : (b : ℕ) → is_unreserved_byte b ≡ true → b < 128
is_unreserved_byte-lt b h = ground arith

is_base64url_byte-lt : (b : ℕ) → is_base64url_byte b ≡ true → b < 128
is_base64url_byte-lt b h = ground arith

-- RFC 7636, section 4.1: 43 to 128 characters, all of them unreserved.
pub record IsVerifier (v : Text) : Type 0 where
  pub at_least : 43 ≤ length v
  pub at_most : length v ≤ 128
  pub unreserved : all is_unreserved_byte v ≡ true

pub is_valid_verifier_iff : (v : Text) → (is_valid_verifier v ≡ true) ↔ IsVerifier v
unfolding is_valid_verifier
is_valid_verifier_iff v = (to, from)
  where
    to : is_valid_verifier v ≡ true → IsVerifier v
    to h = ground (arith, bytes_ascii is_unreserved_byte is_unreserved_byte-lt v)

    from : IsVerifier v → is_valid_verifier v ≡ true
    from r =
        let same = ascii_bytes is_unreserved_byte is_unreserved_byte-lt v r.unreserved in
        ground (arith, same)

module _ (x : Crypto) where
  -- The challenge of a verifier, RFC 7636, section 4.2.
  abbrev pub challenge_of : Text → Text
  challenge_of v = x.base64url (x.sha256 (bytes v))

  -- The PKCE check accepts a verifier exactly when it has 43 to 128 characters, all of them
  -- unreserved, and its S256 challenge is the stored one.
  pub verify_iff :
      (v challenge : Text)
      → (verify x v challenge ≡ true) ↔ (IsVerifier v × (challenge_of v ≡ challenge))
  unfolding verify
  verify_iff v challenge = (to, from)
    where
      to : verify x v challenge ≡ true → IsVerifier v × (challenge_of v ≡ challenge)
      to h =
          let (shape, same) = and-eq-true _ _ h in
          ((is_valid_verifier_iff v).0 shape, =?_sound _ _ same)

      from : IsVerifier v × (challenge_of v ≡ challenge) → verify x v challenge ≡ true
      from (r, e) = rw ((is_valid_verifier_iff v).1 r, e) (=?_refl challenge)

-- The base64url alphabet, RFC 4648, table 2: the character of a value below 64.
abbrev pub sextet : ℕ → ℕ
sextet n =
    if ltb n 26
    then b'A' + n
    else if ltb n 52
    then b'a' + (n - 26)
    else if ltb n 62
    then b'0' + (n - 52)
    else if n == 62
    then b'-'
    else b'_'

is_base64url_byte-sextet : (n : ℕ) → is_base64url_byte (sextet n) ≡ true
is_base64url_byte-sextet n = ground arith

abbrev value : ℕ → ℕ
value c =
    if leb b'a' c && leb c b'z'
    then c - b'a' + 26
    else if leb b'A' c && leb c b'Z'
    then c - b'A'
    else if leb b'0' c && leb c b'9'
    then c - b'0' + 52
    else if c == b'-'
    then 62
    else 63

sextet-value : (c : ℕ) → is_base64url_byte c ≡ true → (value c < 64) × (sextet (value c) ≡ c)
sextet-value c h = ground arith

all-sextet : (ns : List ℕ) → all is_base64url_byte (map sextet ns) ≡ true
all-sextet [] = refl
all-sextet (n ∷ ns) = rw (is_base64url_byte-sextet n) (all-sextet ns)

length-map : (f : ℕ → ℕ) (ns : List ℕ) → length (map f ns) ≡ length ns
length-map f [] = refl
length-map f (n ∷ ns) = omega (arith, length-map f ns)

sextets :
    (c : Text)
    → all is_base64url_byte c ≡ true
    → (ns : List ℕ) × All (λ n. n < 64) ns × (c ≡ map sextet ns)
sextets [] h = ([], tt, refl)
sextets (c ∷ s) h =
    let (good, rest) = and-eq-true (is_base64url_byte c) (all is_base64url_byte s) h in
    let (ns, small, same) = sextets s rest in
    let (below, back) = sextet-value c good in (value c ∷ ns, (below, small), rw (back, same) refl)

-- A challenge passes the check of its shape exactly when it is the 43 characters that the
-- base64url alphabet of RFC 4648 has for 43 values below 64.
pub is_valid_challenge_iff :
    (c : Text)
    → (is_valid_challenge c ≡ true)
      ↔ ((ns : List ℕ) × (length ns ≡ 43) × All (λ n. n < 64) ns × (c ≡ map sextet ns))
unfolding is_valid_challenge
is_valid_challenge_iff c = (to, from)
  where
    to :
        is_valid_challenge c ≡ true
        → (ns : List ℕ) × (length ns ≡ 43) × All (λ n. n < 64) ns × (c ≡ map sextet ns)
    to h =
        let same = bytes_ascii is_base64url_byte is_base64url_byte-lt c in
        let (ns, small, e) = sextets c (ground (arith, same)) in
        let size : length c ≡ 43 = ground (arith, same) in
        (ns, sym (length-map sextet ns) ∙ (ap length (sym e) ∙ size), small, e)

    from :
        (ns : List ℕ) × (length ns ≡ 43) × All (λ n. n < 64) ns × (c ≡ map sextet ns)
        → is_valid_challenge c ≡ true
    from (ns, size, small, e) =
        let same =
          ascii_bytes is_base64url_byte is_base64url_byte-lt (map sextet ns) (all-sextet ns) in
        rw e (ground (arith, same, length-map sextet ns, all-sextet ns))
