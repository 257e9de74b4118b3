-- ===== src/Clients/Valid.antt =====
-- What a registry read from bauth.toml holds: bauth_server/src/clients.rs.
use bauth.Base.{
  ◌≡◌, inl, inr, true, false, List, [], ◌∷◌, All, Option, none, some, Result, ok, >>=-eq-ok, ◌=?◌,
  =?_sound, Bool-cases, Option-cases, Result-cases, arith, ap, ◌∙◌,
}
use bauth.Base.Text.{Text, text}
use bauth.Clients.{Client}
use bauth.Clients.Config.{
  Url, Parsers, is_allowed, is_valid_id, check_url, origin_of, check_redirect_uri, check_origin,
  each, optional, check_optional_url, has_none, reason,
}

module _ (p : Parsers) where
  -- An absolute URL without a fragment, over https, http on this machine, or an app's scheme.
  pub record IsSafe (url : Text) : Type 0 where
    pub parsed : Url
    pub found : p.parse_url url ≡ ok parsed
    pub plain : parsed.fragment ≡ none
    pub allowed : is_allowed parsed ≡ true

  -- One that is written as the parser prints it.
  pub record IsCanonical (url : Text) : Type 0 where
    pub safe : IsSafe url
    pub printed : safe.parsed.as_str ≡ url

  pub record IsOrigin (origin : Text) : Type 0 where
    pub parsed : Url
    pub found : p.parse_url origin ≡ ok parsed
    pub printed : origin_of p parsed ≡ some origin

  pub record IsValid (client : Client) : Type 0 where
    pub id : is_valid_id client.id ≡ true
    pub reachable : has_none p client.redirect_uris ≡ false
    pub redirect_uris : All IsCanonical client.redirect_uris
    pub magic_link_url : IsSafe client.magic_link_url
    pub email_change_url : All IsSafe (optional p client.email_change_url)
    pub allowed_origins : All IsOrigin client.allowed_origins

  check_url_inv :
      (field url : Text) {parsed : Url}
      → check_url p field url ≡ ok parsed
      → (s : IsSafe url) × (s.parsed ≡ parsed)
  unfolding check_url
  check_url_inv field url e = elim (Result-cases (p.parse_url url)) [
    | inr (x, failed) ↦ absurd (ground arith)
    | inl (u, found) ↦ elim (Option-cases u.fragment) [
      | inr (f, some_fragment) ↦ absurd (ground arith)
      | inl plain ↦ elim (Bool-cases (is_allowed u)) [
        | inr other ↦ absurd (ground arith)
        | inl allowed ↦
            (record { parsed = u; found = found; plain = plain; allowed = allowed }, ground arith)
      ]
    ]
  ]

  check_redirect_uri_inv : (uri : Text) → check_redirect_uri p uri ≡ ok tt → IsCanonical uri
  unfolding check_redirect_uri
  check_redirect_uri_inv uri e = elim (Result-cases (p.parse_url uri)) [
    | inr (x, failed) ↦ absurd (ground arith)
    | inl (u, found) ↦ elim (Bool-cases (u.as_str =? uri)) [
      | inr other ↦ absurd (ground arith)
      | inl same ↦ elim (Result-cases (check_url p (text "redirect_uri") uri)) [
        | inr (x, failed) ↦ absurd (ground arith)
        | inl (v, checked) ↦
            let (s, _) = check_url_inv (text "redirect_uri") uri checked in
            let one : s.parsed ≡ u = ground (arith, s.found, found) in
            record {
              safe = s;
              printed = ap (λ (w : Url). w.as_str) one ∙ =?_sound u.as_str uri same;
            }
      ]
    ]
  ]

  check_origin_inv : (origin : Text) → check_origin p origin ≡ ok tt → IsOrigin origin
  unfolding check_origin
  check_origin_inv origin e = elim (Result-cases (p.parse_url origin)) [
    | inr (x, failed) ↦ absurd (ground arith)
    | inl (u, found) ↦ elim (Option-cases (origin_of p u)) [
      | inl n ↦ absurd (ground arith)
      | inr (o, made) ↦ elim (Bool-cases (o =? origin)) [
        | inr other ↦ absurd (ground arith)
        | inl same ↦ record {
          parsed = u;
          found = found;
          printed = made ∙ ap some (=?_sound o origin same);
        }
      ]
    ]
  ]

  each_inv :
      (P : Text → Type 0) (check : Text → Result Text (Unit {0}))
      → ((x : Text) → check x ≡ ok tt → P x)
      → (xs : List Text) → each p check xs ≡ ok tt
      → All P xs
  unfolding each
  each_inv P check sound [] e = tt
  each_inv P check sound (x ∷ xs) e = elim (Result-cases (check x)) [
    | inr (y, failed) ↦ absurd (ground arith)
    | inl (tt, passed) ↦ (sound x passed, each_inv P check sound xs (ground arith))
  ]

  check_optional_url_inv :
      (url : Option Text) → check_optional_url p url ≡ ok tt → All IsSafe (optional p url)
  check_optional_url_inv none e = tt
  check_optional_url_inv (some url) e =
      let (parsed, checked, _) = >>=-eq-ok (check_url p (text "email_change_url") url) _ e in
      ((check_url_inv (text "email_change_url") url checked).0, tt)

  pub reason_inv : (client : Client) → reason p client ≡ ok tt → IsValid client
  unfolding reason
  reason_inv client e = elim (Bool-cases (is_valid_id client.id)) [
    | inr other ↦ absurd (ground arith)
    | inl id ↦ elim (Bool-cases (has_none p client.redirect_uris)) [
      | inl missing ↦ absurd (ground arith)
      | inr reachable ↦ elim (Result-cases (each p (check_redirect_uri p) client.redirect_uris)) [
        | inr (x, failed) ↦ absurd (ground arith)
        | inl (tt, uris) ↦
            elim (Result-cases (check_url p (text "magic_link_url") client.magic_link_url)) [
              | inr (x, failed) ↦ absurd (ground arith)
              | inl (link, checked) ↦
                  elim (Result-cases (check_optional_url p client.email_change_url)) [
                    | inr (x, failed) ↦ absurd (ground arith)
                    | inl (tt, change) ↦ record {
                      id = id;
                      reachable = reachable;
                      redirect_uris =
                          each_inv IsCanonical (check_redirect_uri p) check_redirect_uri_inv
                            client.redirect_uris uris;
                      magic_link_url =
                          (check_url_inv (text "magic_link_url") client.magic_link_url checked).0;
                      email_change_url = check_optional_url_inv client.email_change_url change;
                      allowed_origins =
                          each_inv IsOrigin (check_origin p) check_origin_inv client.allowed_origins
                            (ground arith);
                    }
                  ]
            ]
      ]
    ]
  ]
