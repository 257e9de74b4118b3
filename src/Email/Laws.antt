-- ===== src/Email/Laws.antt =====
-- The addresses that bauth_server/src/email.rs accepts, stated without the search for the `@`.
use bauth.Base.{
  ◌≡◌, ◌≢◌, ◌<◌, ◌⊎◌, refl, Bool, All, All-map, ◌↔◌, true, false, not, ◌&&◌, ◌||◌, [], ◌∷◌, ◌++◌,
  some, any, ◌≤◌, inl, inr, Option-cases, arith,
}
use bauth.Base.Text.{Text, len, trim_matches}
use bauth.Base.Text.Words.{is_whitespace, split_once, is_empty}
use bauth.Email.{is_control, contains, starts_with, ends_with, is_domain, is_valid}
use bauth.Email.Parts.{
  split_once_iff, any-false, contains-false, contains-true, starts_with-false, ends_with-false,
}

printable_iff :
    (s : Text)
    → (any (λ c. is_whitespace c || is_control c) s ≡ false)
      ↔ (All (λ c. is_whitespace c ≡ false) s × All (λ c. (32 ≤ c) × ((c < 127) ⊎ (159 < c))) s)
unfolding is_control
printable_iff s = (
  λ h.
      let each = (any-false (λ c. is_whitespace c || is_control c) s).0 h in
      (All-map _ _ (λ c t. ground arith) s each, All-map _ _ (λ c t. ground arith) s each),
  λ (solid, plain). join s solid plain,
)
  where
    join :
        (s : Text)
        → All (λ c. is_whitespace c ≡ false) s
        → All (λ c. (32 ≤ c) × ((c < 127) ⊎ (159 < c))) s
        → any (λ c. is_whitespace c || is_control c) s ≡ false
    join [] h k = refl
    join (c ∷ s) h k = ground (arith, h.0, k.0, join s h.1 k.1)

is_empty-false : (s : Text) → (is_empty s ≡ false) ↔ (s ≢ [])
is_empty-false [] = (λ h e. ground arith, λ h. absurd (h refl))
is_empty-false (c ∷ s) = (λ h e. ground arith, λ h. refl)

-- The domain of an address.
pub record IsDomain (domain : Text) : Type 0 where
  pub plain : All (λ c. c ≢ b'@') domain
  pub dotted : (before : Text) × (after : Text) × (domain ≡ before ++ b'.' ∷ after)
  pub no_dot_first : (rest : Text) → domain ≢ b'.' ∷ rest
  pub no_dot_last : (front : Text) → domain ≢ front ++ b'.' ∷ []

is_domain-and :
    (a b c d : Bool)
    → (not a && (b && (not c && not d))) ≡ true
    → (a ≡ false) × (b ≡ true) × (c ≡ false) × (d ≡ false)
is_domain-and a b c d h = ground arith

is_domain_iff : (domain : Text) → (is_domain domain ≡ true) ↔ IsDomain domain
is_domain_iff domain = (
  λ h.
      let (plain, dotted, first, last) =
        is_domain-and (contains b'@' domain) (contains b'.' domain) (starts_with b'.' domain)
          (ends_with b'.' domain) h in
      record {
        plain = (contains-false b'@' domain).0 plain;
        dotted = (contains-true b'.' domain).0 dotted;
        no_dot_first = (starts_with-false b'.' domain).0 first;
        no_dot_last = (ends_with-false b'.' domain).0 last;
      },
  λ r.
      rw
        (
          (contains-false b'@' domain).1 r.plain,
          (contains-true b'.' domain).1 r.dotted,
          (starts_with-false b'.' domain).1 r.no_dot_first,
          (ends_with-false b'.' domain).1 r.no_dot_last,
        )
        refl,
)

-- The tests of `is_valid` on the parts that the search for the `@` finds.
record IsParsed (s local domain : Text) : Type 0 where
  pub short : len s ≤ 254
  pub clean : any (λ c. is_whitespace c || is_control c) s ≡ false
  pub split : split_once b'@' s ≡ some (local, domain)
  pub local_given : is_empty local ≡ false
  pub domain_formed : is_domain domain ≡ true

parsed :
    (email : Text)
    → is_valid email ≡ true
    → (local : Text) × (domain : Text) × IsParsed (trim_matches b' ' email) local domain
unfolding is_valid
parsed email h = elim (Option-cases (split_once b'@' (trim_matches b' ' email))) [
  | inl n ↦ absurd (ground arith)
  | inr ((local, domain), s) ↦ (
    local,
    domain,
    record {
      short = ground arith;
      clean = ground arith;
      split = s;
      local_given = ground arith;
      domain_formed = ground arith;
    },
  )
]

valid_of_parsed :
    (email local domain : Text)
    → IsParsed (trim_matches b' ' email) local domain
    → is_valid email ≡ true
unfolding is_valid
valid_of_parsed email local domain r =
    ground (arith, r.split, r.short, r.clean, r.local_given, r.domain_formed)

-- An address after the removal of spaces around it.
pub record IsAddress (s : Text) : Type 0 where
  pub short : len s ≤ 254
  pub solid : All (λ c. is_whitespace c ≡ false) s
  -- No member of the category Cc.
  pub printable : All (λ c. (32 ≤ c) × ((c < 127) ⊎ (159 < c))) s
  pub local : Text
  pub domain : Text
  pub parts : s ≡ local ++ b'@' ∷ domain
  pub local_plain : All (λ c. c ≢ b'@') local
  pub local_given : local ≢ []
  pub domain_formed : IsDomain domain

-- An email passes the check exactly when, without surrounding spaces, it has at most 254 bytes,
-- no white space and no control character, and consists of a non-empty local part without `@`,
-- an `@`, and a domain that has no `@`, has a dot, and neither starts nor ends with one.
pub is_valid_iff : (email : Text) → (is_valid email ≡ true) ↔ IsAddress (trim_matches b' ' email)
is_valid_iff email = (to, from)
  where
    trimmed : Text
    trimmed = trim_matches b' ' email

    to : is_valid email ≡ true → IsAddress trimmed
    to h =
        let (local, domain, r) = parsed email h in
        let (parts, plain) = (split_once_iff b'@' trimmed local domain).0 r.split in
        let (solid, printable) = (printable_iff trimmed).0 r.clean in
        record {
          short = r.short;
          solid = solid;
          printable = printable;
          local = local;
          domain = domain;
          parts = parts;
          local_plain = (contains-false b'@' local).0 plain;
          local_given = (is_empty-false local).0 r.local_given;
          domain_formed = (is_domain_iff domain).0 r.domain_formed;
        }

    from : IsAddress trimmed → is_valid email ≡ true
    from r = valid_of_parsed email r.local r.domain (record {
      short = r.short;
      clean = (printable_iff trimmed).1 (r.solid, r.printable);
      split =
          (split_once_iff b'@' trimmed r.local r.domain).1
            (r.parts, (contains-false b'@' r.local).1 r.local_plain);
      local_given = (is_empty-false r.local).1 r.local_given;
      domain_formed = (is_domain_iff r.domain).1 r.domain_formed;
    })
