-- ===== src/Tests/Proxies.antt =====
-- Addresses behind a proxy: an address is read from its last character.
use bauth.Base.{ℕ, ◌≡◌, refl, List, [], ◌∷◌, ◌++◌, Option, none, some, ◌==◌, if◌then◌else◌}
use bauth.Base.Text.{Text, text}
use bauth.RateLimit.{IpAddr, v4, Ips, resolve}
use bauth.RateLimit.Forged

abbrev digit : Text → Option IpAddr
digit [] = none
digit (c ∷ s) = some (v4 c)

abbrev ips : Ips
ips = record { parse = digit; print_v4 = λ ip. []; print_v6 = λ upper lower. [] }

-- The proxy `p` was asked by `c`, which says that it was asked by `f`.
resolve-forged_example :
    resolve ips (v4 b'p') (text "f" ++ b',' ∷ text "c") (v4 b'p' ∷ [])
    ≡ resolve ips (v4 b'p') (text "c") (v4 b'p' ∷ [])
unfolding bauth.Base.Text.Words.split bauth.Base.Text.Words.skip_whitespace
resolve-forged_example =
    Forged.resolve-forged ips (v4 b'p' ∷ []) (v4 b'p') (text "f") (text "c") refl

seen : resolve ips (v4 b'p') (text "f, c") (v4 b'p' ∷ []) ≡ v4 b'c'
unfolding resolve bauth.Base.Text.Words.skip_whitespace
seen = refl
