-- ===== src/MagicCode/Digits.antt =====
-- The six digits of an emailed code, and the bytes of the message that is signed.
use native.Mathlib.Nat.{pow-suc}
use bauth.Base.{
  ℕ, zero, suc, ◌+◌, ◌-◌, ◌≤◌, ◌*◌, ◌/◌, ◌%◌, ◌^◌, ◌<◌, ◌≡◌, refl, sym, ◌∙◌, true, List, [], ◌∷◌,
  ◌++◌, all, length, length-append, arith, ◌&&◌, Bool,
}
use bauth.Base.Text.{Text, bytes, is_ascii_digit}
use bauth.Base.Text.Ascii.{bytes_ascii, ascii_bytes}
use bauth.MagicCode.{code_range, digits, zero_padded, be_bytes, message, is_well_formed}

is_ascii_digit-lt : (b : ℕ) → is_ascii_digit b ≡ true → b < 128
is_ascii_digit-lt b h = ground arith

all-append : (p : ℕ → Bool) (xs ys : List ℕ) → all p (xs ++ ys) ≡ (all p xs && all p ys)
all-append p [] ys = refl
all-append p (x ∷ xs) ys = ground (arith, all-append p xs ys)

pub length-zero_padded : (w n : ℕ) → n < 10 ^ w → length (zero_padded w n) ≡ w
unfolding zero_padded
length-zero_padded zero n h = let none_left : n ≡ 0 = omega arith in rw none_left refl
length-zero_padded (suc w) n h =
    let bound : 10 ^ suc w ≡ 10 ^ w * 10 = pow-suc 10 w in
    omega (
      arith,
      length-append (zero_padded w (n / 10)) ((b'0' + n % 10) ∷ []),
      length-zero_padded w (n / 10) (omega arith),
    )

all-digits : (fuel n : ℕ) → all is_ascii_digit (digits fuel n) ≡ true
unfolding digits
all-digits zero n = refl
all-digits (suc fuel) n = ground (
  arith,
  all-append is_ascii_digit (digits fuel (n / 10)) ((b'0' + n % 10) ∷ []),
  all-digits fuel (n / 10),
)

digits-zero_padded : (w n : ℕ) → all is_ascii_digit (zero_padded w n) ≡ true
unfolding zero_padded
digits-zero_padded zero n = all-digits n n
digits-zero_padded (suc w) n = ground (
  arith,
  all-append is_ascii_digit (zero_padded w (n / 10)) ((b'0' + n % 10) ∷ []),
  digits-zero_padded w (n / 10),
)

-- The number that a text stands for, after the digits read so far.
abbrev pub decimal : ℕ → Text → ℕ
decimal read [] = read
decimal read (c ∷ s) = decimal (read * 10 + (c - b'0')) s

decimal-append : (read : ℕ) (xs ys : Text) → decimal read (xs ++ ys) ≡ decimal (decimal read xs) ys
decimal-append read [] ys = refl
decimal-append read (c ∷ xs) ys = decimal-append (read * 10 + (c - b'0')) xs ys

-- Reading one more digit.
decimal-snoc :
    (xs : Text) (n : ℕ) → decimal 0 xs ≡ n / 10 → decimal 0 (xs ++ (b'0' + n % 10) ∷ []) ≡ n
decimal-snoc xs n e = rw (decimal-append 0 xs ((b'0' + n % 10) ∷ []), e) (omega arith)

decimal-digits : (fuel n : ℕ) → n ≤ fuel → decimal 0 (digits fuel n) ≡ n
unfolding digits
decimal-digits zero n h = omega arith
decimal-digits (suc fuel) n h =
    ground (arith, decimal-snoc (digits fuel (n / 10)) n, decimal-digits fuel (n / 10))

pub decimal-zero_padded : (w n : ℕ) → decimal 0 (zero_padded w n) ≡ n
unfolding zero_padded
decimal-zero_padded zero n = decimal-digits n n (omega arith)
decimal-zero_padded (suc w) n =
    decimal-snoc (zero_padded w (n / 10)) n (decimal-zero_padded w (n / 10))

pub bytes-zero_padded : (w n : ℕ) → bytes (zero_padded w n) ≡ zero_padded w n
bytes-zero_padded w n =
    ascii_bytes is_ascii_digit is_ascii_digit-lt (zero_padded w n) (digits-zero_padded w n)

-- A code that is well formed is its own bytes.
pub bytes-is_well_formed : (c : Text) → is_well_formed c ≡ true → bytes c ≡ c
unfolding is_well_formed
bytes-is_well_formed c h = ground (arith, bytes_ascii is_ascii_digit is_ascii_digit-lt c)

pub is_well_formed-zero_padded : (n : ℕ) → n < code_range → is_well_formed (zero_padded 6 n) ≡ true
unfolding is_well_formed
is_well_formed-zero_padded n h =
    rw (bytes-zero_padded 6 n) (ground (arith, length-zero_padded 6 n h, digits-zero_padded 6 n))

-- The last member and the rest of a list that ends in one.
snoc-injective : (xs ys : List ℕ) (a b : ℕ) → xs ++ a ∷ [] ≡ ys ++ b ∷ [] → (xs ≡ ys) × (a ≡ b)
snoc-injective [] [] a b e = ground arith
snoc-injective [] (y ∷ ys) a b e = absurd (no ys (ground arith))
  where
    no : (zs : List ℕ) → [] ≡ zs ++ b ∷ [] → ⊥
    no [] h = ground arith
    no (z ∷ zs) h = ground arith
snoc-injective (x ∷ xs) [] a b e = absurd (no xs (ground arith))
  where
    no : (zs : List ℕ) → zs ++ a ∷ [] ≡ [] → ⊥
    no [] h = ground arith
    no (z ∷ zs) h = ground arith
snoc-injective (x ∷ xs) (y ∷ ys) a b e = ground (arith, snoc-injective xs ys a b)

abbrev pub u128 : ℕ
u128 = 256 ^ 16

be_bytes-injective : (w m n : ℕ) → m < 256 ^ w → n < 256 ^ w → be_bytes w m ≡ be_bytes w n → m ≡ n
unfolding be_bytes
be_bytes-injective zero m n p q e = omega arith
be_bytes-injective (suc w) m n p q e =
    let (rest, byte) =
      snoc-injective (be_bytes w (m / 256)) (be_bytes w (n / 256)) (m % 256) (n % 256) e in
    let bound : 256 ^ suc w ≡ 256 ^ w * 256 = pow-suc 256 w in
    let high : m / 256 ≡ n / 256 =
      be_bytes-injective w (m / 256) (n / 256) (omega arith) (omega arith) rest in
    omega arith

length-be_bytes : (w n : ℕ) → length (be_bytes w n) ≡ w
unfolding be_bytes
length-be_bytes zero n = refl
length-be_bytes (suc w) n =
    omega
      (arith, length-append (be_bytes w (n / 256)) ((n % 256) ∷ []), length-be_bytes w (n / 256))

append-injective :
    (ks bs cs ds : List ℕ) → length ks ≡ length bs → ks ++ cs ≡ bs ++ ds → (ks ≡ bs) × (cs ≡ ds)
append-injective [] [] cs ds l e = (refl, e)
append-injective [] (b ∷ bs) cs ds l e = absurd (omega arith)
append-injective (a ∷ ks) [] cs ds l e = absurd (omega arith)
append-injective (a ∷ ks) (b ∷ bs) cs ds l e = ground (arith, append-injective ks bs cs ds)

-- The signed message determines the owner and the bytes of the code.
pub message-injective :
    (o p : ℕ) (c d : Text)
    → o < u128
    → p < u128
    → message o c ≡ message p d
    → (o ≡ p) × (bytes c ≡ bytes d)
unfolding message
message-injective o p c d ho hp e =
    let (owners, codes) =
      append-injective (be_bytes 16 o) (be_bytes 16 p) (bytes c) (bytes d)
        (length-be_bytes 16 o ∙ sym (length-be_bytes 16 p)) e in
    (be_bytes-injective 16 o p ho hp owners, codes)
