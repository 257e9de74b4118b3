-- ===== src/Tests/Sealing.antt =====
-- A toy cipher that authenticates its context, and keys sealed with it.
use bauth.Base.{
  ℕ, zero, suc, ◌≡◌, ◌=?◌, =?_sound, =?_refl, refl, inl, inr, List, [], ◌∷◌, ◌++◌, Option, none,
  some, err, length, take, drop, if◌then◌else◌, Bool-cases, arith, ap, sym, ◌∙◌,
}
use bauth.Base.Text.{Text, text, bytes}
use bauth.MasterKey.{Cipher, MasterKey, generate, opener}
use bauth.MasterKey.Sealed
use bauth.MasterKey.Sealed.{IsAead, IsPrinted, take-append, drop-append}
use bauth.Schema.{SigningKeyRow}
use bauth.SigningKeys
use bauth.SigningKeys.{load_key}
use bauth.Tests.Fixtures.{plain_crypto}

-- The context with its length before the message.
abbrev open_with : List ℕ → List ℕ → Option (List ℕ)
open_with context [] = none
open_with context (n ∷ rest) = if take n rest =? context then some (drop n rest) else none

abbrev framed : Cipher
framed = record {
  encrypt = λ key nonce context plaintext. length context ∷ (context ++ plaintext);
  decrypt = λ key nonce context ciphertext. open_with context ciphertext;
  decode = λ encoded. some encoded;
}

framed-IsAead : IsAead framed
framed-IsAead = record {
  opens = λ key nonce context plaintext.
      rw
        (
          take-append (length context) context plaintext refl,
          drop-append (length context) context plaintext refl,
          =?_refl context,
        )
        refl;
  refuses = λ key nonce context other plaintext away.
      rw (take-append (length context) context plaintext refl)
        (elim (Bool-cases (context =? other)) [
          | inl t ↦ absurd (away (=?_sound context other t))
          | inr f ↦ rw f refl
        ]);
}

-- Ids as so many strokes.
abbrev strokes : ℕ → Text
strokes zero = []
strokes (suc n) = b'1' ∷ strokes n

length-strokes : (n : ℕ) → length (bytes (strokes n)) ≡ n
unfolding bytes
length-strokes zero = refl
length-strokes (suc n) = omega (arith, length-strokes n)

strokes-IsPrinted : IsPrinted strokes
strokes-IsPrinted = record {
  distinct = λ a b e. sym (length-strokes a) ∙ (ap length e ∙ length-strokes b);
}

abbrev master : MasterKey
master = record { cipher = text "k"; derivation = text "k" }

abbrev seed : List ℕ
seed = text "0123456789abcdef0123456789abcdef"

abbrev nonce : List ℕ
nonce = text "0123456789abcdef01234567"

-- The row of the key 3 holds what was sealed for the key 2.
abbrev copied : SigningKeyRow
copied = record {
  id = 3;
  public_key = seed;
  encrypted_private_key =
      (generate framed plain_crypto strokes (λ s. s) master 2 seed nonce).encrypted_private_key;
  active_at = 0;
  retired_at = none;
}

generate-load_key_example :
    load_key plain_crypto (opener framed strokes master) copied ≡ err (SigningKeys.decrypt_error 3)
generate-load_key_example =
    Sealed.generate-load_key framed framed-IsAead plain_crypto strokes strokes-IsPrinted (λ s. s)
      master 2 seed nonce copied refl refl refl
