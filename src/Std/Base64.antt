-- ===== src/Std/Base64.antt =====
-- encoding/base64: StdEncoding (with `=` padding) and RawURLEncoding (without). As in Go, a decoder
-- passes over '\r' and '\n', and does not look at the bits that a shorter last group leaves over.
pub mod RoundTrip
use grantd.Base.{
  ℕ, ◌+◌, ◌-◌, ◌*◌, ◌/◌, ◌%◌, ◌≡◌, refl, Bool, not, ◌&&◌, ◌||◌, Option, none, some, List, [], ◌∷◌,
  ◌++◌, Bytes, codes, ltb, leb, ◌==◌, if◌then◌else◌,
}

-- The characters of 62 and 63.
pub record Alphabet : Type 0 where
  pub c62 : ℕ
  pub c63 : ℕ

abbrev pub std_alphabet : Alphabet
std_alphabet = record { c62 = b'+'; c63 = b'/' }

abbrev pub url_alphabet : Alphabet
url_alphabet = record { c62 = b'-'; c63 = b'_' }

infixl 5 ◌>>=◌
abbrev pub ◌>>=◌ : {A B : Type 0} → Option A → (A → Option B) → Option B
none >>= f = none
some a >>= f = f a

-- The bytes of two and three digits.
one_byte : ℕ → ℕ → ℕ
one_byte p q = p * 4 + q / 16

two_bytes : ℕ → ℕ → ℕ → Bytes
unfolding one_byte
two_bytes p q r = one_byte p q ∷ (q % 16 * 16 + r / 4) ∷ []

strip_newlines : Bytes → Bytes
strip_newlines [] = []
strip_newlines (c ∷ cs) =
    let rest = strip_newlines cs in if (c == 10) || (c == 13) then rest else c ∷ rest

module _ (al : Alphabet) where
  unfoldable pub b64_char : ℕ → ℕ
  b64_char v =
      if ltb v 26
      then b'A' + v
      else if ltb v 52
      then b'a' + (v - 26)
      else if ltb v 62
      then b'0' + (v - 52)
      else if v == 62
      then al.c62
      else al.c63

  unfoldable pub b64_value : ℕ → Option ℕ
  b64_value c =
      if leb b'A' c && leb c b'Z'
      then some (c - b'A')
      else if leb b'a' c && leb c b'z'
      then some (c - b'a' + 26)
      else if leb b'0' c && leb c b'9'
      then some (c - b'0' + 52)
      else if c == al.c62
      then some 62
      else if c == al.c63
      then some 63
      else none

  -- RawURLEncoding.EncodeToString
  unfoldable pub encode_raw : Bytes → Bytes
  encode_raw (a ∷ b ∷ c ∷ rest) =
      b64_char (a / 4)
      ∷ b64_char (a % 4 * 16 + b / 16)
      ∷ b64_char (b % 16 * 4 + c / 64)
      ∷ b64_char (c % 64)
      ∷ encode_raw rest
  encode_raw (a ∷ b ∷ []) =
      b64_char (a / 4) ∷ b64_char (a % 4 * 16 + b / 16) ∷ b64_char (b % 16 * 4) ∷ []
  encode_raw (a ∷ []) = b64_char (a / 4) ∷ b64_char (a % 4 * 16) ∷ []
  encode_raw [] = []

  -- StdEncoding.EncodeToString
  unfoldable pub encode_padded : Bytes → Bytes
  encode_padded (a ∷ b ∷ c ∷ rest) =
      b64_char (a / 4)
      ∷ b64_char (a % 4 * 16 + b / 16)
      ∷ b64_char (b % 16 * 4 + c / 64)
      ∷ b64_char (c % 64)
      ∷ encode_padded rest
  encode_padded (a ∷ b ∷ []) =
      b64_char (a / 4) ∷ b64_char (a % 4 * 16 + b / 16) ∷ b64_char (b % 16 * 4) ∷ b'=' ∷ []
  encode_padded (a ∷ []) = b64_char (a / 4) ∷ b64_char (a % 4 * 16) ∷ b'=' ∷ b'=' ∷ []
  encode_padded [] = []

  unfoldable pub decode_digits : Bytes → Option Bytes
  unfolding one_byte two_bytes
  decode_digits (a ∷ b ∷ c ∷ d ∷ rest) = do
    p ← b64_value a
    q ← b64_value b
    r ← b64_value c
    s ← b64_value d
    more ← decode_digits rest
    some (one_byte p q ∷ (q % 16 * 16 + r / 4) ∷ (r % 4 * 64 + s) ∷ more)
  decode_digits (a ∷ b ∷ c ∷ []) = do
    p ← b64_value a
    q ← b64_value b
    r ← b64_value c
    some (two_bytes p q r)
  decode_digits (a ∷ b ∷ []) = do p ← b64_value a; q ← b64_value b; some (one_byte p q ∷ [])
  decode_digits (a ∷ []) = none
  decode_digits [] = some []

  unfoldable pub decode_padded_digits : Bytes → Option Bytes
  unfolding one_byte two_bytes
  decode_padded_digits (a ∷ b ∷ c ∷ d ∷ []) = do
    p ← b64_value a
    q ← b64_value b
    if (c == b'=') && (d == b'=') then some (one_byte p q ∷ []) else do
      r ← b64_value c
      if d == b'=' then some (two_bytes p q r) else do
        s ← b64_value d
        some (one_byte p q ∷ (q % 16 * 16 + r / 4) ∷ (r % 4 * 64 + s) ∷ [])
  decode_padded_digits (a ∷ b ∷ c ∷ d ∷ rest) = do
    p ← b64_value a
    q ← b64_value b
    r ← b64_value c
    s ← b64_value d
    more ← decode_padded_digits rest
    some (one_byte p q ∷ (q % 16 * 16 + r / 4) ∷ (r % 4 * 64 + s) ∷ more)
  decode_padded_digits [] = some []
  decode_padded_digits _ = none

  -- RawURLEncoding.DecodeString
  unfoldable pub decode_raw : Bytes → Option Bytes
  unfolding strip_newlines
  decode_raw s = decode_digits (strip_newlines s)

  -- StdEncoding.DecodeString
  unfoldable pub decode_padded : Bytes → Option Bytes
  unfolding strip_newlines
  decode_padded s = decode_padded_digits (strip_newlines s)

rfc4648_vector : encode_padded std_alphabet (codes "fooba") ≡ codes "Zm9vYmE="
unfolding encode_padded b64_char
rfc4648_vector = refl

rfc4648_decoded : decode_padded std_alphabet (codes "Zm9v\nYg==") ≡ some (codes "foob")
unfolding decode_padded decode_padded_digits b64_value
rfc4648_decoded = refl
