-- ===== src/Std/Base64/RoundTrip.antt =====
-- Decoding undoes encoding.
use grantd.Base.{
  ℕ, ◌+◌, ◌*◌, ◌/◌, ◌%◌, ◌<◌, ◌≡◌, refl, false, ◌||◌, some, [], ◌∷◌, Bytes, ◌==◌, arith, All,
}
use grantd.Std.Base32.{IsByte}
use grantd.Std.Base64.{
  url_alphabet, b64_char, b64_value, strip_newlines, encode_raw, decode_digits, decode_raw,
}

b64_value-b64_char : (v : ℕ) → v < 64 → b64_value url_alphabet (b64_char url_alphabet v) ≡ some v
unfolding b64_value b64_char
b64_value-b64_char v h = ground arith

b64_char-ne-newline :
    (v : ℕ) → v < 64 → ((b64_char url_alphabet v == 10) || (b64_char url_alphabet v == 13)) ≡ false
unfolding b64_char
b64_char-ne-newline v h = ground arith

abbrev url : ℕ → ℕ
url v = b64_char url_alphabet v

strip_digit :
    (v : ℕ) (cs : Bytes) → v < 64 → strip_newlines (url v ∷ cs) ≡ url v ∷ strip_newlines cs
unfolding strip_newlines
strip_digit v cs h = rw (b64_char-ne-newline v h) refl

strip_newlines-encode_raw :
    (bs : Bytes)
    → All IsByte bs
    → strip_newlines (encode_raw url_alphabet bs) ≡ encode_raw url_alphabet bs
unfolding encode_raw
strip_newlines-encode_raw [] h = unfold strip_newlines in refl
strip_newlines-encode_raw (a ∷ []) h =
    rw (strip_digit (a / 4) _ (omega arith), strip_digit (a % 4 * 16) _ (omega arith))
      (unfold strip_newlines in refl)
strip_newlines-encode_raw (a ∷ b ∷ []) h =
    rw
      (
        strip_digit (a / 4) _ (omega arith),
        strip_digit (a % 4 * 16 + b / 16) _ (omega arith),
        strip_digit (b % 16 * 4) _ (omega arith),
      )
      (unfold strip_newlines in refl)
strip_newlines-encode_raw (a ∷ b ∷ c ∷ rest) h =
    rw
      (
        strip_digit (a / 4) _ (omega arith),
        strip_digit (a % 4 * 16 + b / 16) _ (omega arith),
        strip_digit (b % 16 * 4 + c / 64) _ (omega arith),
        strip_digit (c % 64) _ (omega arith),
        strip_newlines-encode_raw rest h.1.1.1,
      )
      refl

decode_digits-encode_raw :
    (bs : Bytes) → All IsByte bs → decode_digits url_alphabet (encode_raw url_alphabet bs) ≡ some bs
unfolding encode_raw decode_digits
decode_digits-encode_raw [] h = refl
decode_digits-encode_raw (a ∷ []) h =
    rw (b64_value-b64_char (a / 4) (omega arith), b64_value-b64_char (a % 4 * 16) (omega arith))
      (ground arith)
decode_digits-encode_raw (a ∷ b ∷ []) h =
    rw
      (
        b64_value-b64_char (a / 4) (omega arith),
        b64_value-b64_char (a % 4 * 16 + b / 16) (omega arith),
        b64_value-b64_char (b % 16 * 4) (omega arith),
      )
      (ground arith)
decode_digits-encode_raw (a ∷ b ∷ c ∷ rest) h =
    rw
      (
        b64_value-b64_char (a / 4) (omega arith),
        b64_value-b64_char (a % 4 * 16 + b / 16) (omega arith),
        b64_value-b64_char (b % 16 * 4 + c / 64) (omega arith),
        b64_value-b64_char (c % 64) (omega arith),
        decode_digits-encode_raw rest h.1.1.1,
      )
      (ground arith)

pub decode_raw-encode_raw :
    (bs : Bytes) → All IsByte bs → decode_raw url_alphabet (encode_raw url_alphabet bs) ≡ some bs
unfolding decode_raw
decode_raw-encode_raw bs h = rw (strip_newlines-encode_raw bs h) (decode_digits-encode_raw bs h)
