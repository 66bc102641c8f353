-- ===== src/Std/Base32.antt =====
-- encoding/base32 with the alphabet of go/internal/protocol/ids.go (`b32`): lower case, no padding.
use grantd.Base.{
  ℕ, ◌+◌, ◌-◌, ◌*◌, ◌/◌, ◌%◌, ◌<◌, ◌≡◌, refl, Bool, true, ◌&&◌, ◌||◌, [], ◌∷◌, ◌++◌, Bytes, codes,
  arith, ltb, leb, if◌then◌else◌, All, length,
}

unfoldable pub b32_char : ℕ → ℕ
b32_char v = if ltb v 26 then v + b'a' else v - 26 + b'2'

-- The digits of the groups, five bytes to eight; a shorter last group is filled up with zero bits.
group5 : ℕ → ℕ → ℕ → ℕ → ℕ → Bytes
group5 a b c d e =
    b32_char (a / 8)
    ∷ b32_char (a % 8 * 4 + b / 64)
    ∷ b32_char (b / 2 % 32)
    ∷ b32_char (b % 2 * 16 + c / 16)
    ∷ b32_char (c % 16 * 2 + d / 128)
    ∷ b32_char (d / 4 % 32)
    ∷ b32_char (d % 4 * 8 + e / 32)
    ∷ b32_char (e % 32)
    ∷ []

unfoldable pub b32_encode : Bytes → Bytes
unfolding group5
b32_encode (a ∷ b ∷ c ∷ d ∷ e ∷ rest) = group5 a b c d e ++ b32_encode rest
b32_encode (a ∷ b ∷ c ∷ d ∷ []) =
    b32_char (a / 8)
    ∷ b32_char (a % 8 * 4 + b / 64)
    ∷ b32_char (b / 2 % 32)
    ∷ b32_char (b % 2 * 16 + c / 16)
    ∷ b32_char (c % 16 * 2 + d / 128)
    ∷ b32_char (d / 4 % 32)
    ∷ b32_char (d % 4 * 8)
    ∷ []
b32_encode (a ∷ b ∷ c ∷ []) =
    b32_char (a / 8)
    ∷ b32_char (a % 8 * 4 + b / 64)
    ∷ b32_char (b / 2 % 32)
    ∷ b32_char (b % 2 * 16 + c / 16)
    ∷ b32_char (c % 16 * 2)
    ∷ []
b32_encode (a ∷ b ∷ []) =
    b32_char (a / 8)
    ∷ b32_char (a % 8 * 4 + b / 64)
    ∷ b32_char (b / 2 % 32)
    ∷ b32_char (b % 2 * 16)
    ∷ []
b32_encode (a ∷ []) = b32_char (a / 8) ∷ b32_char (a % 8 * 4) ∷ []
b32_encode [] = []

-- The class [a-z2-7].
unfoldable pub is_b32_char : ℕ → Bool
is_b32_char c = (leb b'a' c && leb c b'z') || (leb b'2' c && leb c b'7')

unfoldable pub all_b32 : Bytes → Bool
all_b32 [] = true
all_b32 (c ∷ cs) = is_b32_char c && all_b32 cs

b32_char-class : (v : ℕ) → v < 32 → is_b32_char (b32_char v) ≡ true
unfolding b32_char is_b32_char
b32_char-class v h = ground arith

abbrev pub IsByte : ℕ → Type 0
IsByte b = b < 256

group5-class :
    (a b c d e : ℕ)
    → IsByte a
    → IsByte b
    → IsByte c
    → IsByte d
    → IsByte e
    → all_b32 (group5 a b c d e) ≡ true
unfolding group5 all_b32
group5-class a b c d e ha hb hc hd he = rw (
  b32_char-class (a / 8) (omega arith),
  b32_char-class (a % 8 * 4 + b / 64) (omega arith),
  b32_char-class (b / 2 % 32) (omega arith),
  b32_char-class (b % 2 * 16 + c / 16) (omega arith),
  b32_char-class (c % 16 * 2 + d / 128) (omega arith),
  b32_char-class (d / 4 % 32) (omega arith),
  b32_char-class (d % 4 * 8 + e / 32) (omega arith),
  b32_char-class (e % 32) (omega arith),
)

all_b32-append : (xs ys : Bytes) → all_b32 xs ≡ true → all_b32 ys ≡ true → all_b32 (xs ++ ys) ≡ true
unfolding all_b32
all_b32-append [] ys h k = k
all_b32-append (x ∷ xs) ys h k = ground (arith, all_b32-append xs ys)

rfc4648_vector : b32_encode (codes "foobar") ≡ codes "mzxw6ytboi"
unfolding b32_encode b32_char
rfc4648_vector = refl

-- Every digit of an encoding is in the class.
pub b32_encode-class : (bs : Bytes) → All IsByte bs → all_b32 (b32_encode bs) ≡ true
unfolding b32_encode all_b32
b32_encode-class [] h = refl
b32_encode-class (a ∷ []) h =
    rw (b32_char-class (a / 8) (omega arith), b32_char-class (a % 8 * 4) (omega arith))
b32_encode-class (a ∷ b ∷ []) h = rw (
  b32_char-class (a / 8) (omega arith),
  b32_char-class (a % 8 * 4 + b / 64) (omega arith),
  b32_char-class (b / 2 % 32) (omega arith),
  b32_char-class (b % 2 * 16) (omega arith),
)
b32_encode-class (a ∷ b ∷ c ∷ []) h = rw (
  b32_char-class (a / 8) (omega arith),
  b32_char-class (a % 8 * 4 + b / 64) (omega arith),
  b32_char-class (b / 2 % 32) (omega arith),
  b32_char-class (b % 2 * 16 + c / 16) (omega arith),
  b32_char-class (c % 16 * 2) (omega arith),
)
b32_encode-class (a ∷ b ∷ c ∷ d ∷ []) h = rw (
  b32_char-class (a / 8) (omega arith),
  b32_char-class (a % 8 * 4 + b / 64) (omega arith),
  b32_char-class (b / 2 % 32) (omega arith),
  b32_char-class (b % 2 * 16 + c / 16) (omega arith),
  b32_char-class (c % 16 * 2 + d / 128) (omega arith),
  b32_char-class (d / 4 % 32) (omega arith),
  b32_char-class (d % 4 * 8) (omega arith),
)
b32_encode-class (a ∷ b ∷ c ∷ d ∷ e ∷ rest) h =
    all_b32-append (group5 a b c d e) (b32_encode rest)
      (group5-class a b c d e h.0 h.1.0 h.1.1.0 h.1.1.1.0 h.1.1.1.1.0)
      (b32_encode-class rest h.1.1.1.1.1)

-- Eight digits for five bytes, rounded up.
pub length-b32_encode : (bs : Bytes) → length (b32_encode bs) ≡ (length bs * 8 + 4) / 5
unfolding b32_encode
length-b32_encode [] = omega arith
length-b32_encode (a ∷ []) = omega arith
length-b32_encode (a ∷ b ∷ []) = omega arith
length-b32_encode (a ∷ b ∷ c ∷ []) = omega arith
length-b32_encode (a ∷ b ∷ c ∷ d ∷ []) = omega arith
length-b32_encode (a ∷ b ∷ c ∷ d ∷ e ∷ rest) = omega (arith, length-b32_encode rest)
