-- ===== src/Std/BigEndian.antt =====
-- encoding/binary: PutUint32 and PutUint64 in big-endian order, and the readers that undo them.
use grantd.Base.{
  ℕ, ◌+◌, ◌*◌, ◌/◌, ◌%◌, ◌^◌, ◌<◌, ◌≡◌, refl, ap, Option, none, some, [], ◌∷◌, ◌++◌, Bytes, arith,
  length,
}

unfoldable pub be32 : ℕ → Bytes
be32 n = n / 2 ^ 24 % 256 ∷ n / 2 ^ 16 % 256 ∷ n / 2 ^ 8 % 256 ∷ n % 256 ∷ []

unfoldable pub be64 : ℕ → Bytes
unfolding be32
be64 n = be32 (n / 2 ^ 32) ++ be32 n

unfoldable pub read_be32 : Bytes → Option (ℕ × Bytes)
read_be32 (a ∷ b ∷ c ∷ d ∷ rest) = some (a * 2 ^ 24 + b * 2 ^ 16 + c * 2 ^ 8 + d, rest)
read_be32 _ = none

pub read_be32-be32 :
    (n : ℕ) (rest : Bytes) → n < 2 ^ 32 → read_be32 (be32 n ++ rest) ≡ some (n, rest)
unfolding be32 read_be32
read_be32-be32 n rest h = ground arith

pub length-be64 : (n : ℕ) → length (be64 n) ≡ 8
unfolding be64
length-be64 n = refl

unfoldable pub value_be32 : ℕ → ℕ → ℕ → ℕ → ℕ
value_be32 a b c d = a * 2 ^ 24 + b * 2 ^ 16 + c * 2 ^ 8 + d

-- binary.BigEndian.Uint64 of a slice of eight bytes.
unfoldable pub read_be64 : Bytes → Option ℕ
read_be64 (a ∷ b ∷ c ∷ d ∷ e ∷ f ∷ g ∷ h ∷ []) =
    some (value_be32 a b c d * 2 ^ 32 + value_be32 e f g h)
read_be64 _ = none

split_word : (n : ℕ) → n < 2 ^ 64 → (n / 2 ^ 32) % 2 ^ 32 * 2 ^ 32 + n % 2 ^ 32 ≡ n
split_word n h = omega arith

value-be32 :
    (n : ℕ)
    → value_be32 (n / 2 ^ 24 % 256) (n / 2 ^ 16 % 256) (n / 2 ^ 8 % 256) (n % 256) ≡ n % 2 ^ 32
unfolding value_be32
value-be32 n = omega arith

pub read_be64-be64 : (n : ℕ) → n < 2 ^ 64 → read_be64 (be64 n) ≡ some n
unfolding read_be64 be64
read_be64-be64 n h = ap some (omega (arith, value-be32 (n / 2 ^ 32), value-be32 n, split_word n h))
