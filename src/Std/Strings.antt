-- ===== src/Std/Strings.antt =====
-- strings.TrimSpace, strings.Split at one byte, and strings.HasPrefix, HasSuffix, TrimPrefix and
-- TrimSuffix.
pub mod Laws
pub mod Affixes
use mathlib.Core.List.{reverse}
use grantd.Base.{
  ℕ, zero, suc, ◌≡◌, refl, Bool, true, false, ◌&&◌, ◌||◌, Option, none, some, List, [], ◌∷◌, Bytes,
  codes, leb, length, ◌==◌, eq_bytes, if◌then◌else◌,
}

ascii_space : ℕ → Bool
ascii_space c = (leb 9 c && leb c 13) || (c == 32)

-- U+0085 and U+00A0; U+1680, U+2000 to U+200A, U+2028, U+2029, U+202F, U+205F and U+3000, in UTF-8.
two_byte_space : ℕ → ℕ → Bool
two_byte_space a b = (a == 0xc2) && ((b == 0x85) || (b == 0xa0))

three_byte_space : ℕ → ℕ → ℕ → Bool
three_byte_space a b c =
    ((a == 0xe1) && (b == 0x9a) && (c == 0x80))
    || ((a == 0xe2)
        && (b == 0x80)
        && ((leb 0x80 c && leb c 0x8a) || (c == 0xa8) || (c == 0xa9) || (c == 0xaf)))
    || ((a == 0xe2) && (b == 0x81) && (c == 0x9f))
    || ((a == 0xe3) && (b == 0x80) && (c == 0x80))

-- What is left behind a space at the front of a text, and at the front of a reversed text.
strip_front : Bytes → Option Bytes
strip_front [] = none
strip_front (a ∷ []) = if ascii_space a then some [] else none
strip_front (a ∷ b ∷ []) =
    if ascii_space a then some (b ∷ []) else if two_byte_space a b then some [] else none
strip_front (a ∷ b ∷ c ∷ rest) =
    if ascii_space a
    then some (b ∷ c ∷ rest)
    else if two_byte_space a b
    then some (c ∷ rest)
    else if three_byte_space a b c
    then some rest
    else none

strip_back : Bytes → Option Bytes
strip_back [] = none
strip_back (a ∷ []) = if ascii_space a then some [] else none
strip_back (a ∷ b ∷ []) =
    if ascii_space a then some (b ∷ []) else if two_byte_space b a then some [] else none
strip_back (a ∷ b ∷ c ∷ rest) =
    if ascii_space a
    then some (b ∷ c ∷ rest)
    else if two_byte_space b a
    then some (c ∷ rest)
    else if three_byte_space c b a
    then some rest
    else none

-- Each round takes a byte at least, so as many rounds as bytes are enough.
trim_loop : (Bytes → Option Bytes) → ℕ → Bytes → Bytes
trim_loop strip zero s = s
trim_loop strip (suc fuel) s = elim (strip s) [ none ↦ s | some rest ↦ trim_loop strip fuel rest ]

unfoldable pub trim_space : Bytes → Bytes
unfolding ascii_space two_byte_space three_byte_space strip_front strip_back trim_loop
trim_space s =
    let t = trim_loop strip_front (length s) s in
    reverse (trim_loop strip_back (length t) (reverse t))

cons_head : ℕ → List Bytes → List Bytes
cons_head c [] = (c ∷ []) ∷ []
cons_head c (w ∷ ws) = (c ∷ w) ∷ ws

unfoldable pub split : ℕ → Bytes → List Bytes
unfolding cons_head
split sep [] = [] ∷ []
split sep (c ∷ cs) = let rest = split sep cs in if c == sep then [] ∷ rest else cons_head c rest

unfoldable pub has_prefix : Bytes → Bytes → Bool
has_prefix s [] = true
has_prefix [] (p ∷ ps) = false
has_prefix (c ∷ s) (p ∷ ps) = (c == p) && has_prefix s ps

unfoldable pub has_suffix : Bytes → Bytes → Bool
has_suffix [] suffix = eq_bytes [] suffix
has_suffix (c ∷ s) suffix = eq_bytes (c ∷ s) suffix || has_suffix s suffix

unfoldable pub strip_prefix : Bytes → Bytes → Option Bytes
strip_prefix s [] = some s
strip_prefix [] (p ∷ ps) = none
strip_prefix (c ∷ s) (p ∷ ps) = let rest = strip_prefix s ps in if c == p then rest else none

unfoldable pub trim_prefix : Bytes → Bytes → Bytes
unfolding strip_prefix
trim_prefix s prefix = elim (strip_prefix s prefix) [ none ↦ s | some rest ↦ rest ]

unfoldable pub trim_suffix : Bytes → Bytes → Bytes
trim_suffix [] suffix = []
trim_suffix (c ∷ s) suffix =
    let rest = trim_suffix s suffix in if eq_bytes (c ∷ s) suffix then [] else c ∷ rest

trimmed :
    trim_space (32 ∷ 0xe2 ∷ 0x80 ∷ 0x83 ∷ b'a' ∷ 32 ∷ b'b' ∷ 0xc2 ∷ 0xa0 ∷ 10 ∷ []) ≡ codes "a b"
unfolding trim_space
trimmed = refl

split_words : split 32 (codes "a  b") ≡ codes "a" ∷ [] ∷ codes "b" ∷ []
unfolding split
split_words = refl
