-- ===== src/Std/Utf8.antt =====
-- unicode/utf8.ValidString and strings.ContainsRune at U+0000.
use grantd.Base.{
  ℕ, ◌≡◌, refl, Bool, true, false, ◌&&◌, ◌||◌, [], ◌∷◌, Bytes, leb, ◌==◌, if◌then◌else◌,
}

-- What may follow: a character, or one, two or three continuation bytes, the first of which has a
-- narrower range after the leads E0, ED, F0 and F4.
pub data Expect : Type 0 where
  start tail1 tail2 tail3 after_e0 after_ed after_f0 after_f4 : Expect
  bad : Expect

between : ℕ → ℕ → ℕ → Bool
between lo hi b = leb lo b && leb b hi

lead : ℕ → Expect
lead b =
    if leb b 0x7f
    then start
    else if between 0xc2 0xdf b
    then tail1
    else if b == 0xe0
    then after_e0
    else if b == 0xed
    then after_ed
    else if between 0xe1 0xef b
    then tail2
    else if b == 0xf0
    then after_f0
    else if between 0xf1 0xf3 b
    then tail3
    else if b == 0xf4
    then after_f4
    else bad

utf8_step : Expect → ℕ → Expect
utf8_step start b = lead b
utf8_step tail1 b = if between 0x80 0xbf b then start else bad
utf8_step tail2 b = if between 0x80 0xbf b then tail1 else bad
utf8_step tail3 b = if between 0x80 0xbf b then tail2 else bad
utf8_step after_e0 b = if between 0xa0 0xbf b then tail1 else bad
utf8_step after_ed b = if between 0x80 0x9f b then tail1 else bad
utf8_step after_f0 b = if between 0x90 0xbf b then tail2 else bad
utf8_step after_f4 b = if between 0x80 0x8f b then tail2 else bad
utf8_step bad b = bad

is_start : Expect → Bool
is_start start = true
is_start _ = false

valid_from : Expect → Bytes → Bool
valid_from e [] = is_start e
valid_from e (b ∷ bs) = valid_from (utf8_step e b) bs

unfoldable pub valid_string : Bytes → Bool
unfolding valid_from utf8_step lead between is_start
valid_string bs = valid_from start bs

unfoldable pub contains_nul : Bytes → Bool
contains_nul [] = false
contains_nul (b ∷ bs) = (b == 0) || contains_nul bs

two_bytes_valid : valid_string (0x41 ∷ 0xc3 ∷ 0xa9 ∷ []) ≡ true
unfolding valid_string
two_bytes_valid = refl

surrogate_invalid : valid_string (0xed ∷ 0xa0 ∷ 0x80 ∷ []) ≡ false
unfolding valid_string
surrogate_invalid = refl
