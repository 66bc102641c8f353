-- ===== src/Agent/CapabilityUrl/Plain.antt =====
-- The parts of a capability URL need no escape (go/internal/protocol/ids.go).
use grantd.Base.{
  ℕ, ◌<◌, ◌≡◌, ◌≢◌, refl, Bool, true, false, ◌&&◌, ◌||◌, Option, some, [], ◌∷◌, ◌++◌, Bytes, codes,
  All, arith, length, leb, ◌==◌, eq_bytes, ◌⊎◌,
}
use grantd.Std.Base32.{IsByte, is_b32_char, all_b32}
use grantd.Std.Base64.{url_alphabet, b64_char, encode_raw}
use grantd.Protocol.Ids.{matches_id}
use grantd.Agent.CapabilityUrl.{Url}

-- The characters that a URL needs no escape for in a host, a path or a fragment: [0-9A-Za-z_-].
unfoldable pub is_plain : ℕ → Bool
is_plain c =
    (leb b'a' c && leb c b'z')
    || (leb b'A' c && leb c b'Z')
    || (leb b'0' c && leb c b'9')
    || (c == b'-')
    || (c == b'_')

abbrev pub Plain : Bytes → Type 0
Plain = All (λ c. is_plain c ≡ true)

abbrev pub PlainPath : Bytes → Type 0
PlainPath = All (λ c. (is_plain c || (c == b'/')) ≡ true)

-- A host of labels, without a port.
abbrev pub PlainHost : Bytes → Type 0
PlainHost = All (λ c. (is_plain c || (c == b'.')) ≡ true)

-- net/url: an http(s) URL of a host, a rooted path and a fragment that need no escape is parsed into
-- these parts.
pub record ParsesPlain (parse_url : Bytes → Option Url) : Type 0 where
  pub parts :
      (scheme host path fragment : Bytes)
      → ((scheme ≡ codes "https") ⊎ (scheme ≡ codes "http"))
      → PlainHost host
      → PlainPath path
      → Plain fragment
      → parse_url (scheme ++ (codes "://" ++ (host ++ ((b'/' ∷ path) ++ (codes "#" ++ fragment)))))
        ≡ some (record { scheme = scheme; host = host; path = b'/' ∷ path; fragment = fragment })

b32-plain : (c : ℕ) → is_b32_char c ≡ true → is_plain c ≡ true
unfolding is_b32_char is_plain
b32-plain c h = ground arith

all_b32-Plain : (s : Bytes) → all_b32 s ≡ true → Plain s
unfolding all_b32
all_b32-Plain [] h = tt
all_b32-Plain (c ∷ cs) h = (b32-plain c (ground arith), all_b32-Plain cs (ground arith))

b64-plain : (v : ℕ) → v < 64 → is_plain (b64_char url_alphabet v) ≡ true
unfolding b64_char is_plain
b64-plain v h = ground arith

pub encode_raw-Plain : (bs : Bytes) → All IsByte bs → Plain (encode_raw url_alphabet bs)
unfolding encode_raw
encode_raw-Plain [] h = tt
encode_raw-Plain (a ∷ []) h = (b64-plain _ (omega arith), (b64-plain _ (omega arith), tt))
encode_raw-Plain (a ∷ b ∷ []) h =
    (b64-plain _ (omega arith), (b64-plain _ (omega arith), (b64-plain _ (omega arith), tt)))
encode_raw-Plain (a ∷ b ∷ c ∷ rest) h = (
  b64-plain _ (omega arith),
  (
    b64-plain _ (omega arith),
    (b64-plain _ (omega arith), (b64-plain _ (omega arith), encode_raw-Plain rest h.1.1.1)),
  ),
)

pub encode_raw-ne-nil :
    (bs : Bytes) → 0 < length bs → eq_bytes (encode_raw url_alphabet bs) [] ≡ false
unfolding encode_raw eq_bytes
encode_raw-ne-nil [] h = absurd (omega arith)
encode_raw-ne-nil (a ∷ []) h = refl
encode_raw-ne-nil (a ∷ b ∷ []) h = refl
encode_raw-ne-nil (a ∷ b ∷ c ∷ rest) h = refl

-- An id is plain.
pub matches_id-Plain :
    (p n : ℕ) (id : Bytes) → is_plain p ≡ true → matches_id p n id ≡ true → Plain id
unfolding matches_id
matches_id-Plain p n [] hp h = tt
matches_id-Plain p n (x ∷ []) hp h = absurd (ground arith)
matches_id-Plain p n (x ∷ y ∷ label) hp h =
    let first : x ≡ p = ground arith in
    let second : y ≡ b'_' = ground arith in
    (rw first hp, (rw second (unfold is_plain in refl), all_b32-Plain label (ground arith)))

pub matches_id-ne-nil : (p n : ℕ) (id : Bytes) → matches_id p n id ≡ true → id ≢ []
unfolding matches_id
matches_id-ne-nil p n [] h e = absurd (ground arith)
matches_id-ne-nil p n (x ∷ id) h e = cc
