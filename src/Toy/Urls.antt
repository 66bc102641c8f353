-- ===== src/Toy/Urls.antt =====
-- A parser for the plain URLs, which is not url.Parse, and the parts of a capability URL.
use grantd.Base.{
  ℕ, ◌≡◌, ◌≢◌, refl, ap, ◌∙◌, true, Option, some, [], ◌∷◌, ◌++◌, Bytes, codes, All, arith, ◌==◌,
  ==_iff, if◌then◌else◌, ◌⊎◌, inl, inr,
}
use grantd.Std.Base32.{all_b32, is_b32_char}
use grantd.Protocol.Ids.{valid_host_id, valid_grant_id}
use grantd.Agent.CapabilityUrl.{Url}
use grantd.Agent.CapabilityUrl.Plain.{is_plain, PlainPath, PlainHost, ParsesPlain}

-- What stands before the first such byte, and from it on.
cut : ℕ → Bytes → Bytes × Bytes
cut sep [] = ([], [])
cut sep (c ∷ cs) = let rest = cut sep cs in if c == sep then ([], c ∷ cs) else (c ∷ rest.0, rest.1)

-- Behind the first byte, and behind the first three.
abbrev behind_one : Bytes → Bytes
behind_one [] = []
behind_one (a ∷ r) = r

abbrev behind_three : Bytes → Bytes
behind_three (a ∷ b ∷ c ∷ r) = r
behind_three _ = []

cut-word :
    (sep : ℕ) (w rest : Bytes)
    → All (λ c. c ≢ sep) w
    → cut sep (w ++ (sep ∷ rest)) ≡ (w, sep ∷ rest)
unfolding cut
cut-word sep [] rest h = ground arith
cut-word sep (c ∷ w) rest h = rw (cut-word sep w rest h.1) (ground (arith, ==_iff c sep, h.0))

abbrev with_path : Bytes → Bytes → Bytes × Bytes → Option Url
with_path scheme host (path, r) =
    some (record { scheme = scheme; host = host; path = path; fragment = behind_one r })

abbrev with_host : Bytes → Bytes × Bytes → Option Url
with_host scheme (host, r) = with_path scheme host (cut b'#' r)

abbrev with_scheme : Bytes × Bytes → Option Url
with_scheme (scheme, r) = with_host scheme (cut b'/' (behind_three r))

pub parse_url : Bytes → Option Url
parse_url s = with_scheme (cut b':' s)

scheme-no-colon : (s : Bytes) → ((s ≡ codes "https") ⊎ (s ≡ codes "http")) → All (λ c. c ≢ b':') s
scheme-no-colon s (inl e) = rw e (omega arith)
scheme-no-colon s (inr e) = rw e (omega arith)

host-no-slash : (s : Bytes) → PlainHost s → All (λ c. c ≢ b'/') s
unfolding is_plain
host-no-slash [] h = tt
host-no-slash (c ∷ cs) h = (λ e. absurd (ground (arith, h.0)), host-no-slash cs h.1)

path-no-hash : (s : Bytes) → PlainPath s → All (λ c. c ≢ b'#') s
unfolding is_plain
path-no-hash [] h = tt
path-no-hash (c ∷ cs) h = (λ e. absurd (ground (arith, h.0)), path-no-hash cs h.1)

pub parse_url-ParsesPlain : ParsesPlain parse_url
unfolding parse_url
parse_url-ParsesPlain = record {
  parts = λ scheme host path fragment web plain_host plain_path plain_fragment.
      let rest = (b'/' ∷ path) ++ (codes "#" ++ fragment) in
      ap with_scheme
        (cut-word b':' scheme (codes "//" ++ (host ++ rest)) (scheme-no-colon scheme web))
      ∙ ap (with_host scheme)
          (cut-word b'/' host (path ++ (codes "#" ++ fragment)) (host-no-slash host plain_host))
      ∙ ap (with_path scheme host)
          (cut-word b'#' (b'/' ∷ path) fragment ((λ e. omega arith), path-no-hash path plain_path));
}

abbrev pub host_id : Bytes
host_id = codes "h_aaaaaaaaaaaaaaaaaaaaaaaaaaaaaaaa"

abbrev pub grant_id : Bytes
grant_id = codes "g_abcdefghijklmn27"

pub host_id_valid : valid_host_id host_id ≡ true
unfolding valid_host_id all_b32 is_b32_char
host_id_valid = refl

pub grant_id_valid : valid_grant_id grant_id ≡ true
unfolding valid_grant_id all_b32 is_b32_char
grant_id_valid = refl

pub host_plain : PlainHost (codes "grantd.dev")
unfolding is_plain
host_plain = (refl, (refl, (refl, (refl, (refl, (refl, (refl, (refl, (refl, (refl, tt))))))))))
