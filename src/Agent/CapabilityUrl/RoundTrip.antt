-- ===== src/Agent/CapabilityUrl/RoundTrip.antt =====
-- The capability URL that the signer makes (go/internal/protocol/ids.go) is read back by the visitor.
use grantd.Base.{
  ℕ, ◌≡◌, ◌≢◌, refl, ap, ◌∙◌, true, false, ◌||◌, Option, some, [], ◌∷◌, ◌++◌, append_assoc, Bytes,
  ok, codes, All, arith, length, eq_bytes, eq_bytes_iff, inl, inr, ◌⊎◌,
}
use grantd.Std.Strings.{split}
use grantd.Std.Strings.Laws.{split-word, split-last}
use grantd.Std.Base32.{IsByte}
use grantd.Protocol.Ids.{valid_host_id, valid_grant_id}
use grantd.Protocol.Secrets.{encode_secret, capability_url, decode_secret-encode_secret}
use grantd.Agent.CapabilityUrl.{
  Url, trim_left, trim_right, trim_slashes, ids_of_parts, require, secret_of, capability_of,
  parse_capability_url,
}
use grantd.Agent.CapabilityUrl.Plain.{
  is_plain, Plain, PlainPath, PlainHost, ParsesPlain, encode_raw-Plain, encode_raw-ne-nil,
  matches_id-Plain, matches_id-ne-nil,
}

web_scheme :
    (scheme : Bytes)
    → ((scheme ≡ codes "https") ⊎ (scheme ≡ codes "http"))
    → (eq_bytes scheme (codes "https") || eq_bytes scheme (codes "http")) ≡ true
unfolding eq_bytes
web_scheme scheme (inl e) = rw e refl
web_scheme scheme (inr e) = rw e refl

plain-ne-slash : (c : ℕ) → is_plain c ≡ true → c ≢ b'/'
unfolding is_plain
plain-ne-slash c h e = absurd (ground arith)

Plain-no-slash : (s : Bytes) → Plain s → All (λ c. c ≢ b'/') s
Plain-no-slash [] h = tt
Plain-no-slash (c ∷ cs) h = (plain-ne-slash c h.0, Plain-no-slash cs h.1)

Plain-PlainPath : (s : Bytes) → Plain s → PlainPath s
Plain-PlainPath [] h = tt
Plain-PlainPath (c ∷ cs) h = (rw h.0 refl, Plain-PlainPath cs h.1)

All-append {κ} : (P : ℕ → Type κ) (xs ys : Bytes) → All P xs → All P ys → All P (xs ++ ys)
All-append P [] ys hx hy = hy
All-append P (x ∷ xs) ys hx hy = (hx.0, All-append P xs ys hx.1 hy)

-- A text that ends without a slash is not trimmed.
trim_right-word : (w : Bytes) → All (λ c. c ≢ b'/') w → trim_right w ≡ w
unfolding trim_right
trim_right-word [] h = refl
trim_right-word (c ∷ cs) h = rw (trim_right-word cs h.1) (ground (arith, h.0))

append-ne-nil : (xs w : Bytes) → w ≢ [] → xs ++ w ≢ []
append-ne-nil [] w h = h
append-ne-nil (x ∷ xs) w h = λ e. cc

trim_right-append : (xs w : Bytes) → w ≢ [] → All (λ c. c ≢ b'/') w → trim_right (xs ++ w) ≡ xs ++ w
unfolding trim_right
trim_right-append [] w n h = trim_right-word w h
trim_right-append (x ∷ xs) w n h =
    rw (trim_right-append xs w n h)
      (ground (arith, eq_bytes_iff (xs ++ w) [], append-ne-nil xs w n))

module _ (parse_url : Bytes → Option Url) (laws : ParsesPlain parse_url)
    (scheme host host_id grant_id secret : Bytes)
    (web : (scheme ≡ codes "https") ⊎ (scheme ≡ codes "http")) (plain_host : PlainHost host)
    (host_valid : valid_host_id host_id ≡ true) (grant_valid : valid_grant_id grant_id ≡ true)
    (sized : length secret ≡ 32) (bytes : All IsByte secret) where
  abbrev origin : Bytes
  origin = scheme ++ (codes "://" ++ host)

  -- Behind the first slash.
  abbrev path : Bytes
  path = codes "g/" ++ (host_id ++ (codes "/" ++ grant_id))

  host_plain : Plain host_id
  unfolding valid_host_id
  host_plain = matches_id-Plain b'h' 32 host_id (unfold is_plain in refl) host_valid

  grant_plain : Plain grant_id
  unfolding valid_grant_id
  grant_plain = matches_id-Plain b'g' 16 grant_id (unfold is_plain in refl) grant_valid

  grant_given : grant_id ≢ []
  unfolding valid_grant_id
  grant_given = matches_id-ne-nil b'g' 16 grant_id grant_valid

  path-PlainPath : PlainPath path
  path-PlainPath = (
    unfold is_plain in refl,
    (
      unfold is_plain in refl,
      All-append _ host_id _ (Plain-PlainPath host_id host_plain)
          (unfold is_plain in refl, Plain-PlainPath grant_id grant_plain),
    ),
  )

  trim_slashes-path : trim_slashes (b'/' ∷ path) ≡ path
  unfolding trim_slashes trim_left
  trim_slashes-path =
      let front = codes "g/" ++ (host_id ++ codes "/") in
      let cut : front ++ grant_id ≡ path = simp append_assoc in
      rw (← cut)
        (trim_right-append front grant_id grant_given (Plain-no-slash grant_id grant_plain))

  split-path : split b'/' path ≡ codes "g" ∷ host_id ∷ grant_id ∷ []
  split-path =
      split-word b'/' (codes "g") (host_id ++ (b'/' ∷ grant_id)) ((λ e. ground arith), tt)
      ∙ ap (λ x. codes "g" ∷ x)
          (split-word b'/' host_id grant_id (Plain-no-slash host_id host_plain)
            ∙ ap (λ x. host_id ∷ x)
                (split-last b'/' grant_id (Plain-no-slash grant_id grant_plain)))

  fragment-ne-nil : eq_bytes (encode_secret secret) [] ≡ false
  unfolding encode_secret
  fragment-ne-nil = encode_raw-ne-nil secret (omega arith)

  url-parts :
      capability_url origin host_id grant_id secret
      ≡ scheme ++ (codes "://" ++ (host ++ ((b'/' ∷ path) ++ (codes "#" ++ encode_secret secret))))
  unfolding capability_url
  url-parts = simp append_assoc

  parsed :
      capability_of (
        some (record {
          scheme = scheme;
          host = host;
          path = b'/' ∷ path;
          fragment = encode_secret secret;
        }))
      ≡ ok (record { origin = origin; host_id = host_id; grant_id = grant_id; secret = secret })
  unfolding capability_of ids_of_parts require secret_of eq_bytes
  parsed =
      rw
        (
          web_scheme scheme web,
          trim_slashes-path,
          split-path,
          host_valid,
          grant_valid,
          fragment-ne-nil,
          decode_secret-encode_secret secret sized bytes,
        )
        refl

  -- The URL that the signer makes of an http(s) origin without a port, well-formed ids and a secret of
  -- 32 bytes is parsed by the visitor into that origin, these ids and that secret.
  pub parse_capability_url-capability_url :
      parse_capability_url parse_url (capability_url origin host_id grant_id secret)
      ≡ ok (record { origin = origin; host_id = host_id; grant_id = grant_id; secret = secret })
  unfolding parse_capability_url
  parse_capability_url-capability_url =
      ap (λ x. capability_of (parse_url x)) url-parts
      ∙ ap capability_of (
          laws.parts scheme host path (encode_secret secret) web plain_host path-PlainPath
            (unfold encode_secret in (encode_raw-Plain secret bytes)))
      ∙ parsed
