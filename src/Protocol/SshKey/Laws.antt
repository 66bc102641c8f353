-- ===== src/Protocol/SshKey/Laws.antt =====
-- A key line that is accepted is the one canonical line of its key.
use grantd.Base.{
  ◌≤◌, ◌≡◌, sym, ap, ◌∙◌, List, [], ◌∷◌, ◌++◌, Bytes, ok, codes, arith, length, eq_bytes_iff,
}
use grantd.Std.Base64.{std_alphabet, encode_padded}
use grantd.Std.Strings.{split}
use grantd.Std.Strings.Laws.{join, join-split}
use grantd.Ssh.{Ssh, PublicKey}
use grantd.Protocol.SshKey.{ed25519_algo, parse_fields, parse_parts, parse_ssh_public_key}

module _ (lib : Ssh) where
  parse_fields-canonical :
      (algo body : Bytes) (key : PublicKey)
      → parse_fields lib algo body ≡ ok key
      → (algo ≡ ed25519_algo)
        × (body ≡ encode_padded std_alphabet key.wire)
        × (key.key_type ≡ ed25519_algo)
  unfolding parse_fields
  parse_fields-canonical algo body key h = ground (
    arith,
    eq_bytes_iff algo ed25519_algo,
    eq_bytes_iff (encode_padded std_alphabet key.wire) body,
    eq_bytes_iff key.key_type ed25519_algo,
  )

  parse_parts-canonical :
      (parts : List Bytes) (key : PublicKey)
      → parse_parts lib parts ≡ ok key
      → (parts ≡ ed25519_algo ∷ encode_padded std_alphabet key.wire ∷ [])
        × (key.key_type ≡ ed25519_algo)
  unfolding parse_parts
  parse_parts-canonical [] key h = cc
  parse_parts-canonical (a ∷ []) key h = cc
  parse_parts-canonical (algo ∷ body ∷ []) key h =
      ground (arith, parse_fields-canonical algo body key h)
  parse_parts-canonical (a ∷ b ∷ c ∷ r) key h = cc

  parse_ssh_public_key-parts :
      (line : Bytes) (key : PublicKey)
      → parse_ssh_public_key lib line ≡ ok key
      → (length line ≤ 1024) × (parse_parts lib (split b' ' line) ≡ ok key)
  unfolding parse_ssh_public_key
  parse_ssh_public_key-parts line key h = ground arith

  -- A line is accepted only if it is `ssh-ed25519 `, then the padded base64 of the key's wire form,
  -- with at most 1024 bytes in all, and the key is of that type.
  pub parse_ssh_public_key-canonical :
      (line : Bytes) (key : PublicKey)
      → parse_ssh_public_key lib line ≡ ok key
      → (line ≡ codes "ssh-ed25519 " ++ encode_padded std_alphabet key.wire)
        × (key.key_type ≡ ed25519_algo)
        × (length line ≤ 1024)
  unfolding join
  parse_ssh_public_key-canonical line key h =
      let (n, p) = parse_ssh_public_key-parts line key h in
      let (e, t) = parse_parts-canonical (split b' ' line) key p in
      (sym (join-split b' ' line) ∙ ap (join b' ') e, t, n)
