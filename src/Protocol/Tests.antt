-- ===== src/Protocol/Tests.antt =====
-- The protocol's functions at concrete inputs.
mod Wire
mod Names
use grantd.Base.{
  ◌↔◌, ◌+◌, ◌≤◌, ◌≡◌, refl, true, [], ◌∷◌, ◌++◌, ◌&&◌, ◌||◌, Bytes, pos, negsuc, ◌≤ℤ◌, ◌+ℤ◌, ok,
  codes, arith, length, leb, ◌==◌, eq_bytes, sub64,
}
use grantd.Std.BigEndian.{be32, be64}
use grantd.Std.Utf8.{valid_string, contains_nul}
use grantd.Std.Strings.{trim_space, split}
use grantd.Std.Base32.{b32_encode, b32_char}
use grantd.Std.Base64.{
  std_alphabet, encode_padded, decode_padded, decode_padded_digits, b64_value, b64_char,
}
use grantd.Canonical
use grantd.Ssh.{PublicKey}
use grantd.Toy.{repeat, crypto, crypto-IsCrypto, ssh}
use grantd.Protocol.Ids.{
  valid_grant_id, new_grant_id, agent_id, check_agent_id, valid_agent_id, id_material, take_bytes,
}
use grantd.Protocol.Ids.Laws.{valid_grant_id-new_grant_id, check_agent_id_iff}
use grantd.Protocol.Validate.{validate_grant_window, within_skew}
use grantd.Protocol.Validate.Laws.{validate_grant_window_iff, within_skew_wraps}
use grantd.Protocol.Messages
use grantd.Protocol.Messages.{HostConnect, canonical_host_connect, u64}
use grantd.Protocol.Messages.Laws.{host_connect, canonical, canonical-injective}
use grantd.Protocol.SshKey.{ed25519_algo, parse_ssh_public_key, parse_parts, parse_fields}
use grantd.Protocol.SshKey.Laws.{parse_ssh_public_key-canonical}
use grantd.Protocol.Secrets.{encode_secret, decode_secret, decode_secret-encode_secret}

abbrev key : Bytes
key = repeat 32 1

abbrev id : Bytes
id = codes "a_aaaaaaaaaaaaaaaaaaaaaaaaaaaaaaaa"

-- 2^63 seconds before the time 1000.
within_skew_wraps_example : within_skew (pos 1000) (negsuc 9223372036854774807) (pos 120) ≡ (
    leb (1000 + 9223372036854774807 + 1) 120
    || ((1000 + 9223372036854774807 + 1) == 9223372036854775808))
within_skew_wraps_example =
    within_skew_wraps 1000 9223372036854774807 120 (omega arith) (omega arith) (omega arith)

distant_time : within_skew (pos 1000) (negsuc 9223372036854774807) (pos 120) ≡ true
distant_time = within_skew_wraps_example

abbrev connect : HostConnect
connect = record {
  version = 1;
  host_id = codes "h";
  path = codes "/p";
  timestamp = pos 5;
  nonce = 7 ∷ [];
}

connect_bytes : (b : Bytes) × (canonical (host_connect connect) ≡ ok b)
unfolding canonical canonical_host_connect u64 Messages.encode Canonical.encode
    Canonical.encode_fields Canonical.encode_field Canonical.encode_value Canonical.write_lp be32
    be64 valid_string contains_nul eq_bytes
connect_bytes = (_, refl)

canonical-injective_example : host_connect connect ≡ host_connect connect
canonical-injective_example =
    canonical-injective (host_connect connect) (host_connect connect) connect_bytes.0 (omega arith)
      (omega arith) connect_bytes.1 connect_bytes.1

abbrev ssh_key : PublicKey
ssh_key = record { key_type = ed25519_algo; wire = 0 ∷ 0 ∷ 0 ∷ [] }

key_line_parses : parse_ssh_public_key ssh (codes "ssh-ed25519 AAAA") ≡ ok ssh_key
unfolding parse_ssh_public_key parse_parts parse_fields trim_space split decode_padded
    decode_padded_digits b64_value encode_padded b64_char eq_bytes
key_line_parses = refl

parse_ssh_public_key-canonical_example :
    (codes "ssh-ed25519 AAAA" ≡ codes "ssh-ed25519 " ++ encode_padded std_alphabet ssh_key.wire)
    × (ssh_key.key_type ≡ ed25519_algo)
    × (length (codes "ssh-ed25519 AAAA") ≤ 1024)
parse_ssh_public_key-canonical_example =
    parse_ssh_public_key-canonical ssh (codes "ssh-ed25519 AAAA") ssh_key key_line_parses
