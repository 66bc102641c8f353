-- ===== src/Signer/Tests.antt =====
-- The signer at a small state, with primitives that are simple functions.
mod Issued
mod Granted
mod Invited
use grantd.Base.{
  ℕ, ◌≡◌, refl, Option, none, some, List, [], ◌∷◌, Bytes, Int64, pos, Result, ok, codes,
}
use grantd.Base.{◌≢◌, ◌<ℤ◌, add64, ◌+◌, ◌≤◌, sub64, neg64, eq_bytes, of_bits64, bits64}
use grantd.Std.BigEndian.{be32, be64, read_be64, value_be32}
use grantd.Std.Utf8.{valid_string, contains_nul}
use grantd.Std.Strings.{trim_space, split}
use grantd.Std.Base32.{b32_encode, b32_char, all_b32, is_b32_char}
use grantd.Std.Base64.{
  decode_padded, decode_padded_digits, b64_value, encode_padded, encode_raw, b64_char,
}
use grantd.Canonical
use grantd.Protocol.Messages
use grantd.Protocol.Messages.{canonical_sig, canonical_mac, fields, u64, verify_proof, proof}
use grantd.Protocol.Ids.{valid_grant_id, check_agent_id, agent_id, id_material, take_bytes}
use grantd.Protocol.Validate.{within_skew}
use grantd.Protocol.SshKey.{parse_ssh_public_key, parse_parts, parse_fields, ssh_key_fingerprint}
use grantd.SshCert.{new_serial, issue, certificate_of, marshal}
use grantd.Store.Host.{host}
use grantd.Store.Nonces.{remember_nonce}
use grantd.Store.Claim.{claim_grant}
use grantd.Store.Certificates.{record_certificate}
use grantd.Store.Tables.{find_grant, update_where, any_row, keep_where}
use grantd.Signer.Redeem.{checked}
use grantd.Signer.Redeem.Sound.{Redeems, redeem_sound, redeem_fresh}
use grantd.SshCert.{Request}
use grantd.SshCert.Laws.{Issues, issue_iff}
use grantd.Base.{◌↔◌}
use grantd.Std.Strings.{has_prefix}
use grantd.Protocol.Ids.{new_grant_id}
use grantd.Protocol.Validate.{validate_grant_window}
use grantd.Protocol.Messages.{canonical_grant}
use grantd.Protocol.Secrets.{capability_url, encode_secret}
use grantd.Store.Grants.{new_row, is_active, active_grant_count, create_grant as insert_row}
use grantd.Signer.Grants
use grantd.Signer.Grants.{
  NewGrant, create_grant, prepare_grant, valid_origin, ttl_or_default, insert_and_sign, new_grant,
  sign_grant,
}
use grantd.Ssh.{PublicKey}
use grantd.Toy.{repeat, crypto, ssh}
use grantd.Protocol.Messages.{RedemptionPayload}
use grantd.Protocol.Envelopes.{RedemptionRequest, RedemptionResponse}
use grantd.Store.Tables.{Db, HostRow, GrantRow, working}
use grantd.Signer.Redeem.{Keys, redeem}

abbrev rfc3339 : Int64 → Bytes
rfc3339 t = codes "t"

abbrev host_row : HostRow
host_row = record {
  host_id = codes "h_x";
  ssh_user = codes "visitor";
  hostname = codes "example.org";
  ssh_port = 22;
  created_at = pos 0;
  ssh_host_public_key = codes "ssh-ed25519 AAAA";
}

abbrev grant_id : Bytes
grant_id = codes "g_aaaaaaaaaaaaaaaa"

abbrev grant_row : GrantRow
grant_row = record {
  id = grant_id;
  secret = codes "secret";
  ssh_user = codes "visitor";
  created_at = pos 900;
  expires_at = pos 2700;
  redeemed_at = none;
  revoked_at = none;
  redeemed_agent_id = none;
  redeemed_key_fp = none;
  published_at = none;
}

abbrev db : Db
db = record { host = some host_row; grants = grant_row ∷ []; certificates = []; nonces = [] }

abbrev keys : Keys
keys = record { identity = []; ca = []; origin = codes "https://grantd.dev" }

abbrev payload : RedemptionPayload
payload = record {
  version = 1;
  host_id = codes "h_x";
  grant_id = grant_id;
  agent_id = codes "a_aaaaaaaaaaaaaaaaaaaaaaaaaaaaaaaa";
  agent_public_key = repeat 32 1;
  ssh_public_key = codes "ssh-ed25519 AAAA";
  timestamp = pos 1000;
  nonce = repeat 16 7;
}

abbrev request : RedemptionRequest
request = record { payload = payload; agent_signature = repeat 64 2; proof = codes "secret" }

abbrev draws : List (Option Bytes)
draws = some (0 ∷ 0 ∷ 0 ∷ 0 ∷ 0 ∷ 0 ∷ 0 ∷ 5 ∷ []) ∷ []

abbrev response : RedemptionResponse
response = record {
  hostname = codes "example.org";
  port = 22;
  user = codes "visitor";
  certificate = codes "cert";
  serial = 5;
  key_id = codes "grantd:g_aaaaaaaaaaaaaaaa:a_aaaaaaaaaaaaaaaaaaaaaaaaaaaaaaaa";
  valid_before = pos 2700;
  valid_before_str = codes "t";
}

abbrev fingerprint : Bytes
fingerprint = codes "SHA256:AAAAAAAAAAAAAAAAAAAAAAAAAAAAAAAAAAAAAAAAAAA"

abbrev db_after : Db
db_after = record {
  host = some host_row;
  grants =
      record grant_row {
        redeemed_at = some (pos 1000);
        redeemed_agent_id = some payload.agent_id;
        redeemed_key_fp = some fingerprint;
      }
      ∷ [];
  certificates =
      record {
        serial = pos 5;
        grant_id = grant_id;
        agent_id = payload.agent_id;
        key_fp = fingerprint;
        certificate = codes "cert";
        valid_after = pos 970;
        valid_before = pos 2700;
        created_at = pos 1000;
      }
      ∷ [];
  nonces = record { scope = codes "redeem"; nonce = payload.nonce; seen_at = pos 1000 } ∷ [];
}

redeem_runs :
    redeem crypto ssh rfc3339 working keys (pos 1000) draws request db ≡ (ok response, db_after)
unfolding redeem checked host valid_grant_id all_b32 is_b32_char within_skew sub64 neg64
    check_agent_id agent_id id_material take_bytes b32_encode b32_char canonical_sig fields u64
    Messages.encode Canonical.encode Canonical.encode_fields Canonical.encode_field
    Canonical.encode_value Canonical.write_lp be32 be64 valid_string contains_nul eq_bytes
    Messages.verify parse_ssh_public_key parse_parts parse_fields trim_space split decode_padded
    decode_padded_digits b64_value encode_padded b64_char remember_nonce claim_grant find_grant
    update_where verify_proof proof canonical_mac ssh_key_fingerprint encode_raw new_serial
    read_be64 value_be32 issue certificate_of marshal record_certificate any_row keep_where
    of_bits64 bits64
redeem_runs = refl

redeem_sound_example :
    (h : HostRow) × (key : PublicKey) × (g : GrantRow) × Redeems crypto ssh rfc3339 keys
      (pos 1000)
      request
      db
      response
      db_after
      h
      key
      g
redeem_sound_example =
    redeem_sound crypto ssh rfc3339 working keys (pos 1000) draws request db db_after response
      redeem_runs

-- The request of a certificate for the grant.
abbrev sample_request : Request
sample_request = record {
  public_key = record { key_type = codes "ssh-ed25519"; wire = [] };
  principal = codes "visitor";
  grant_id = grant_id;
  agent_id = payload.agent_id;
  serial = 5;
  valid_from = pos 970;
  valid_to = pos 2700;
}

certificate_issued : issue ssh [] sample_request ≡ ok (certificate_of sample_request, [])
unfolding issue certificate_of eq_bytes
certificate_issued = refl

issue_iff_example :
    (issue ssh [] sample_request ≡ ok (certificate_of sample_request, []))
    ↔ Issues ssh [] sample_request (certificate_of sample_request) []
issue_iff_example = issue_iff ssh [] sample_request (certificate_of sample_request) []

sample-Issues : Issues ssh [] sample_request (certificate_of sample_request) []
sample-Issues =
    (issue_iff ssh [] sample_request (certificate_of sample_request) []).0 certificate_issued

-- A first grant of ten minutes.
abbrev granting : Result Grants.Failure NewGrant × Db
granting =
    create_grant crypto working keys (pos 1000) (some (repeat 10 3)) (some (repeat 32 9)) (pos 600)
      db db

granted : (ng : NewGrant) × (granting.0 ≡ ok ng)
unfolding create_grant prepare_grant valid_origin has_prefix ttl_or_default add64 bits64 of_bits64
    validate_grant_window sub64 host active_grant_count keep_where is_active insert_and_sign
    insert_row any_row eq_bytes new_grant sign_grant new_row new_grant_id b32_encode b32_char
    canonical_grant u64 Messages.encode Canonical.encode Canonical.encode_fields
    Canonical.encode_field Canonical.encode_value Canonical.write_lp be32 be64 valid_string
    contains_nul capability_url encode_secret encode_raw b64_char
granted = (_, refl)
