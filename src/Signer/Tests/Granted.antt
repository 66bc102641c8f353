-- ===== src/Signer/Tests/Granted.antt =====
-- A visitor that builds a redemption of the test's grant.
use grantd.Base.{◌≡◌, refl, some, [], ◌∷◌, Bytes, pos, ok, codes, eq_bytes, sub64, neg64, of_bits64}
use grantd.Std.BigEndian.{be32, be64, read_be64, value_be32}
use grantd.Std.Utf8.{valid_string, contains_nul}
use grantd.Std.Strings.{trim_space, split}
use grantd.Std.Base32.{b32_encode, b32_char, all_b32, is_b32_char}
use grantd.Std.Base64.{decode_padded, decode_padded_digits, b64_value, encode_padded, b64_char}
use grantd.Canonical
use grantd.Ssh.{PublicKey}
use grantd.Protocol.Messages
use grantd.Protocol.Messages.{canonical_sig, canonical_mac, fields, u64, proof}
use grantd.Protocol.Ids.{valid_grant_id, agent_id, id_material, take_bytes}
use grantd.Protocol.Validate.{within_skew}
use grantd.Protocol.SshKey.{parse_ssh_public_key, parse_parts, parse_fields}
use grantd.Protocol.Envelopes.{RedemptionRequest, RedemptionResponse}
use grantd.SshCert.{new_serial}
use grantd.Store.Tables.{Db, find_grant, any_row, working}
use grantd.Signer.Api.Owner.{OwnerRequest, creating, owner}
use grantd.Signer.Api.Capabilities.{Allowed, owner-capabilities}
use grantd.Signer.Redeem.{redeem}
use grantd.Signer.Redeem.Able.{Redeemable}
use grantd.Signer.Redeem.Complete.{Granted, redeem-build_redemption}
use grantd.Agent.Redemption.{Identity, Capability, build_redemption}
use grantd.Signer.Tests.{rfc3339, host_row, grant_id, grant_row, db, keys, draws}
use grantd.Toy.{repeat, crypto, ssh, crypto-IsCrypto}

abbrev pub visitor : Identity
visitor = record { key = []; id = codes "a_aaaaaaaaaaaaaaaaaaaaaaaaaaaaaaaa" }

abbrev capability : Capability
capability = record {
  origin = codes "https://grantd.dev";
  host_id = codes "h_x";
  grant_id = grant_id;
  secret = codes "secret";
}

abbrev pub line : Bytes
line = codes "ssh-ed25519 AAAA"

abbrev pub ssh_key : PublicKey
ssh_key = record { key_type = codes "ssh-ed25519"; wire = 0 ∷ 0 ∷ 0 ∷ [] }

built :
    (req : RedemptionRequest) × (build_redemption crypto visitor capability line
        (pos 990)
        (some (repeat 16 7))
      ≡ ok req)
unfolding build_redemption canonical_sig canonical_mac proof fields u64 Messages.encode
    Canonical.encode Canonical.encode_fields Canonical.encode_field Canonical.encode_value
    Canonical.write_lp be32 be64 valid_string contains_nul eq_bytes
built = (_, refl)

able :
    Redeemable crypto ssh working keys
      (pos 1000)
      draws
      db
      visitor
      capability
      line
      (pos 990)
      (repeat 16 7)
unfolding find_grant eq_bytes valid_grant_id all_b32 is_b32_char sub64 neg64 agent_id id_material
    take_bytes b32_encode b32_char within_skew any_row parse_ssh_public_key parse_parts parse_fields
    trim_space split decode_padded decode_padded_digits b64_value encode_padded b64_char new_serial
    read_be64 value_be32 of_bits64
able = record {
  works = λ s. refl;
  live = record {
    row = host_row;
    is_enrolled = refl;
    same_host = refl;
    grant = grant_row;
    found = refl;
    id_valid = refl;
    same_secret = refl;
    user_given = refl;
    user_not_root = refl;
    unrevoked = refl;
    unredeemed = refl;
    unexpired = refl;
    window = refl;
  };
  visit = record {
    id_of_key = refl;
    timely = refl;
    nonce_length = refl;
    nonce_new = refl;
    key = ssh_key;
    parses = refl;
    serial = 5;
    drew = refl;
    serial_new = refl;
    signature = λ cert. [];
    signs = λ cert. refl;
  };
}

redeem-build_redemption_example :
    (resp : RedemptionResponse) × (db' : Db) × (redeem crypto ssh rfc3339 working keys
        (pos 1000)
        draws
        built.0
        db
      ≡ (ok resp, db'))
    × Granted crypto ssh
        (pos 1000)
        db
        db'
        visitor
        capability
        able.row
        able.grant
        able.key
        able.serial
        able.signature
        resp
redeem-build_redemption_example =
    redeem-build_redemption crypto crypto-IsCrypto ssh rfc3339 working keys (pos 1000) draws db
      visitor capability line (pos 990) (repeat 16 7) built.0 able built.1

-- The owner makes a grant of ten minutes.
abbrev making : OwnerRequest
making = creating (some (repeat 10 3)) (some (repeat 32 9)) (some (pos 600))

owner-capabilities_example :
    Allowed making db (owner crypto ssh rfc3339 working keys (pos 1000) making db db).1
owner-capabilities_example =
    owner-capabilities crypto ssh rfc3339 working keys (pos 1000) making db db
