-- ===== src/Signer/Tests/Invited.antt =====
-- A grant that the owner makes, and the visitor that is invited by its URL.
use grantd.Base.{
  ◌≡◌, refl, some, false, leb_ℤ, [], pos, ok, codes, arith, eq_bytes, sub64, neg64, add64, bits64,
  of_bits64, Result, inl,
}
use grantd.Std.BigEndian.{be32, be64, read_be64, value_be32}
use grantd.Std.Utf8.{valid_string, contains_nul}
use grantd.Std.Strings.{trim_space, split, has_prefix}
use grantd.Std.Base32.{b32_encode, b32_char}
use grantd.Std.Base64.{
  decode_padded, decode_padded_digits, b64_value, encode_padded, b64_char, encode_raw,
}
use grantd.Canonical
use grantd.Protocol.Messages
use grantd.Protocol.Messages.{canonical_sig, canonical_mac, canonical_grant, fields, u64, proof}
use grantd.Protocol.Ids.{new_grant_id, agent_id, id_material, take_bytes}
use grantd.Protocol.Validate.{within_skew, validate_grant_window, validate_ssh_user, all_bytes}
use grantd.Protocol.SshKey.{parse_ssh_public_key, parse_parts, parse_fields}
use grantd.Protocol.Secrets.{capability_url, encode_secret}
use grantd.Protocol.Envelopes.{RedemptionRequest, RedemptionResponse}
use grantd.SshCert.{new_serial}
use grantd.Store.Host.{host}
use grantd.Store.Grants.{new_row, is_active, active_grant_count, create_grant as insert_row}
use grantd.Store.Tables.{Db, HostRow, any_row, keep_where, working}
use grantd.Signer.Grants
use grantd.Signer.Grants.{
  NewGrant, create_grant, prepare_grant, valid_origin, ttl_or_default, insert_and_sign, new_grant,
  sign_grant,
}
use grantd.Signer.Grants.Invites.{invited, Admits, redeem-create_grant}
use grantd.Signer.Redeem.{redeem}
use grantd.Signer.Redeem.Able.{Visit}
use grantd.Agent.Redemption.{build_redemption}
use grantd.Agent.CapabilityUrl.{parse_capability_url}
use grantd.Toy.Urls.{parse_url, parse_url-ParsesPlain, host_id, host_id_valid, host_plain}
use grantd.Signer.Tests.{rfc3339, host_row, keys, draws}
use grantd.Signer.Tests.Granted.{visitor, line, ssh_key}
use grantd.Toy.{repeat, crypto, ssh, crypto-IsCrypto}

abbrev row : HostRow
row = record host_row { host_id = host_id }

user_valid : validate_ssh_user row.ssh_user ≡ ok tt
unfolding validate_ssh_user eq_bytes all_bytes
user_valid = refl

abbrev before : Db
before = record { host = some row; grants = []; certificates = []; nonces = [] }

abbrev granting : Result Grants.Failure NewGrant × Db
granting =
    create_grant crypto working keys (pos 1000) (some (repeat 10 3)) (some (repeat 32 9)) (pos 600)
      before before

granted : (ng : NewGrant) × (db : Db) × (granting ≡ (ok ng, db))
unfolding create_grant prepare_grant valid_origin has_prefix ttl_or_default add64 bits64 of_bits64
    validate_grant_window sub64 host active_grant_count keep_where is_active insert_and_sign
    insert_row any_row eq_bytes new_grant sign_grant new_row new_grant_id b32_encode b32_char
    canonical_grant u64 Messages.encode Canonical.encode Canonical.encode_fields
    Canonical.encode_field Canonical.encode_value Canonical.write_lp be32 be64 valid_string
    contains_nul capability_url encode_secret encode_raw b64_char
granted = (_, _, refl)

built :
    (req : RedemptionRequest) × (build_redemption crypto visitor
        (invited keys.origin row (repeat 10 3) (repeat 32 9))
        line
        (pos 1090)
        (some (repeat 16 7))
      ≡ ok req)
unfolding build_redemption canonical_sig canonical_mac proof fields u64 Messages.encode
    Canonical.encode Canonical.encode_fields Canonical.encode_field Canonical.encode_value
    Canonical.write_lp be32 be64 valid_string contains_nul eq_bytes new_grant_id b32_encode b32_char
built = (_, refl)

visit : Visit crypto ssh keys (pos 1100) draws granted.1 visitor line (pos 1090) (repeat 16 7)
unfolding granted eq_bytes sub64 neg64 agent_id id_material take_bytes b32_encode b32_char
    within_skew any_row parse_ssh_public_key parse_parts parse_fields trim_space split decode_padded
    decode_padded_digits b64_value encode_padded b64_char new_serial read_be64 value_be32 of_bits64
visit = record {
  id_of_key = refl;
  timely = refl;
  nonce_length = refl;
  nonce_new = refl;
  key = ssh_key;
  parses = refl;
  serial = 5;
  drew = refl;
  serial_new = refl;
  signature = λ cert. [];
  signs = λ cert. refl;
}

unexpired : leb_ℤ granted.0.expires_at (pos 1100) ≡ false
unfolding granted
unexpired = refl

redeem-create_grant_example :
    (parse_capability_url parse_url granted.0.capability_url
      ≡ ok (invited keys.origin row (repeat 10 3) (repeat 32 9)))
    × (resp : RedemptionResponse) × (db'' : Db) × (redeem crypto ssh rfc3339 working keys
          (pos 1100)
          draws
          built.0
          granted.1
        ≡ (ok resp, db''))
    × Admits ssh row granted.0 visit.key visit.signature resp
redeem-create_grant_example =
    redeem-create_grant crypto parse_url parse_url-ParsesPlain working keys (codes "https")
      (codes "grantd.dev") (pos 1000) (repeat 10 3) (repeat 32 9) (pos 600) before granted.1
      granted.0 row 1100 (inl refl) host_plain refl (omega arith) refl (omega arith) refl
      (omega arith) refl host_id_valid user_valid granted.2 (omega arith) unexpired crypto-IsCrypto
      ssh rfc3339 draws visitor line (pos 1090) (repeat 16 7) built.0 (λ s. refl) visit built.1
