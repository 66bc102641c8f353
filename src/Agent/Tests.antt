-- ===== src/Agent/Tests.antt =====
-- A visitor at one enrolled host, with primitives that are simple functions.
mod Links
use grantd.Base.{◌≡◌, refl, true, some, [], ◌∷◌, Bytes, pos, ok, codes, eq_bytes}
use grantd.Std.BigEndian.{be32, be64}
use grantd.Std.Utf8.{valid_string, contains_nul}
use grantd.Std.Strings.{trim_space, split}
use grantd.Std.Base32.{b32_encode, b32_char}
use grantd.Std.Base64.{decode_padded, decode_padded_digits, b64_value, encode_padded, b64_char}
use grantd.Canonical
use grantd.Ssh.{PublicKey, SignedCertificate, signed, CertLibrary}
use grantd.Protocol.Ids
use grantd.Protocol.Ids.{id_material, take_bytes}
use grantd.Protocol.Validate.{validate_ssh_user, validate_hostname, validate_port, all_bytes}
use grantd.Protocol.Messages
use grantd.Protocol.Messages.{HostRegistration, canonical_host_registration, u64}
use grantd.Protocol.SshKey.{parse_ssh_public_key, parse_parts, parse_fields}
use grantd.Protocol.Envelopes.{HostRegisterRequest, RedemptionResponse}
use grantd.Store.Tables.{HostRow, Db, working, empty_db}
use grantd.Store.Host.{host, set_host}
use grantd.Signer.Redeem.{Keys}
use grantd.Signer.Grants.{enroll, host_registration, ssh_ca_public_key_line}
use grantd.Agent.Verify.{VerifiedHost, verify_host_record, verify_redemption}
use grantd.Agent.Verify.Laws.{Binds, Vouches, verify_redemption_sound, verify_host_record_sound}
use grantd.Agent.Verify.Trust.{served, verify_host_record-host_registration}
use grantd.Toy.{repeat, crypto, ssh, crypto-IsCrypto}

abbrev keys : Keys
keys = record { identity = []; ca = []; origin = codes "https://grantd.dev" }

abbrev line : Bytes
line = codes "ssh-ed25519 AAAA"

abbrev row : HostRow
row = record {
  host_id = codes "h_aaaaaaaaaaaaaaaaaaaaaaaaaaaaaaaa";
  ssh_user = codes "visitor";
  hostname = codes "example.org";
  ssh_port = 22;
  created_at = pos 900;
  ssh_host_public_key = line;
}

abbrev db : Db
db = record empty_db { host = some row }

enroll_runs :
    enroll crypto ssh working keys
      (pos 900)
      (codes "visitor")
      (codes "example.org")
      22
      line
      empty_db
    ≡ (ok tt, db)
unfolding enroll validate_ssh_user validate_hostname validate_port all_bytes eq_bytes
    parse_ssh_public_key parse_parts parse_fields trim_space split decode_padded
    decode_padded_digits b64_value encode_padded b64_char Ids.host_id id_material take_bytes
    b32_encode b32_char set_host
enroll_runs = refl

registered :
    (r : HostRegisterRequest) × (host_registration crypto ssh working keys
        (pos 1000)
        (some (repeat 16 7))
        db
      ≡ ok r)
unfolding host_registration host ssh_ca_public_key_line eq_bytes canonical_host_registration u64
    Messages.encode Canonical.encode Canonical.encode_fields Canonical.encode_field
    Canonical.encode_value Canonical.write_lp be32 be64 valid_string contains_nul
registered = (_, refl)

abbrev ca : PublicKey
ca = record { key_type = codes "ssh-ed25519"; wire = 0 ∷ 0 ∷ 0 ∷ [] }

ca_parsed : parse_ssh_public_key ssh registered.0.registration.ssh_ca_public_key ≡ ok ca
unfolding registered parse_ssh_public_key parse_parts parse_fields trim_space split decode_padded
    decode_padded_digits b64_value encode_padded b64_char eq_bytes ssh_ca_public_key_line
ca_parsed = refl

verify_host_record-host_registration_example :
    (v : VerifiedHost) × (verify_host_record crypto ssh registered.0.registration.host_id
        (served registered.0 true)
      ≡ ok v)
    × (v.registration ≡ registered.0.registration)
    × (v.ca_key ≡ ca)
verify_host_record-host_registration_example =
    verify_host_record-host_registration crypto crypto-IsCrypto ssh working keys (pos 900)
      (pos 1000) (codes "visitor") (codes "example.org") 22 line (some (repeat 16 7)) empty_db db
      registered.0 true ca enroll_runs registered.1 ca_parsed

accepted :
    (v : VerifiedHost) × (verify_host_record crypto ssh registered.0.registration.host_id
        (served registered.0 true)
      ≡ ok v)
accepted =
    let (v, e, _, _) =
      verify_host_record-host_registration crypto crypto-IsCrypto ssh working keys (pos 900)
        (pos 1000) (codes "visitor") (codes "example.org") 22 line (some (repeat 16 7)) empty_db db
        registered.0 true ca enroll_runs registered.1 ca_parsed in
    (v, e)

verify_host_record_sound_example :
    Vouches crypto ssh registered.0.registration.host_id (served registered.0 true) accepted.0
verify_host_record_sound_example =
    verify_host_record_sound crypto ssh registered.0.registration.host_id (served registered.0 true)
      accepted.0 accepted.1

abbrev host_known : VerifiedHost
host_known = record {
  registration = record {
    version = 1;
    host_id = row.host_id;
    identity_public_key = repeat 32 0;
    ssh_ca_public_key = line;
    ssh_host_public_key = line;
    hostname = row.hostname;
    ssh_port = 22;
    ssh_user = row.ssh_user;
    timestamp = pos 1000;
    nonce = repeat 16 7;
  };
  ca_key = ca;
  host_key = ca;
}

abbrev visitor_key : PublicKey
visitor_key = record { key_type = codes "ssh-ed25519"; wire = 9 ∷ [] }

abbrev certified : SignedCertificate
certified = record {
  certificate = record {
    key = visitor_key;
    serial = 5;
    cert_type = 1;
    key_id = codes "grantd";
    valid_principals = codes "visitor" ∷ [];
    valid_after = 970;
    valid_before = 2700;
    extensions = [];
  };
  signature_key = some ca;
}

abbrev library : CertLibrary
library = record {
  parse_authorized_key = λ text. some (signed certified);
  check_cert = λ user now s. true;
}

abbrev reply : RedemptionResponse
reply = record {
  hostname = row.hostname;
  port = 22;
  user = row.ssh_user;
  certificate = codes "cert";
  serial = 5;
  key_id = codes "grantd";
  valid_before = pos 2700;
  valid_before_str = codes "t";
}

reply_accepted : verify_redemption library host_known reply visitor_key (pos 1000) ≡ ok certified
unfolding verify_redemption eq_bytes
reply_accepted = refl

verify_redemption_sound_example : Binds library host_known reply visitor_key (pos 1000) certified
verify_redemption_sound_example =
    verify_redemption_sound library host_known reply visitor_key (pos 1000) certified reply_accepted
