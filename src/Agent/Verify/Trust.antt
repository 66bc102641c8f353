-- ===== src/Agent/Verify/Trust.antt =====
-- The registration that an enrolled signer makes (go/signer/signer.go) is one that a visitor accepts
-- (go/agent/verify.go).
use grantd.Base.{ℕ, ◌≡◌, refl, Bool, true, Option, Bytes, Int64, ok, arith, eq_bytes_refl}
use grantd.Crypto.{Crypto, IsCrypto}
use grantd.Ssh.{Ssh, PublicKey}
use grantd.Protocol.Ids.{host_id, check_host_id}
use grantd.Protocol.Messages.{verify}
use grantd.Protocol.SshKey.{parse_ssh_public_key}
use grantd.Protocol.Envelopes.{HostRegisterRequest, HostPublicRecord}
use grantd.Store.Tables.{Io, HostRow, Db}
use grantd.Signer.Redeem.{Keys}
use grantd.Signer.Grants.{enroll, host_registration}
use grantd.Signer.Grants.Enrollment.{Enrolled, enroll-ok, Registers, host_registration-ok}
use grantd.Agent.Verify.{VerifiedHost, verify_host_record}
use grantd.Agent.Verify.Laws.{Vouches, verify_host_record_complete}

-- What the service serves of a registration.
abbrev pub served : HostRegisterRequest → Bool → HostPublicRecord
served r connected = record {
  host_id = r.registration.host_id;
  registration = r.registration;
  signature = r.signature;
  connected = connected;
}

module _ (c : Crypto) (laws : IsCrypto c) (lib : Ssh) where
  check_host_id-host_id : (id key : Bytes) → host_id c key ≡ ok id → check_host_id c id key ≡ ok tt
  unfolding check_host_id
  check_host_id-host_id id key h = rw (h, eq_bytes_refl) refl

  pub verify-sign : (key m : Bytes) → verify c (c.public_of key) m (c.sign key m) ≡ true
  unfolding verify
  verify-sign key m =
      ground (arith, laws.length_public key, laws.length_sign key m, laws.verify_sign key m)

  registered-Vouches :
      (k : Keys) (now : Int64) (db : Db) (r : HostRegisterRequest) (row : HostRow)
      (connected : Bool) (ca : PublicKey)
      → parse_ssh_public_key lib r.registration.ssh_ca_public_key ≡ ok ca
      → (e : Enrolled c lib k row) → Registers c lib k now db r row
      → Vouches c lib r.registration.host_id
          (served r connected)
          (record { registration = r.registration; ca_key = ca; host_key = e.host_key })
  registered-Vouches k now db r row connected ca p e s = record {
    registered = refl;
    spoken_version = s.spoken_version;
    id_signed = refl;
    id_served = refl;
    id_of_key =
        rw (s.id, s.key) (check_host_id-host_id row.host_id (c.public_of k.identity) e.id_of_key);
    message = s.message;
    message_signed = s.message_signed;
    signature_verified = rw (s.key, s.signed) (verify-sign k.identity s.message);
    hostname_valid = rw s.named e.hostname_valid;
    user_valid = rw s.user e.user_valid;
    port_valid = rw s.port e.port_valid;
    ca_parsed = p;
    host_key_parsed = rw s.host_key e.key_parsed;
  }

  -- When a host has been enrolled, the registration that its signer then makes, served as it is, is
  -- accepted by a visitor for the host id in it, if the line of the host's authority can be parsed; the
  -- visitor gets that registration and that authority.
  pub verify_host_record-host_registration :
      (io : Io) (k : Keys) (at now : Int64) (ssh_user hostname : Bytes) (port : ℕ) (line : Bytes)
      (random : Option Bytes) (db db' : Db) (r : HostRegisterRequest) (connected : Bool)
      (ca : PublicKey)
      → enroll c lib io k at ssh_user hostname port line db ≡ (ok tt, db')
      → host_registration c lib io k now random db' ≡ ok r
      → parse_ssh_public_key lib r.registration.ssh_ca_public_key ≡ ok ca
      → (v : VerifiedHost) × (verify_host_record c lib r.registration.host_id (served r connected)
          ≡ ok v)
        × (v.registration ≡ r.registration)
        × (v.ca_key ≡ ca)
  verify_host_record-host_registration io k at now ssh_user hostname port line random db db' r
        connected ca e f p =
      let (row, d, en) = enroll-ok c lib io k at ssh_user hostname port line db db' e in
      let (h, s) = host_registration-ok c lib io k now random db' r f in
      let same : row ≡ h = ground (arith, d, s.enrolled) in
      let en' : Enrolled c lib k h = rw same at en in
      (
        record { registration = r.registration; ca_key = ca; host_key = en'.host_key },
        verify_host_record_complete c lib r.registration.host_id (served r connected) _
            (registered-Vouches k now db' r h connected ca p en' s),
        refl,
        refl,
      )
