-- ===== src/Agent/Verify.antt =====
-- go/agent/verify.go: what a visitor checks of what the coordination service returns. A Go error that
-- wraps a sentinel and a text is the sentinel; an error of a callee that is passed on keeps its kind.
pub mod Laws
pub mod Trust
use grantd.Base.{
  ℕ, Bool, true, false, not, ◌&&◌, Option, none, some, List, [], ◌∷◌, ◌++◌, Bytes, Int64, Result,
  ok, err, codes, ◌==◌, eq_bytes, if◌then◌else◌, ◌>>=◌, ◌>>◌,
}
use grantd.Crypto.{Crypto}
use grantd.Ssh.{
  Ssh, PublicKey, Certificate, SignedCertificate, AuthorizedKey, plain, signed, CertLibrary,
}
use grantd.Protocol.Ids.{version, check_host_id}
use grantd.Protocol.Messages.{HostRegistration, canonical_host_registration, verify}
use grantd.Protocol.Validate
use grantd.Protocol.Validate.{validate_hostname, validate_ssh_user, validate_port}
use grantd.Protocol.SshKey
use grantd.Protocol.SshKey.{parse_ssh_public_key}
use grantd.Protocol.Envelopes.{HostPublicRecord, RedemptionResponse}
use grantd.SshCert.{user_cert}

pub data Failure : Type 0 where
  host_record_mismatch host_record_sig host_record_no_key response_mismatch certificate : Failure
  not_valid : Validate.Error → Failure
  ca_key : SshKey.Error → Failure

pub record VerifiedHost : Type 0 where
  pub registration : HostRegistration
  pub ca_key : PublicKey
  pub host_key : PublicKey

unfoldable pub guard : Bool → Failure → Result Failure (Unit {0})
guard true e = ok tt
guard false e = err e

unfoldable pub or_fail : {E A : Type 0} → Result E A → (E → Failure) → Result Failure A
or_fail (ok a) f = ok a
or_fail (err e) f = err (f e)

module _ (c : Crypto) (lib : Ssh) where
  unfoldable pub verify_host_record : Bytes → HostPublicRecord → Result Failure VerifiedHost
  unfolding guard or_fail
  verify_host_record host_id rec = do
    let reg = rec.registration
    guard (reg.version == version) host_record_mismatch
    guard (eq_bytes reg.host_id host_id && eq_bytes rec.host_id host_id) host_record_mismatch
    or_fail (check_host_id c host_id reg.identity_public_key) (λ e. host_record_mismatch)
    msg ← or_fail (canonical_host_registration reg) (λ e. host_record_sig)
    guard (verify c reg.identity_public_key msg rec.signature) host_record_sig
    or_fail (validate_hostname reg.hostname) not_valid
    or_fail (validate_ssh_user reg.ssh_user) not_valid
    or_fail (validate_port reg.ssh_port) not_valid
    ca ← or_fail (parse_ssh_public_key lib reg.ssh_ca_public_key) ca_key
    host_key ← or_fail (parse_ssh_public_key lib reg.ssh_host_public_key) (λ e. host_record_no_key)
    ok (record { registration = reg; ca_key = ca; host_key = host_key })

-- A line of known_hosts, keyed by the host id.
unfoldable pub known_hosts_line : Bytes → VerifiedHost → Bytes
known_hosts_line host_id host =
    host_id ++ (b' ' ∷ (host.registration.ssh_host_public_key ++ 10 ∷ []))

unfoldable pub ssh_options : Bytes → Bytes → List Bytes
ssh_options host_id known_hosts_path =
    codes "-o"
    ∷ (codes "UserKnownHostsFile=" ++ known_hosts_path)
    ∷ codes "-o"
    ∷ codes "StrictHostKeyChecking=yes"
    ∷ codes "-o"
    ∷ (codes "HostKeyAlias=" ++ host_id)
    ∷ codes "-o"
    ∷ codes "HostKeyAlgorithms=ssh-ed25519"
    ∷ []

-- len(principals) == 1 && principals[0] == user
unfoldable pub only_principal : List Bytes → Bytes → Bool
only_principal (p ∷ []) user = eq_bytes p user
only_principal _ user = false

-- cert.SignatureKey != nil, and it has the key's wire form.
unfoldable pub signed_by : Option PublicKey → PublicKey → Bool
signed_by none key = false
signed_by (some k) key = eq_bytes k.wire key.wire

unfoldable pub as_certificate : Option AuthorizedKey → Result Failure SignedCertificate
as_certificate none = err certificate
as_certificate (some (plain k)) = err certificate
as_certificate (some (signed s)) = ok s

unfoldable pub verify_redemption :
    CertLibrary
    → VerifiedHost
    → RedemptionResponse
    → PublicKey
    → Int64
    → Result Failure SignedCertificate
unfolding guard as_certificate only_principal signed_by
verify_redemption lib host resp key now = do
  let reg = host.registration
  guard
      (eq_bytes resp.hostname reg.hostname
        && (resp.port == reg.ssh_port)
        && eq_bytes resp.user reg.ssh_user)
      response_mismatch
  cert ← as_certificate (lib.parse_authorized_key resp.certificate)
  guard (cert.certificate.cert_type == user_cert) certificate
  guard (eq_bytes cert.certificate.key.wire key.wire) certificate
  guard (only_principal cert.certificate.valid_principals reg.ssh_user) certificate
  guard (signed_by cert.signature_key host.ca_key) certificate
  guard (lib.check_cert reg.ssh_user now cert) certificate
  ok cert
