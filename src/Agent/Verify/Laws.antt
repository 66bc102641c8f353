-- ===== src/Agent/Verify/Laws.antt =====
-- What a record and a response that a visitor accepts have in common with the host's own claims.
use grantd.Base.{
  ◌≡◌, Bool, true, Option, some, List, [], ◌∷◌, Bytes, Int64, ok, arith, eq_bytes, eq_bytes_iff,
  >>=-eq-ok, ◌==◌, ◌&&◌, Result, err, ◌∙◌, sym, ap,
}
use grantd.Crypto.{Crypto}
use grantd.Ssh.{Ssh, PublicKey, SignedCertificate, AuthorizedKey, signed, CertLibrary}
use grantd.Protocol.Ids.{check_host_id}
use grantd.Protocol.Messages.{HostRegistration, canonical_host_registration, verify}
use grantd.Protocol.Validate.{validate_hostname, validate_ssh_user, validate_port}
use grantd.Protocol.SshKey.{parse_ssh_public_key}
use grantd.Protocol.Envelopes.{HostPublicRecord, RedemptionResponse}
use grantd.Agent.Verify.{
  Failure, response_mismatch, VerifiedHost, guard, or_fail, verify_host_record, only_principal,
  signed_by, as_certificate, verify_redemption,
}

or_fail-ok :
    {E A : Type 0} (r : Result E A) (f : E → Failure) {a : A} → or_fail r f ≡ ok a → r ≡ ok a
unfolding or_fail
or_fail-ok (ok a) f h = ground arith
or_fail-ok (err e) f h = cc

guard-true : (b : Bool) (e : Failure) {u : Unit {0}} → guard b e ≡ ok u → b ≡ true
unfolding guard
guard-true b e h = ground arith

as_certificate-signed :
    (k : Option AuthorizedKey) (s : SignedCertificate)
    → as_certificate k ≡ ok s
    → k ≡ some (signed s)
unfolding as_certificate
as_certificate-signed k s h = ground arith

only_principal-eq :
    (ps : List Bytes) (user : Bytes) → only_principal ps user ≡ true → ps ≡ user ∷ []
unfolding only_principal
only_principal-eq [] user h = cc
only_principal-eq (p ∷ []) user h = ground (arith, eq_bytes_iff p user)
only_principal-eq (p ∷ q ∷ ps) user h = cc

signed_by-wire :
    (k : Option PublicKey) (key : PublicKey)
    → signed_by k key ≡ true
    → (signer : PublicKey) × (k ≡ some signer) × (signer.wire ≡ key.wire)
unfolding signed_by
signed_by-wire Option.none key h = cc
signed_by-wire (some k) key h = (k, (λ i. some k), ground (arith, eq_bytes_iff k.wire key.wire))

answers : RedemptionResponse → HostRegistration → Bool
answers resp reg =
    eq_bytes resp.hostname reg.hostname
    && (resp.port == reg.ssh_port)
    && eq_bytes resp.user reg.ssh_user

answers-eq :
    (resp : RedemptionResponse) (reg : HostRegistration)
    → answers resp reg ≡ true
    → (resp.hostname ≡ reg.hostname) × (resp.port ≡ reg.ssh_port) × (resp.user ≡ reg.ssh_user)
unfolding answers
answers-eq resp reg h =
    ground (arith, eq_bytes_iff resp.hostname reg.hostname, eq_bytes_iff resp.user reg.ssh_user)

-- A response is bound to the host: its address and its user, and a certificate for this key.
pub record Binds (lib : CertLibrary) (host : VerifiedHost) (resp : RedemptionResponse)
    (key : PublicKey) (now : Int64) (s : SignedCertificate) : Type 0 where
  pub hostname_named : resp.hostname ≡ host.registration.hostname
  pub port_named : resp.port ≡ host.registration.ssh_port
  pub user_named : resp.user ≡ host.registration.ssh_user
  pub parsed : lib.parse_authorized_key resp.certificate ≡ some (signed s)
  pub for_users : s.certificate.cert_type ≡ 1
  pub key_named : s.certificate.key.wire ≡ key.wire
  pub one_principal : s.certificate.valid_principals ≡ host.registration.ssh_user ∷ []
  pub signer : PublicKey
  pub has_signer : s.signature_key ≡ some signer
  pub signer_is_ca : signer.wire ≡ host.ca_key.wire
  pub checked : lib.check_cert host.registration.ssh_user now s ≡ true

-- A response that a visitor accepts names the registered address and user, and its certificate is a
-- user certificate for the visitor's own key and for that user alone, signed by the key that the host
-- registered as its authority, and accepted by the library's check for that user at that time.
pub verify_redemption_sound :
    (lib : CertLibrary) (host : VerifiedHost) (resp : RedemptionResponse) (key : PublicKey)
    (now : Int64) (s : SignedCertificate)
    → verify_redemption lib host resp key now ≡ ok s
    → Binds lib host resp key now s
unfolding verify_redemption answers
verify_redemption_sound lib host resp key now s e =
    let reg = host.registration in
    let (_, a1, e1) = >>=-eq-ok (guard (answers resp reg) response_mismatch) _ e in
    let (cert, a2, e2) =
      >>=-eq-ok (as_certificate (lib.parse_authorized_key resp.certificate)) _ e1 in
    let (_, a3, e3) = >>=-eq-ok (guard (cert.certificate.cert_type == 1) _) _ e2 in
    let (_, a4, e4) = >>=-eq-ok (guard (eq_bytes cert.certificate.key.wire key.wire) _) _ e3 in
    let (_, a5, e5) =
      >>=-eq-ok (guard (only_principal cert.certificate.valid_principals reg.ssh_user) _) _ e4 in
    let (_, a6, e6) = >>=-eq-ok (guard (signed_by cert.signature_key host.ca_key) _) _ e5 in
    let (_, a7, e7) = >>=-eq-ok (guard (lib.check_cert reg.ssh_user now cert) _) _ e6 in
    let same : cert ≡ s = ground arith in
    let reply = guard-true (answers resp reg) _ a1 in
    let (r1, r2, r3) = answers-eq resp reg reply in
    let parsed = as_certificate-signed (lib.parse_authorized_key resp.certificate) cert a2 in
    let (signer, has, wire) = signed_by-wire cert.signature_key host.ca_key (guard-true _ _ a6) in
    let principal =
      only_principal-eq cert.certificate.valid_principals reg.ssh_user (guard-true _ _ a5) in
    record {
      hostname_named = r1;
      port_named = r2;
      user_named = r3;
      parsed = rw same at parsed;
      for_users = ground (arith, guard-true _ _ a3, same);
      key_named =
          ground (arith, guard-true _ _ a4, same, eq_bytes_iff cert.certificate.key.wire key.wire);
      one_principal = rw same at principal;
      signer = signer;
      has_signer = rw same at has;
      signer_is_ca = wire;
      checked = rw same at (guard-true _ _ a7);
    }

module _ (c : Crypto) (lib : Ssh) where
  -- What a host record that is accepted has shown about the host id.
  pub record Vouches (host_id : Bytes) (rec : HostPublicRecord) (v : VerifiedHost) : Type 0 where
    pub registered : v.registration ≡ rec.registration
    pub spoken_version : rec.registration.version ≡ 1
    pub id_signed : rec.registration.host_id ≡ host_id
    pub id_served : rec.host_id ≡ host_id
    pub id_of_key : check_host_id c host_id rec.registration.identity_public_key ≡ ok tt
    pub message : Bytes
    pub message_signed : canonical_host_registration rec.registration ≡ ok message
    pub signature_verified :
        verify c rec.registration.identity_public_key message rec.signature ≡ true
    pub hostname_valid : validate_hostname rec.registration.hostname ≡ ok tt
    pub user_valid : validate_ssh_user rec.registration.ssh_user ≡ ok tt
    pub port_valid : validate_port rec.registration.ssh_port ≡ ok tt
    pub ca_parsed : parse_ssh_public_key lib rec.registration.ssh_ca_public_key ≡ ok v.ca_key
    pub host_key_parsed :
        parse_ssh_public_key lib rec.registration.ssh_host_public_key ≡ ok v.host_key

  ids-eq :
      (host_id : Bytes) (rec : HostPublicRecord)
      → (eq_bytes rec.registration.host_id host_id && eq_bytes rec.host_id host_id) ≡ true
      → (rec.registration.host_id ≡ host_id) × (rec.host_id ≡ host_id)
  ids-eq host_id rec h =
      ground
        (arith, eq_bytes_iff rec.registration.host_id host_id, eq_bytes_iff rec.host_id host_id)

  -- A host record that a visitor accepts for a host id is the registration of that id: the id is the
  -- one derived from the identity key in it, the signature verifies under that key over the canonical
  -- bytes of the whole registration, its user, address and port are valid, and the authority and the
  -- host key returned are those that its lines parse to.
  pub verify_host_record_sound :
      (host_id : Bytes) (rec : HostPublicRecord) (v : VerifiedHost)
      → verify_host_record c lib host_id rec ≡ ok v
      → Vouches host_id rec v
  unfolding verify_host_record
  verify_host_record_sound host_id rec v e =
      let reg = rec.registration in
      let (_, a1, e1) = >>=-eq-ok (guard (reg.version == 1) _) _ e in
      let (_, a2, e2) =
        >>=-eq-ok (guard (eq_bytes reg.host_id host_id && eq_bytes rec.host_id host_id) _) _ e1 in
      let (_, a3, e3) =
        >>=-eq-ok (or_fail (check_host_id c host_id reg.identity_public_key) _) _ e2 in
      let (msg, a4, e4) = >>=-eq-ok (or_fail (canonical_host_registration reg) _) _ e3 in
      let (_, a5, e5) =
        >>=-eq-ok (guard (verify c reg.identity_public_key msg rec.signature) _) _ e4 in
      let (_, a6, e6) = >>=-eq-ok (or_fail (validate_hostname reg.hostname) _) _ e5 in
      let (_, a7, e7) = >>=-eq-ok (or_fail (validate_ssh_user reg.ssh_user) _) _ e6 in
      let (_, a8, e8) = >>=-eq-ok (or_fail (validate_port reg.ssh_port) _) _ e7 in
      let (ca, a9, e9) =
        >>=-eq-ok (or_fail (parse_ssh_public_key lib reg.ssh_ca_public_key) _) _ e8 in
      let (hk, a10, e10) =
        >>=-eq-ok (or_fail (parse_ssh_public_key lib reg.ssh_host_public_key) _) _ e9 in
      let (i1, i2) = ids-eq host_id rec (guard-true _ _ a2) in
      record {
        registered = ground (arith, e10);
        spoken_version = ground (arith, guard-true _ _ a1);
        id_signed = i1;
        id_served = i2;
        id_of_key = or_fail-ok _ _ a3;
        message = msg;
        message_signed = or_fail-ok _ _ a4;
        signature_verified = guard-true _ _ a5;
        hostname_valid = or_fail-ok _ _ a6;
        user_valid = or_fail-ok _ _ a7;
        port_valid = or_fail-ok _ _ a8;
        ca_parsed = or_fail-ok _ _ a9 ∙ ground (arith, e10);
        host_key_parsed = or_fail-ok _ _ a10 ∙ ground (arith, e10);
      }

  -- Conversely, those facts are enough.
  pub verify_host_record_complete :
      (host_id : Bytes) (rec : HostPublicRecord) (v : VerifiedHost)
      → Vouches host_id rec v
      → verify_host_record c lib host_id rec ≡ ok v
  unfolding verify_host_record or_fail guard
  verify_host_record_complete host_id rec v h =
      let reg = rec.registration in
      let b1 : (reg.version == 1) ≡ true = ground (arith, h.spoken_version) in
      let b2 : eq_bytes reg.host_id host_id ≡ true = (eq_bytes_iff _ _).1 h.id_signed in
      let b3 : eq_bytes rec.host_id host_id ≡ true = (eq_bytes_iff _ _).1 h.id_served in
      rw
        (
          b1, b2, b3, h.id_of_key, h.message_signed, h.signature_verified, h.hostname_valid,
          h.user_valid, h.port_valid, h.ca_parsed, h.host_key_parsed,
        )
        (ap
          (λ (r : HostRegistration).
            ok (record { registration = r; ca_key = v.ca_key; host_key = v.host_key }))
          (sym h.registered))
