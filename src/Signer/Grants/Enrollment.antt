-- ===== src/Signer/Grants/Enrollment.antt =====
-- What an enrollment has checked, and what the registration of an enrolled host says.
use grantd.Base.{
  ℕ, ◌≡◌, refl, ap, ◌∙◌, sym, Option, some, [], Bytes, Int64, Result, ok, err, arith, eq_bytes,
  if◌then◌else◌, >>=-eq-ok,
}
use grantd.Crypto.{Crypto}
use grantd.Ssh.{Ssh, PublicKey}
use grantd.Protocol.Ids.{version, host_id}
use grantd.Protocol.Validate.{validate_ssh_user, validate_hostname, validate_port}
use grantd.Protocol.SshKey.{parse_ssh_public_key}
use grantd.Protocol.Messages.{HostRegistration, canonical_host_registration}
use grantd.Protocol.Envelopes.{HostRegisterRequest}
use grantd.Store.Tables.{Io, HostRow, Db, Outcome}
use grantd.Store.Host.{host, set_host}
use grantd.Store.Host.Laws.{Enrolls, set_host-ok, host-ok}
use grantd.Signer.Redeem.{Keys}
use grantd.Signer.Grants.{
  Failure, or_fail, present, stored, enrolling, enroll, ssh_ca_public_key_line, host_registration,
}
use grantd.Signer.Grants.Laws.{or_fail-ok}

stored-ok :
    {A : Type 0} (o : Outcome A) {a : A} {db' : Db} → stored o ≡ (ok a, db') → o ≡ (ok a, db')
unfolding stored or_fail
stored-ok (ok a, db) h = ground arith
stored-ok (err e, db) h = absurd (ground arith)

set-ok :
    (io : Io) (r : Result Failure HostRow) (db db' : Db)
    → (elim r [ err x ↦ (err x, db) | ok h ↦ stored (set_host io h db) ]) ≡ (ok tt, db')
    → (h : HostRow) × (r ≡ ok h) × (set_host io h db ≡ (ok tt, db'))
set-ok io (err x) db db' e = absurd (ground arith)
set-ok io (ok h) db db' e = (h, refl, stored-ok (set_host io h db) e)

module _ (c : Crypto) (lib : Ssh) where
  -- An enrolled host: valid values, a host key, and the id of the identity key.
  pub record Enrolled (k : Keys) (h : HostRow) : Type 0 where
    pub user_valid : validate_ssh_user h.ssh_user ≡ ok tt
    pub hostname_valid : validate_hostname h.hostname ≡ ok tt
    pub port_valid : validate_port h.ssh_port ≡ ok tt
    pub host_key : PublicKey
    pub key_parsed : parse_ssh_public_key lib h.ssh_host_public_key ≡ ok host_key
    pub id_of_key : host_id c (c.public_of k.identity) ≡ ok h.host_id

  enrolling-ok :
      (k : Keys) (now : Int64) (ssh_user hostname : Bytes) (port : ℕ) (line : Bytes) (h : HostRow)
      → enrolling c lib k now ssh_user hostname port line ≡ ok h
      → Enrolled k h
  unfolding enrolling
  enrolling-ok k now ssh_user hostname port line h e =
      let (_, a1, e1) = >>=-eq-ok (or_fail (validate_ssh_user ssh_user) _) _ e in
      let (_, a2, e2) = >>=-eq-ok (or_fail (validate_hostname hostname) _) _ e1 in
      let (_, a3, e3) = >>=-eq-ok (or_fail (validate_port port) _) _ e2 in
      let (_, a4, e4) = >>=-eq-ok (if eq_bytes line [] then err _ else ok tt) _ e3 in
      let (key, a5, e5) = >>=-eq-ok (or_fail (parse_ssh_public_key lib line) _) _ e4 in
      let (id, a6, e6) = >>=-eq-ok (or_fail (host_id c (c.public_of k.identity)) _) _ e5 in
      let u : ssh_user ≡ h.ssh_user = ground arith in
      let n : hostname ≡ h.hostname = ground arith in
      let p : port ≡ h.ssh_port = ground arith in
      let l : line ≡ h.ssh_host_public_key = ground arith in
      let i : id ≡ h.host_id = ground arith in
      record {
        user_valid = rw u at (or_fail-ok _ _ a1);
        hostname_valid = rw n at (or_fail-ok _ _ a2);
        port_valid = rw p at (or_fail-ok _ _ a3);
        host_key = key;
        key_parsed = rw l at (or_fail-ok _ _ a5);
        id_of_key = or_fail-ok _ _ a6 ∙ ap ok i;
      }

  Enrolled-Enrolls : (k : Keys) (h row : HostRow) → Enrolled k h → Enrolls h row → Enrolled k row
  Enrolled-Enrolls k h row e s = record {
    user_valid = rw s.user e.user_valid;
    hostname_valid = rw s.named e.hostname_valid;
    port_valid = rw s.port e.port_valid;
    host_key = e.host_key;
    key_parsed = rw s.key e.key_parsed;
    id_of_key = rw s.id e.id_of_key;
  }

  -- After an enrollment the database has a host, whose user, address, port and key are valid, and
  -- whose id is the hash of the identity key.
  pub enroll-ok :
      (io : Io) (k : Keys) (now : Int64) (ssh_user hostname : Bytes) (port : ℕ) (line : Bytes)
      (db db' : Db)
      → enroll c lib io k now ssh_user hostname port line db ≡ (ok tt, db')
      → (row : HostRow) × (db'.host ≡ some row) × Enrolled k row
  unfolding enroll
  enroll-ok io k now ssh_user hostname port line db db' e =
      let (h, r, w) = set-ok io (enrolling c lib k now ssh_user hostname port line) db db' e in
      let (row, d, s) = set_host-ok io h db db' w in
      (row, d, Enrolled-Enrolls k h row (enrolling-ok k now ssh_user hostname port line h r) s)

  -- A registration is that of the row, signed by the identity key.
  pub record Registers (k : Keys) (now : Int64) (db : Db) (r : HostRegisterRequest) (h : HostRow)
      : Type 0 where
    pub enrolled : db.host ≡ some h
    pub spoken_version : r.registration.version ≡ 1
    pub id : r.registration.host_id ≡ h.host_id
    pub key : r.registration.identity_public_key ≡ c.public_of k.identity
    pub ca_line : ssh_ca_public_key_line c lib k ≡ ok r.registration.ssh_ca_public_key
    pub host_key : r.registration.ssh_host_public_key ≡ h.ssh_host_public_key
    pub named : r.registration.hostname ≡ h.hostname
    pub port : r.registration.ssh_port ≡ h.ssh_port
    pub user : r.registration.ssh_user ≡ h.ssh_user
    pub message : Bytes
    pub message_signed : canonical_host_registration r.registration ≡ ok message
    pub signed : r.signature ≡ c.sign k.identity message

  pub host_registration-ok :
      (io : Io) (k : Keys) (now : Int64) (random : Option Bytes) (db : Db) (r : HostRegisterRequest)
      → host_registration c lib io k now random db ≡ ok r
      → (h : HostRow) × Registers k now db r h
  unfolding host_registration
  host_registration-ok io k now random db r e =
      let (h, a1, e1) = >>=-eq-ok (or_fail (host io db) _) _ e in
      let (ca, a2, e2) = >>=-eq-ok (ssh_ca_public_key_line c lib k) _ e1 in
      let (_, a3, e3) =
        >>=-eq-ok (if eq_bytes h.ssh_host_public_key [] then err _ else ok tt) _ e2 in
      let (nonce, a4, e4) = >>=-eq-ok (present random _) _ e3 in
      let reg : HostRegistration = record {
        version = version;
        host_id = h.host_id;
        identity_public_key = c.public_of k.identity;
        ssh_ca_public_key = ca;
        ssh_host_public_key = h.ssh_host_public_key;
        hostname = h.hostname;
        ssh_port = h.ssh_port;
        ssh_user = h.ssh_user;
        timestamp = now;
        nonce = nonce;
      } in
      let (msg, a5, e5) = >>=-eq-ok (or_fail (canonical_host_registration reg) _) _ e4 in
      let same : reg ≡ r.registration = ground arith in
      (
        h,
        record {
          enrolled = host-ok io db h (or_fail-ok _ _ a1);
          spoken_version = sym (ap (λ (x : HostRegistration). x.version) same);
          id = sym (ap (λ (x : HostRegistration). x.host_id) same);
          key = sym (ap (λ (x : HostRegistration). x.identity_public_key) same);
          ca_line = a2 ∙ ap (λ (x : HostRegistration). ok x.ssh_ca_public_key) same;
          host_key = sym (ap (λ (x : HostRegistration). x.ssh_host_public_key) same);
          named = sym (ap (λ (x : HostRegistration). x.hostname) same);
          port = sym (ap (λ (x : HostRegistration). x.ssh_port) same);
          user = sym (ap (λ (x : HostRegistration). x.ssh_user) same);
          message = msg;
          message_signed = ap canonical_host_registration (sym same) ∙ or_fail-ok _ _ a5;
          signed = ground arith;
        },
      )
