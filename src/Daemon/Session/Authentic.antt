-- ===== src/Daemon/Session/Authentic.antt =====
-- What a session sends to the service, when the signer's handlers answer it.
use grantd.Base.{
  ◌≡◌, sym, ap, ◌∙◌, Bool, true, false, Option, some, Bytes, Int64, Result, ok, err, arith,
  if◌then◌else◌,
}
use grantd.Std.Base64.{url_alphabet, encode_raw}
use grantd.Crypto.{Crypto, IsCrypto}
use grantd.Ssh.{Ssh}
use grantd.Protocol.Errors.{bad_request}
use grantd.Protocol.Messages.{verify, canonical_host_registration, canonical_host_connect}
use grantd.Protocol.Envelopes.{HostRegisterRequest}
use grantd.Store.Tables.{Io, HostRow, Db}
use grantd.Signer.Lifetime.{failed}
use grantd.Signer.Redeem.{Keys}
use grantd.Signer.Grants.{ConnectAuth, host_registration, sign_connect}
use grantd.Signer.Grants.Enrollment.{Registers, host_registration-ok}
use grantd.Signer.Grants.Connect.{connect_of, Connects, sign_connect-ok}
use grantd.Signer.Api.{internal_reply, bad_path, registration_handler, connect_auth_handler}
use grantd.Agent.Verify.Trust.{verify-sign}
use grantd.Daemon.Client.{heard}
use grantd.Daemon.Session.{World, connect_path, session}
use grantd.Daemon.Session.Dialled.{dials, Ready, five_calls, session-Ready}

heard-internal_reply :
    {E A : Type 0} (r : Result E A) (a : A) → heard (some (internal_reply r)) ≡ some a → r ≡ ok a
unfolding heard internal_reply
heard-internal_reply (ok b) a h = ground arith
heard-internal_reply (err e) a h = absurd (ground arith)

accepted-ok :
    {E A : Type 0} (bad : Bool) (r : Result E A) (a : A)
    → heard (some (if bad then failed bad_request else internal_reply r)) ≡ some a
    → r ≡ ok a
accepted-ok true r a h = unfold heard in absurd (ground arith)
accepted-ok false r a h = heard-internal_reply r a h

module _ (c : Crypto) where
  -- The header is for the host and the path of the registration, and both are signed by the key in it.
  pub record Authenticated (reg : HostRegisterRequest) (auth : ConnectAuth) : Type 0 where
    pub same_host : auth.host_id ≡ reg.registration.host_id
    pub same_path : auth.path ≡ connect_path reg.registration.host_id
    pub raw : Bytes
    pub nonce : auth.nonce ≡ encode_raw url_alphabet raw
    pub message : Bytes
    pub message_signed : canonical_host_connect (connect_of auth raw) ≡ ok message
    pub signature : Bytes
    pub sent_signature : auth.signature ≡ encode_raw url_alphabet signature
    pub verified : verify c reg.registration.identity_public_key message signature ≡ true
    pub record_message : Bytes
    pub record_signed : canonical_host_registration reg.registration ≡ ok record_message
    pub record_verified :
        verify c reg.registration.identity_public_key record_message reg.signature ≡ true

  module _ (laws : IsCrypto c) (lib : Ssh) (rfc3339 : Int64 → Bytes) where
    connect_auth_handler-ok :
        (io : Io) (k : Keys) (now : Int64) (random : Option Bytes) (path : Bytes) (db : Db)
        (auth : ConnectAuth)
        → heard (some (connect_auth_handler c lib rfc3339 io k now random (some path) db))
          ≡ some auth
        → sign_connect c io k now random path db ≡ ok auth
    unfolding connect_auth_handler
    connect_auth_handler-ok io k now random path db auth h =
        accepted-ok (bad_path path) (sign_connect c io k now random path db) auth h

    Registers-Authenticated :
        (k : Keys) (now : Int64) (db : Db) (reg : HostRegisterRequest) (auth : ConnectAuth)
        (h h' : HostRow)
        → Registers c lib k now db reg h
        → Connects c k (connect_path reg.registration.host_id) db auth h'
        → Authenticated reg auth
    Registers-Authenticated k now db reg auth h h' r s =
        let same : h ≡ h' = ground (arith, r.enrolled, s.enrolled) in
        record {
          same_host = s.id ∙ ap (λ (x : HostRow). x.host_id) (sym same) ∙ sym r.id;
          same_path = s.path;
          raw = s.raw;
          nonce = s.nonce;
          message = s.message;
          message_signed = s.message_signed;
          signature = c.sign k.identity s.message;
          sent_signature = s.signed;
          verified = rw r.key (verify-sign c laws lib k.identity s.message);
          record_message = r.message;
          record_signed = r.message_signed;
          record_verified = rw (r.key, r.signed) (verify-sign c laws lib k.identity r.message);
        }

    -- When the signer answers a session from one state of its database, a session that dials has
    -- before that asked its status and its registration, sent that registration and had it taken, and
    -- asked for the signature of the path, in this order; what it dials with is for the host id of the
    -- registration and the path of that host, and the identity key in the registration verifies it and
    -- the registration.
    pub session-Authenticated :
        (io io' : Io) (k : Keys) (now now' : Int64) (random random' : Option Bytes) (db : Db)
        (origin : Bytes) (w : World) (url : Bytes) (auth : ConnectAuth)
        → w.registration ≡ some (registration_handler c lib rfc3339 io k now random db)
        → ((path : Bytes)
            → w.connect_auth path
              ≡ some (connect_auth_handler c lib rfc3339 io' k now' random' (some path) db))
        → dials (session origin w).0 ≡ some (url, auth)
        → (r : Ready origin w url auth) × ((session origin w).0 ≡ five_calls origin r.reg url auth)
          × Authenticated r.reg auth
    unfolding registration_handler
    session-Authenticated io io' k now now' random random' db origin w url auth answers signs d =
        let (r, calls) = session-Ready origin w url auth d in
        let path = connect_path r.reg.registration.host_id in
        let given =
          heard-internal_reply (host_registration c lib io k now random db) r.reg
            (ap heard (sym answers) ∙ r.heard_registration) in
        let (h, registers) = host_registration-ok c lib io k now random db r.reg given in
        let signed =
          connect_auth_handler-ok io' k now' random' path db auth
            (ap heard (sym (signs path)) ∙ r.heard_auth) in
        let (h', connects) = sign_connect-ok c io' k now' random' path db auth signed in
        (r, calls, Registers-Authenticated k now db r.reg auth h h' registers connects)
