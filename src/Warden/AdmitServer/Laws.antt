-- ===== src/Warden/AdmitServer/Laws.antt =====
-- What an answer on the socket of the sshd hooks has established.
use grantd.Base.{
  ℕ, ◌^◌, ◌%◌, ◌≡◌, ◌≢◌, refl, ap, ◌∙◌, true, not, Option, none, some, List, [], ◌∷◌, ◌++◌, Bytes,
  Int64, Result, ok, err, arith, ◌==◌, ==_iff, eq_bytes_iff, >>=-eq-ok,
}
use grantd.Ssh.{AuthorizedKey, SignedCertificate, plain, signed}
use grantd.Warden.State.{Proc, GrantInfo, Answer, Warden, Config, Refusal}
use grantd.Warden.Admission.{admit}
use grantd.Warden.Admission.Laws.{Admits, admit_sound}
use grantd.Warden.AdmitServer.{
  PeerCred, Failure, answered, PrincipalsRequest, demand, given, or_refusal, caller, reply_of,
  cert_of_key, cert_key_id_serial, principals_of, admit_cert, principals_from, principals,
}

-- The process that called, as the kernel and the process table say.
pub record Calls (read_proc : ℕ → Option Proc) (peer : Option PeerCred) (p : Proc) : Type 0 where
  pub cred : PeerCred
  pub credentials : peer ≡ some cred
  pub has_pid : cred.pid ≢ 0
  pub read : read_proc cred.pid ≡ some p
  pub same_uid : p.uid % 2 ^ 32 ≡ cred.uid

demand-true : (b : _) (e : Failure) {u : Unit {0}} → demand b e ≡ ok u → b ≡ true
unfolding demand
demand-true b e h = ground arith

given-some : {A : Type 0} (o : Option A) (e : Failure) {a : A} → given o e ≡ ok a → o ≡ some a
unfolding given
given-some none e h = cc
given-some (some a) e h = ground arith

caller-ok :
    (read_proc : ℕ → Option Proc) (peer : Option PeerCred) (p : Proc)
    → caller read_proc peer ≡ ok p
    → Calls read_proc peer p
unfolding caller
caller-ok read_proc peer p h =
    let (cred, a1, e1) = >>=-eq-ok (given peer _) _ h in
    let (_, a2, e2) = >>=-eq-ok (demand (not (cred.pid == 0)) _) _ e1 in
    let (q, a3, e3) = >>=-eq-ok (given (read_proc cred.pid) _) _ e2 in
    let (_, a4, e4) = >>=-eq-ok (demand (q.uid % 2 ^ 32 == cred.uid) _) _ e3 in
    let same : q ≡ p = ground arith in
    record {
      cred = cred;
      credentials = given-some _ _ a1;
      has_pid = ground (arith, demand-true _ _ a2, ==_iff cred.pid 0);
      read = given-some _ _ a3 ∙ ap some same;
      same_uid = rw same at ((==_iff _ _).0 (demand-true _ _ a4));
    }

-- The certificate of the line that the request carries, which sshd has verified.
pub record Presents (parse : Bytes → Option AuthorizedKey) (cert_type cert_b64 : Bytes)
    (cert : SignedCertificate) : Type 0 where
  pub typed : cert_type ≢ []
  pub encoded : cert_b64 ≢ []
  pub parsed : parse (cert_type ++ (b' ' ∷ cert_b64)) ≡ some (signed cert)

cert_of_key-ok :
    (decimal : ℕ → Bytes) (o : Option AuthorizedKey) (key_id serial : Bytes)
    → cert_of_key decimal o ≡ ok (key_id, serial)
    → (cert : SignedCertificate) × (o ≡ some (signed cert))
      × (cert.certificate.key_id ≡ key_id)
      × (decimal cert.certificate.serial ≡ serial)
unfolding cert_of_key
cert_of_key-ok decimal none key_id serial h = absurd (ground arith)
cert_of_key-ok decimal (some (plain k)) key_id serial h = absurd (ground arith)
cert_of_key-ok decimal (some (signed s)) key_id serial h = (s, refl, ground arith, ground arith)

cert_key_id_serial-ok :
    (parse : Bytes → Option AuthorizedKey) (decimal : ℕ → Bytes)
    (cert_type cert_b64 key_id serial : Bytes)
    → cert_key_id_serial parse decimal cert_type cert_b64 ≡ ok (key_id, serial)
    → (cert : SignedCertificate) × Presents parse cert_type cert_b64 cert
      × (cert.certificate.key_id ≡ key_id)
      × (decimal cert.certificate.serial ≡ serial)
unfolding cert_key_id_serial
cert_key_id_serial-ok parse decimal cert_type cert_b64 key_id serial h =
    let given_key : cert_of_key decimal (parse (cert_type ++ (b' ' ∷ cert_b64)))
        ≡ ok (key_id, serial) =
      ground arith in
    let (cert, e, k, s) = cert_of_key-ok decimal _ key_id serial given_key in
    (
      cert,
      record {
        typed = ground (arith, eq_bytes_iff cert_type []);
        encoded = ground (arith, eq_bytes_iff cert_b64 []);
        parsed = e;
      },
      k,
      s,
    )

principals_of-ok :
    (out : Result Refusal Bytes × Warden) (w' : Warden) (ps : List Bytes)
    → principals_of out ≡ (answered ps, w')
    → (principal : Bytes) × (out ≡ (ok principal, w')) × (ps ≡ principal ∷ [])
unfolding principals_of reply_of or_refusal
principals_of-ok (ok p, w) w' ps h = (p, ground arith, ground arith)
principals_of-ok (err e, w) w' ps h = absurd (ground arith)

-- What an answer to a request for principals is.
pub record Authorizes (cfg : Config) (read_proc : ℕ → Option Proc)
    (parse : Bytes → Option AuthorizedKey) (decimal : ℕ → Bytes) (signer : Bytes → Answer)
    (now created : Int64) (before w w' : Warden) (req : PrincipalsRequest) (p : Proc)
    (ps : List Bytes) : Type 0 where
  pub only_user : ps ≡ cfg.ssh_user ∷ []
  pub cert : SignedCertificate
  pub presents : Presents parse req.cert_type req.cert_b64 cert
  pub grant_id : Bytes
  pub agent_id : Bytes
  pub sshd : Proc
  pub info : GrantInfo
  pub admission :
      Admits cfg read_proc signer now created before w w' p req.user cert.certificate.key_id
        (decimal cert.certificate.serial)
        grant_id
        agent_id
        sshd
        info

module _ (cfg : Config) (read_proc : ℕ → Option Proc) (parse : Bytes → Option AuthorizedKey)
    (decimal : ℕ → Bytes) (signer : Bytes → Answer) (now created : Int64)
    (before w w' : Warden) where
  admit_cert-ok :
      (req : PrincipalsRequest) (p : Proc) (r : Result Failure (Bytes × Bytes)) (ps : List Bytes)
      → cert_key_id_serial parse decimal req.cert_type req.cert_b64 ≡ r
      → admit_cert cfg read_proc parse decimal signer now created before w p req.user r
        ≡ (answered ps, w')
      → Authorizes cfg read_proc parse decimal signer now created before w w' req p ps
  unfolding admit_cert
  admit_cert-ok req p (err e) ps c h = absurd (ground arith)
  admit_cert-ok req p (ok (key_id, serial)) ps c h =
      let call = admit cfg read_proc signer now created before w p req.user key_id serial in
      let (principal, e, l) = principals_of-ok call w' ps h in
      let (cert, pres, k, s) =
        cert_key_id_serial-ok parse decimal req.cert_type req.cert_b64 key_id serial c in
      let (u, g, a, sshd, info, m) =
        admit_sound cfg read_proc signer now created before w w' p req.user key_id serial principal
          e in
      record {
        only_user = l ∙ ap (λ x. x ∷ []) u;
        cert = cert;
        presents = pres;
        grant_id = g;
        agent_id = a;
        sshd = sshd;
        info = info;
        admission = rw (k, s) m;
      }

  principals_from-ok :
      (r : Result Failure Proc) (body : Option PrincipalsRequest) (ps : List Bytes)
      → principals_from cfg read_proc parse decimal signer now created before w r body
        ≡ (answered ps, w')
      → (req : PrincipalsRequest) × (p : Proc) × (r ≡ ok p)
        × (body ≡ some req)
        × Authorizes cfg read_proc parse decimal signer now created before w w' req p ps
  unfolding principals_from
  principals_from-ok (err e) body ps h = absurd (ground arith)
  principals_from-ok (ok p) none ps h = absurd (ground arith)
  principals_from-ok (ok p) (some req) ps h = (req, p, refl, refl, admit_cert-ok req p _ ps refl h)

  -- A request for principals that is answered with names, whatever ran while Admit was without the
  -- lock: the body was read; the kernel reported a peer, whose pid is not 0 and is that of a process
  -- read with the uid, in 32 bits, that the kernel reported; the names are the one enrolled user; the
  -- certificate type and text of the body are not empty and are the line of a certificate; and Admit
  -- admitted that process, for the user of the body, with the key id and the serial of this
  -- certificate: its label is one that the authority writes, its grant is known to the signer, for
  -- that user, redeemed, neither revoked nor expired, and with that serial, and is not closing here,
  -- the parent of the process is root's and named as sshd is, and all that has changed is that this
  -- sshd's pending admission is this one.
  pub principals_sound :
      (peer : Option PeerCred) (body : Option PrincipalsRequest) (ps : List Bytes)
      → principals cfg read_proc parse decimal signer now created before w peer body
        ≡ (answered ps, w')
      → (req : PrincipalsRequest) × (p : Proc) × (body ≡ some req)
        × Calls read_proc peer p
        × Authorizes cfg read_proc parse decimal signer now created before w w' req p ps
  unfolding principals
  principals_sound peer body ps h =
      let (req, p, e, b, a) = principals_from-ok (caller read_proc peer) body ps h in
      (req, p, b, caller-ok read_proc peer p e, a)
