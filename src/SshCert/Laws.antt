-- ===== src/SshCert/Laws.antt =====
-- What a certificate that is issued says.
use grantd.Base.{
  bits64, ap, ◌∙◌, sym, ◌↔◌, ◌++◌, ℕ, ◌<◌, ◌≡◌, ◌≢◌, none, some, [], ◌∷◌, Bytes, ◌<ℤ◌, ok, codes,
  arith, eq_bytes_iff,
}
use grantd.Ssh.{Ssh, Certificate}
use grantd.SshCert.{Request, Draws, drawn, new_serial, certificate_of, issue, key_id}

-- A serial is never zero.
pub new_serial-pos : (d : Draws) (v : ℕ) → new_serial d ≡ drawn v → 0 < v
unfolding new_serial
new_serial-pos [] v h = absurd (ground arith)
new_serial-pos (none ∷ rest) v h = absurd (ground arith)
new_serial-pos (some b ∷ rest) v h = ground (arith, new_serial-pos rest v)

module _ (lib : Ssh) where
  pub issue-ok :
      (ca : Bytes) (req : Request) (cert : Certificate) (s : Bytes)
      → issue lib ca req ≡ ok (cert, s)
      → (cert ≡ certificate_of req)
        × (req.principal ≢ [])
        × (req.principal ≢ codes "root")
        × (req.valid_from <ℤ req.valid_to)
        × (lib.sign_cert ca cert ≡ some s)
  unfolding issue
  issue-ok ca req cert s h =
      let e : lib.sign_cert ca (certificate_of req) ≡ some s = ground arith in
      let k : cert ≡ certificate_of req = ground arith in
      (
        k,
        ground (arith, eq_bytes_iff req.principal []),
        ground (arith, eq_bytes_iff req.principal (codes "root")),
        ground arith,
        rw k e,
      )

  -- A certificate that the authority issues for a request: a user certificate of the key, the serial
  -- and the window, with the label of the grant and the agent, the one principal and two extensions.
  pub record Issues (ca : Bytes) (req : Request) (cert : Certificate) (s : Bytes) : Type 0 where
    pub principal_given : req.principal ≢ []
    pub not_root : req.principal ≢ codes "root"
    pub window : req.valid_from <ℤ req.valid_to
    pub of_key : cert.key ≡ req.public_key
    pub numbered : cert.serial ≡ req.serial
    pub for_users : cert.cert_type ≡ 1
    pub label : cert.key_id ≡ codes "grantd:" ++ (req.grant_id ++ (codes ":" ++ req.agent_id))
    pub one_principal : cert.valid_principals ≡ req.principal ∷ []
    pub after : cert.valid_after ≡ bits64 req.valid_from
    pub before : cert.valid_before ≡ bits64 req.valid_to
    pub extended : cert.extensions ≡ codes "permit-pty" ∷ codes "permit-user-rc" ∷ []
    pub signed : lib.sign_cert ca cert ≡ some s

  Issues-certificate_of :
      (ca : Bytes) (req : Request) (cert : Certificate) (s : Bytes)
      → Issues ca req cert s
      → cert ≡ certificate_of req
  unfolding certificate_of key_id
  Issues-certificate_of ca req cert s h = λ i. record {
    key = h.of_key i;
    serial = h.numbered i;
    cert_type = h.for_users i;
    key_id = h.label i;
    valid_principals = h.one_principal i;
    valid_after = h.after i;
    valid_before = h.before i;
    extensions = h.extended i;
  }

  issue-Issues :
      (ca : Bytes) (req : Request) (cert : Certificate) (s : Bytes)
      → issue lib ca req ≡ ok (cert, s)
      → Issues ca req cert s
  issue-Issues ca req cert s h =
      let (e, given, no_root, window, sg) = issue-ok ca req cert s h in
      unfold certificate_of key_id in
      record {
        principal_given = given;
        not_root = no_root;
        window = window;
        of_key = ap (λ (x : Certificate). x.key) e;
        numbered = ap (λ (x : Certificate). x.serial) e;
        for_users = ap (λ (x : Certificate). x.cert_type) e;
        label = ap (λ (x : Certificate). x.key_id) e;
        one_principal = ap (λ (x : Certificate). x.valid_principals) e;
        after = ap (λ (x : Certificate). x.valid_after) e;
        before = ap (λ (x : Certificate). x.valid_before) e;
        extended = ap (λ (x : Certificate). x.extensions) e;
        signed = sg;
      }

  Issues-issue :
      (ca : Bytes) (req : Request) (cert : Certificate) (s : Bytes)
      → Issues ca req cert s
      → issue lib ca req ≡ ok (cert, s)
  unfolding issue
  Issues-issue ca req cert s h =
      let e = Issues-certificate_of ca req cert s h in
      let sg : lib.sign_cert ca (certificate_of req) ≡ some s =
        ap (lib.sign_cert ca) (sym e) ∙ h.signed in
      ground (
        arith,
        h.principal_given,
        h.not_root,
        h.window,
        sg,
        e,
        eq_bytes_iff req.principal [],
        eq_bytes_iff req.principal (codes "root"),
      )

  -- A certificate is issued exactly when the principal is neither empty nor root, the window is not
  -- empty and the authority signs this certificate: a user certificate of the request's key and serial
  -- in that window, labelled grantd, the grant and the agent, for the principal alone and with a
  -- terminal and the user's rc as its extensions.
  pub issue_iff :
      (ca : Bytes) (req : Request) (cert : Certificate) (s : Bytes)
      → (issue lib ca req ≡ ok (cert, s)) ↔ Issues ca req cert s
  issue_iff ca req cert s = (issue-Issues ca req cert s, Issues-issue ca req cert s)
