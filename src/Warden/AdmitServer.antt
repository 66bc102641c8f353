-- ===== src/Warden/AdmitServer.antt =====
-- go/warden/admitserver.go and the record of go/warden/peercred_linux.go: the socket of the sshd hooks.
-- What ReadPeerCred and encoding/json give are arguments, none where they fail, and so are
-- ssh.ParseAuthorizedKey, with its comment and options left out, and strconv.FormatUint to the base 10,
-- `decimal`. The texts of errors and the log are left out.
pub mod Laws
use grantd.Base.{
  ℕ, ◌^◌, ◌%◌, Bool, true, false, not, ◌||◌, Option, none, some, List, [], ◌∷◌, ◌++◌, Bytes, Int64,
  Result, ok, err, codes, ◌==◌, eq_bytes, if◌then◌else◌, ◌>>=◌, ◌>>◌,
}
use grantd.Ssh.{AuthorizedKey, plain, signed}
use grantd.Warden.State.{Proc, Answer, Warden, Config, Refusal, not_ready, denied, Grant}
use grantd.Warden.Admission.{admit}
use grantd.Warden.Attach.{World, attach}

pub record PeerCred : Type 0 where
  pub pid : ℕ
  pub uid : ℕ

pub data Failure : Type 0 where
  no_credentials no_pid no_caller uid_disagrees : Failure
  empty_certificate malformed_certificate not_a_certificate : Failure
  refusal : Refusal → Failure

-- writeJSON at 200 with a body, and at another status with an error.
pub data Response (A : Type 0) : Type 0 where
  answered : A → Response A
  failed : ℕ → Response A

pub record PrincipalsRequest : Type 0 where
  pub user : Bytes
  pub cert_type : Bytes
  pub cert_b64 : Bytes

unfoldable pub demand : Bool → Failure → Result Failure (Unit {0})
demand true e = ok tt
demand false e = err e

unfoldable pub given : {A : Type 0} → Option A → Failure → Result Failure A
given none e = err e
given (some a) e = ok a

unfoldable pub or_refusal : {A : Type 0} → Result Refusal A → Result Failure A
or_refusal (ok a) = ok a
or_refusal (err e) = err (refusal e)

-- `read_proc` is ReadProc; a uid of /proc is compared in 32 bits.
unfoldable pub caller : (ℕ → Option Proc) → Option PeerCred → Result Failure Proc
unfolding demand given
caller read_proc peer = do
  cred ← given peer no_credentials
  demand (not (cred.pid == 0)) no_pid
  p ← given (read_proc cred.pid) no_caller
  demand (p.uid % 2 ^ 32 == cred.uid) uid_disagrees
  ok p

-- errors.Is(err, ErrNotReady)
unfoldable pub deny_status : Failure → ℕ
deny_status (refusal not_ready) = 503
deny_status (refusal (denied r)) = 403
deny_status _ = 403

unfoldable pub reply_of : {A B : Type 0} → (A → B) → Result Failure A → Response B
unfolding deny_status
reply_of f (ok a) = answered (f a)
reply_of f (err e) = failed (deny_status e)

unfoldable pub cert_of_key : (ℕ → Bytes) → Option AuthorizedKey → Result Failure (Bytes × Bytes)
cert_of_key decimal none = err malformed_certificate
cert_of_key decimal (some (plain k)) = err not_a_certificate
cert_of_key decimal (some (signed s)) = ok (s.certificate.key_id, decimal s.certificate.serial)

unfoldable pub cert_key_id_serial :
    (Bytes → Option AuthorizedKey) → (ℕ → Bytes) → Bytes → Bytes → Result Failure (Bytes × Bytes)
unfolding cert_of_key
cert_key_id_serial parse decimal cert_type cert_b64 =
    if eq_bytes cert_type [] || eq_bytes cert_b64 []
    then err empty_certificate
    else cert_of_key decimal (parse (cert_type ++ (b' ' ∷ cert_b64)))

unfoldable pub principals_of : Result Refusal Bytes × Warden → Response (List Bytes) × Warden
unfolding reply_of or_refusal
principals_of (r, w) = (reply_of (λ p. p ∷ []) (or_refusal r), w)

module _ (cfg : Config) (read_proc : ℕ → Option Proc) (parse : Bytes → Option AuthorizedKey)
    (decimal : ℕ → Bytes) (signer : Bytes → Answer) where
  -- The call of Admit, with the key id and the serial of the certificate.
  unfoldable pub admit_cert :
      Int64
      → Int64
      → Warden
      → Warden
      → Proc
      → Bytes
      → Result Failure (Bytes × Bytes)
      → Response (List Bytes) × Warden
  unfolding principals_of deny_status
  admit_cert now created before w p user (err e) = (failed (deny_status e), w)
  admit_cert now created before w p user (ok (key_id, serial)) =
      principals_of (admit cfg read_proc signer now created before w p user key_id serial)

  -- The caller is checked before the body is read, which is none where it is malformed.
  unfoldable pub principals_from :
      Int64
      → Int64
      → Warden
      → Warden
      → Result Failure Proc
      → Option PrincipalsRequest
      → Response (List Bytes) × Warden
  unfolding admit_cert deny_status
  principals_from now created before w (err e) body = (failed (deny_status e), w)
  principals_from now created before w (ok p) none = (failed 400, w)
  principals_from now created before w (ok p) (some req) =
      admit_cert now created before w p req.user
        (cert_key_id_serial parse decimal req.cert_type req.cert_b64)

  unfoldable pub principals :
      Int64
      → Int64
      → Warden
      → Warden
      → Option PeerCred
      → Option PrincipalsRequest
      → Response (List Bytes) × Warden
  unfolding principals_from caller
  principals now created before w peer body =
      principals_from now created before w (caller read_proc peer) body

-- The body of the answer is {"status": "attached"}.
unfoldable pub attach_called :
    Config → World → Result Failure Proc → Option Bytes → Warden → Response (Unit {0}) × Warden
unfolding reply_of or_refusal deny_status
attach_called cfg x (err e) body w = (failed (deny_status e), w)
attach_called cfg x (ok p) none w = (failed 400, w)
attach_called cfg x (ok p) (some user) w =
    let (r, w') = attach cfg x p user w in (reply_of (λ u. u) (or_refusal r), w')

unfoldable pub attach_request :
    Config → World → Option PeerCred → Option Bytes → Warden → Response (Unit {0}) × Warden
unfolding attach_called caller
attach_request cfg x peer body w = attach_called cfg x (caller x.read_proc peer) body w
