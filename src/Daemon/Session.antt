-- ===== src/Daemon/Session.antt =====
-- go/daemon/rendezvous/rendezvous.go: session and register, up to the loop that reads the frames, which
-- is in Rendezvous. What the signer and the service answer, and whether the connection is made, is an
-- argument. The result says what the daemon has sent, in order, and how the session ended.
pub mod Dialled
pub mod Urls
pub mod Authentic
use grantd.Base.{
  ℕ, Bool, Option, none, some, List, [], ◌∷◌, ◌++◌, Bytes, codes, Result, ok, err, leb,
  if◌then◌else◌,
}
use grantd.Std.Strings.{has_prefix, trim_prefix, trim_suffix}
use grantd.Protocol.Envelopes.{HostRegisterRequest}
use grantd.Signer.Lifetime.{Reply}
use grantd.Signer.Grants.{ConnectAuth}
use grantd.Signer.Api.{Status}
use grantd.Daemon.Client.{heard}
use grantd.Daemon.Publishing.{put_status}

pub data Call : Type 0 where
  asking_status asking_registration : Call
  putting : Bytes → HostRegisterRequest → Call
  asking_auth : Bytes → Call
  dialling : Bytes → ConnectAuth → Call

-- The errors of session.
pub data Ended : Type 0 where
  signer_unreachable no_registration register_failed : Ended
  register_rejected : ℕ → Ended
  no_auth dial_failed read_failed : Ended

pub record World : Type 0 where
  -- The signer's answers.
  pub status : Option (Reply Status)
  pub registration : Option (Reply HostRegisterRequest)
  pub connect_auth : Bytes → Option (Reply ConnectAuth)
  -- The service's status for a PUT, none where there is no answer, and whether it takes the connection.
  pub service : Bytes → HostRegisterRequest → Option ℕ
  pub accepts : Bytes → ConnectAuth → Bool
  -- The session's context is done when the reading of frames fails.
  pub cancelled : Bool

unfoldable pub ws_url : Bytes → Bytes → Bytes
unfolding trim_suffix has_prefix trim_prefix
ws_url origin path =
    let u = trim_suffix origin (codes "/") ++ path in
    if has_prefix u (codes "https://")
    then codes "wss://" ++ trim_prefix u (codes "https://")
    else if has_prefix u (codes "http://")
    then codes "ws://" ++ trim_prefix u (codes "http://")
    else u

unfoldable pub host_url : Bytes → Bytes → Bytes
unfolding trim_suffix
host_url origin host_id = trim_suffix origin (codes "/") ++ (codes "/v1/hosts/" ++ host_id)

unfoldable pub connect_path : Bytes → Bytes
connect_path host_id = codes "/v1/hosts/" ++ (host_id ++ codes "/connect")

-- What register makes of the status of its PUT.
unfoldable pub registered : HostRegisterRequest → Option ℕ → Result Ended HostRegisterRequest
registered reg none = err register_failed
registered reg (some status) = if leb 400 status then err (register_rejected status) else ok reg

abbrev pub Run : Type 0 → Type 0
Run A = List Call × Result Ended A

unfoldable pub register_with :
    Bytes
    → (Bytes → HostRegisterRequest → Option ℕ)
    → Option HostRegisterRequest
    → Run HostRegisterRequest
unfolding registered put_status host_url
register_with origin service none = (asking_registration ∷ [], err no_registration)
register_with origin service (some reg) =
    let url = host_url origin reg.registration.host_id in
    (asking_registration ∷ putting url reg ∷ [], registered reg (put_status (service url reg)))

unfoldable pub register : Bytes → World → Run HostRegisterRequest
unfolding register_with heard
register origin w = register_with origin w.service (heard w.registration)

-- The connection and the reading of its frames.
unfoldable pub serve : World → Bytes → ConnectAuth → Run (Unit {0})
serve w url auth = (
  dialling url auth ∷ [],
  if w.accepts url auth then (if w.cancelled then ok tt else err read_failed) else err dial_failed,
)

unfoldable pub dial_with : Bytes → World → Bytes → Option ConnectAuth → Run (Unit {0})
unfolding serve ws_url
dial_with origin w path none = ([], err no_auth)
dial_with origin w path (some auth) = serve w (ws_url origin path) auth

-- After register.
unfoldable pub connect : Bytes → World → Result Ended HostRegisterRequest → Run (Unit {0})
unfolding dial_with connect_path heard
connect origin w (err e) = ([], err e)
connect origin w (ok reg) =
    let path = connect_path reg.registration.host_id in
    let (calls, r) = dial_with origin w path (heard (w.connect_auth path)) in
    (asking_auth path ∷ calls, r)

unfoldable pub session_with : Bytes → World → Option Status → Run (Unit {0})
unfolding register connect
session_with origin w none = (asking_status ∷ [], err signer_unreachable)
session_with origin w (some s) =
    let (asked, r) = register origin w in
    let (calls, e) = connect origin w r in (asking_status ∷ (asked ++ calls), e)

unfoldable pub session : Bytes → World → Run (Unit {0})
unfolding session_with heard
session origin w = session_with origin w (heard w.status)
