-- ===== src/Daemon/Rendezvous.antt =====
-- go/daemon/rendezvous/rendezvous.go: what the daemon does with the frames of its connections. The state
-- is the redemptions that are in flight, one goroutine each, and the frames that it has sent or failed
-- to send, on any connection: a new connection starts with the slots that are taken. What
-- encoding/json makes of a message is an argument, none for an error; `error_body` is the JSON of
-- MarshalErrorBody for a code. What it logs is left out.
pub mod Accounts
pub mod Relay
use grantd.Base.{
  ℕ, ◌≡◌, Bool, true, false, Option, none, some, List, [], ◌∷◌, ◌++◌, Bytes, codes, length, ltb,
  eq_bytes, if◌then◌else◌,
}
use grantd.Protocol.Errors.{Code, bad_request, rate_limited, internal, http_status_for}
use grantd.Protocol.Frames.{
  Frame, frame_hello, frame_redeem_request, frame_redeem_response, frame_ping, frame_pong, set_body,
  body,
}

abbrev pub max_inflight_redeems : ℕ
max_inflight_redeems = 8

pub record Daemon : Type 0 where
  pub inflight : List Frame
  pub sent : List Frame
  pub lost : List Frame

abbrev pub connected : Daemon
connected = record { inflight = []; sent = []; lost = [] }

-- protocol.Frame{Type: kind, ID: id, Status: status}
unfoldable pub reply : Bytes → Bytes → ℕ → Frame
reply kind id status = record {
  kind = kind;
  id = id;
  protocol_version = 0;
  status = status;
  body_b64 = [];
}

-- `written` says whether the frame could be marshalled and written: it could not where the connection
-- was gone, or where the context was done, as that of a redemption is after its timeout. Nothing is
-- tried again.
unfoldable pub send : Bool → Frame → Daemon → Daemon
send written f d =
    if written then record d { sent = d.sent ++ f ∷ [] } else record d { lost = d.lost ++ f ∷ [] }

module _ (error_body : Code → Bytes) where
  -- The frame of replyError.
  unfoldable pub error_frame : Bytes → Code → Frame
  unfolding set_body reply
  error_frame id code =
      set_body (error_body code) (reply frame_redeem_response id (http_status_for code))

  -- The signer's answer to the envelope: none where the call failed.
  unfoldable pub relayed : Bytes → Option (ℕ × Bytes) → Frame
  unfolding error_frame
  relayed id none = error_frame id internal
  relayed id (some (status, answer)) = set_body answer (reply frame_redeem_response id status)

  unfoldable pub relay : (Bytes → Option (ℕ × Bytes)) → Bytes → Option Bytes → Frame
  unfolding relayed
  relay signer id none = error_frame id bad_request
  relay signer id (some []) = error_frame id bad_request
  relay signer id (some (b ∷ bs)) = relayed id (signer (b ∷ bs))

  -- handleRedeem, up to the send.
  unfoldable pub handle_redeem : (Bytes → Option (ℕ × Bytes)) → Frame → Frame
  unfolding relay
  handle_redeem signer f = relay signer f.id (body f)

  -- `case d.inflight <- struct{}{}`, or its default.
  unfoldable pub start_redeem : Bool → Frame → Daemon → Daemon
  unfolding send error_frame
  start_redeem written f d =
      if ltb (length d.inflight) max_inflight_redeems
      then record d { inflight = d.inflight ++ f ∷ [] }
      else send written (error_frame f.id rate_limited) d

  -- A hello only logs, when its version is another.
  unfoldable pub dispatch : Bool → Frame → Daemon → Daemon
  unfolding start_redeem
  dispatch written f d =
      if eq_bytes f.kind frame_hello
      then d
      else if eq_bytes f.kind frame_ping
      then send written (reply frame_pong f.id 0) d
      else if eq_bytes f.kind frame_redeem_request
      then start_redeem written f d
      else d

  unfoldable pub handle_frame : Bool → Option Frame → Daemon → Daemon
  unfolding dispatch
  handle_frame written none d = d
  handle_frame written (some f) d = dispatch written f d

  -- The ids of the redemptions that a message asks for.
  unfoldable pub asks : Option Frame → List Bytes
  asks none = []
  asks (some f) =
      if eq_bytes f.kind frame_hello
      then []
      else if eq_bytes f.kind frame_ping
      then []
      else if eq_bytes f.kind frame_redeem_request
      then f.id ∷ []
      else []

  -- A daemon after the redemptions of these ids were asked for: a message comes in, or one of the
  -- goroutines of the redemptions in flight ends, in any order.
  pub data Reach : List Bytes → Daemon → Type 0 where
    start : Reach [] connected
    receiving :
        {asked : List Bytes} {d : Daemon}
        → Reach asked d
        → (written : Bool) (message : Option Frame)
        → Reach (asked ++ asks message) (handle_frame written message d)
    finishing :
        {asked : List Bytes} {sent lost : List Frame} (before : List Frame) (f : Frame)
        (after : List Frame)
        → Reach asked (record { inflight = before ++ f ∷ after; sent = sent; lost = lost })
        → (signer : Bytes → Option (ℕ × Bytes)) (written : Bool)
        → Reach asked (
            send written
              (handle_redeem signer f)
              (record { inflight = before ++ after; sent = sent; lost = lost }))
