-- ===== src/Daemon/Tests.antt =====
-- The daemon with one redemption.
mod Session
mod Retry
use grantd.Base.{ℕ, ◌≡◌, ◌≢◌, refl, true, Option, some, [], ◌∷◌, Bytes, codes, arith, pos}
use grantd.Protocol.Errors.{Code}
use grantd.Protocol.Envelopes.{GrantPublishRequest}
use grantd.Protocol.Frames.{Frame, frame_redeem_request, set_body, body}
use grantd.Daemon.Rendezvous.{connected, handle_redeem, handle_frame, asks, Reach, start, receiving}
use grantd.Daemon.Rendezvous.Accounts.{Accounted, Reach-Accounted}
use grantd.Daemon.Publishing.{publish_pass}
use grantd.Daemon.Publishing.Laws.{publish_pass-eq}

abbrev error_text : Code → Bytes
error_text code = codes "{}"

abbrev asking : Frame
asking = record {
  kind = frame_redeem_request;
  id = codes "r1";
  protocol_version = 0;
  status = 0;
  body_b64 = codes "e30";
}

abbrev asked :
    Reach error_text
      (asks error_text (some asking))
      (handle_frame error_text true (some asking) connected)
asked = receiving start true (some asking)

Reach-Accounted_example :
    Accounted error_text
      (asks error_text (some asking))
      (handle_frame error_text true (some asking) connected)
Reach-Accounted_example = Reach-Accounted error_text asked

abbrev published : GrantPublishRequest
published = record {
  grant = record {
    version = 1;
    host_id = codes "h_x";
    grant_id = codes "g_x";
    ssh_user = codes "visitor";
    created_at = pos 0;
    expires_at = pos 60;
  };
  signature = [];
}

abbrev service : Bytes → GrantPublishRequest → Option ℕ
service url p = some 409

publish_pass-eq_example :
    publish_pass service (codes "https://x") (codes "h_x") (published ∷ []) ≡ []
publish_pass-eq_example = publish_pass-eq service (codes "https://x") (codes "h_x") (published ∷ [])
