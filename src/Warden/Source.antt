-- ===== src/Warden/Source.antt =====
-- go/warden/signer.go: how the warden reads the signer's answers. What the HTTP client received is an
-- argument, none where the request failed; what encoding/json reads from a body is part of it.
pub mod Accepts
use grantd.Base.{
  ℕ, Bool, true, false, not, Option, none, some, [], Bytes, ◌==◌, eq_bytes, if◌then◌else◌,
}
use grantd.Protocol.Errors.{grant_not_found, http_status_for, code_text}
use grantd.Signer.Lifetime.{Reply, answered, failed, LifetimeGrant}
use grantd.Warden.State.{GrantInfo, Answer, unknown, unreachable, known}

pub record Received : Type 0 where
  pub status : ℕ
  pub error_code : Bytes
  pub grant : Option GrantInfo

-- `g.ID != id`
unfoldable pub named : Bytes → Option GrantInfo → Answer
named id none = unreachable
named id (some g) = if eq_bytes g.id id then known g else unreachable

-- SignerClient.Grant
unfoldable pub grant_answer : Bytes → Option Received → Answer
unfolding named
grant_answer id none = unreachable
grant_answer id (some r) =
    if r.status == 404
    then unknown
    else if not (r.status == 200)
    then (if eq_bytes r.error_code (code_text grant_not_found) then unknown else unreachable)
    else named id r.grant

-- SignerClient.Ping
unfoldable pub ping_answer : Option Received → Bool
ping_answer none = false
ping_answer (some r) = r.status == 200

-- The signer's reply as it arrives: encoding/json on both sides is `encode` and `decode`.
module _ {B : Type 0} (encode : LifetimeGrant → B) (decode : B → Option GrantInfo) where
  unfoldable pub received : Reply LifetimeGrant → Received
  received (answered status g) = record {
    status = status;
    error_code = [];
    grant = decode (encode g);
  }
  received (failed code) = record {
    status = http_status_for code;
    error_code = code_text code;
    grant = none;
  }
