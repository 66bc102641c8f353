-- ===== src/Protocol/Errors.antt =====
-- go/internal/protocol/errors.go: the codes that clients branch on, and their HTTP statuses.
use grantd.Base.{ℕ, Bytes, codes}

pub data Code : Type 0 where
  bad_request unsupported_version id_mismatch bad_signature stale_timestamp replayed_nonce : Code
  host_not_found grant_not_found agent_not_found challenge_not_found challenge_consumed : Code
  bad_answer host_offline host_timeout grant_expired grant_revoked already_redeemed : Code
  bad_proof rate_limited too_many_grants internal : Code

unfoldable pub http_status_for : Code → ℕ
http_status_for bad_request = 400
http_status_for unsupported_version = 400
http_status_for id_mismatch = 400
http_status_for bad_signature = 401
http_status_for stale_timestamp = 401
http_status_for replayed_nonce = 401
http_status_for bad_answer = 401
http_status_for bad_proof = 401
http_status_for host_not_found = 404
http_status_for grant_not_found = 404
http_status_for agent_not_found = 404
http_status_for challenge_not_found = 404
http_status_for challenge_consumed = 409
http_status_for already_redeemed = 409
http_status_for grant_expired = 410
http_status_for grant_revoked = 410
http_status_for rate_limited = 429
http_status_for too_many_grants = 429
http_status_for host_offline = 503
http_status_for host_timeout = 504
http_status_for internal = 500

-- The code on the wire.
unfoldable pub code_text : Code → Bytes
code_text bad_request = codes "BAD_REQUEST"
code_text unsupported_version = codes "UNSUPPORTED_VERSION"
code_text id_mismatch = codes "ID_MISMATCH"
code_text bad_signature = codes "BAD_SIGNATURE"
code_text stale_timestamp = codes "STALE_TIMESTAMP"
code_text replayed_nonce = codes "REPLAYED_NONCE"
code_text host_not_found = codes "HOST_NOT_FOUND"
code_text grant_not_found = codes "GRANT_NOT_FOUND"
code_text agent_not_found = codes "AGENT_NOT_FOUND"
code_text challenge_not_found = codes "CHALLENGE_NOT_FOUND"
code_text challenge_consumed = codes "CHALLENGE_CONSUMED"
code_text bad_answer = codes "BAD_ANSWER"
code_text host_offline = codes "HOST_OFFLINE"
code_text host_timeout = codes "HOST_TIMEOUT"
code_text grant_expired = codes "GRANT_EXPIRED"
code_text grant_revoked = codes "GRANT_REVOKED"
code_text already_redeemed = codes "GRANT_ALREADY_REDEEMED"
code_text bad_proof = codes "BAD_PROOF"
code_text rate_limited = codes "RATE_LIMITED"
code_text too_many_grants = codes "TOO_MANY_GRANTS"
code_text internal = codes "INTERNAL"
