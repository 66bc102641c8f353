-- ===== src/Protocol/Envelopes.antt =====
-- go/internal/protocol/envelopes.go: the envelopes as Go values. Their JSON is in Json.
use grantd.Base.{ℕ, Bool, Bytes, Int64}
use grantd.Protocol.Messages.{HostRegistration, Grant, RedemptionPayload, AgentRegistration}

pub record HostRegisterRequest : Type 0 where
  pub registration : HostRegistration
  pub signature : Bytes

pub record GrantPublishRequest : Type 0 where
  pub grant : Grant
  pub signature : Bytes

pub record RedemptionRequest : Type 0 where
  pub payload : RedemptionPayload
  pub agent_signature : Bytes
  pub proof : Bytes

pub record RedemptionResponse : Type 0 where
  pub hostname : Bytes
  pub port : ℕ
  pub user : Bytes
  pub certificate : Bytes
  pub serial : ℕ
  pub key_id : Bytes
  pub valid_before : Int64
  pub valid_before_str : Bytes

-- What the coordination service serves of a host.
pub record HostPublicRecord : Type 0 where
  pub host_id : Bytes
  pub registration : HostRegistration
  pub signature : Bytes
  pub connected : Bool

pub record AgentRegisterRequest : Type 0 where
  pub registration : AgentRegistration
  pub signature : Bytes

pub record PowSpec : Type 0 where
  pub prefix : Bytes
  pub difficulty_bits : Int64

pub record Challenge : Type 0 where
  pub challenge_id : Bytes
  pub version : ℕ
  pub expires_at : Int64
  pub pow : PowSpec

-- The error that every service answers with.
pub record ApiError : Type 0 where
  pub code : Bytes
  pub message : Bytes
