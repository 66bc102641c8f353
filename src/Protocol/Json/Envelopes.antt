-- ===== src/Protocol/Json/Envelopes.antt =====
-- go/internal/protocol/envelopes.go: the JSON of the envelopes. A shadow struct holds the message's own
-- JSON, which encoding/json takes from its MarshalJSON and gives to its UnmarshalJSON. A grant has
-- the JSON of its fields.
use grantd.Base.{Bool, Bytes, Result, ok, codes, ◌>>=◌}
use grantd.Protocol.Messages.{Grant}
use grantd.Protocol.Envelopes.{
  HostRegisterRequest, GrantPublishRequest, RedemptionRequest, HostPublicRecord,
  AgentRegisterRequest,
}
use grantd.Protocol.Json.{
  Error, Codec, b64enc, b64dec, parsed, HostRegistrationJson, marshal_host_registration,
  unmarshal_host_registration, RedemptionPayloadJson, marshal_redemption_payload,
  unmarshal_redemption_payload, AgentRegistrationJson, marshal_agent_registration,
  unmarshal_agent_registration,
}

pub record HostRegisterRequestJson (W : Type 0) : Type 0 where
  pub registration : W
  pub signature : Bytes

unfoldable pub host_register_request_json :
    {W : Type 0} → Codec W HostRegistrationJson → HostRegisterRequest → HostRegisterRequestJson W
unfolding b64enc marshal_host_registration
host_register_request_json inner r = record {
  registration = marshal_host_registration inner r.registration;
  signature = b64enc r.signature;
}

unfoldable pub marshal_host_register_request :
    {W : Type 0}
    → Codec W HostRegistrationJson
    → Codec W (HostRegisterRequestJson W)
    → HostRegisterRequest
    → W
unfolding host_register_request_json
marshal_host_register_request inner json r = json.marshal (host_register_request_json inner r)

unfoldable pub unmarshal_host_register_request :
    {W : Type 0}
    → Codec W HostRegistrationJson
    → Codec W (HostRegisterRequestJson W)
    → W
    → Result Error HostRegisterRequest
unfolding b64dec parsed unmarshal_host_registration
unmarshal_host_register_request inner json body = do
  j ← parsed (json.unmarshal body)
  registration ← unmarshal_host_registration inner j.registration
  signature ← b64dec (codes "signature") j.signature
  ok (record { registration = registration; signature = signature })

pub record GrantPublishRequestJson (W : Type 0) : Type 0 where
  pub grant : W
  pub signature : Bytes

unfoldable pub grant_publish_request_json :
    {W : Type 0} → Codec W Grant → GrantPublishRequest → GrantPublishRequestJson W
unfolding b64enc
grant_publish_request_json inner r = record {
  grant = inner.marshal r.grant;
  signature = b64enc r.signature;
}

unfoldable pub marshal_grant_publish_request :
    {W : Type 0} → Codec W Grant → Codec W (GrantPublishRequestJson W) → GrantPublishRequest → W
unfolding grant_publish_request_json
marshal_grant_publish_request inner json r = json.marshal (grant_publish_request_json inner r)

unfoldable pub unmarshal_grant_publish_request :
    {W : Type 0}
    → Codec W Grant
    → Codec W (GrantPublishRequestJson W)
    → W
    → Result Error GrantPublishRequest
unfolding b64dec parsed
unmarshal_grant_publish_request inner json body = do
  j ← parsed (json.unmarshal body)
  grant ← parsed (inner.unmarshal j.grant)
  signature ← b64dec (codes "signature") j.signature
  ok (record { grant = grant; signature = signature })

pub record RedemptionRequestJson (W : Type 0) : Type 0 where
  pub payload : W
  pub agent_signature : Bytes
  pub proof : Bytes

unfoldable pub redemption_request_json :
    {W : Type 0} → Codec W RedemptionPayloadJson → RedemptionRequest → RedemptionRequestJson W
unfolding b64enc marshal_redemption_payload
redemption_request_json inner r = record {
  payload = marshal_redemption_payload inner r.payload;
  agent_signature = b64enc r.agent_signature;
  proof = b64enc r.proof;
}

unfoldable pub marshal_redemption_request :
    {W : Type 0}
    → Codec W RedemptionPayloadJson
    → Codec W (RedemptionRequestJson W)
    → RedemptionRequest
    → W
unfolding redemption_request_json
marshal_redemption_request inner json r = json.marshal (redemption_request_json inner r)

unfoldable pub unmarshal_redemption_request :
    {W : Type 0}
    → Codec W RedemptionPayloadJson
    → Codec W (RedemptionRequestJson W)
    → W
    → Result Error RedemptionRequest
unfolding b64dec parsed unmarshal_redemption_payload
unmarshal_redemption_request inner json body = do
  j ← parsed (json.unmarshal body)
  payload ← unmarshal_redemption_payload inner j.payload
  agent_signature ← b64dec (codes "agent_signature") j.agent_signature
  proof ← b64dec (codes "proof") j.proof
  ok (record { payload = payload; agent_signature = agent_signature; proof = proof })

pub record HostPublicRecordJson (W : Type 0) : Type 0 where
  pub registration : W
  pub host_id : Bytes
  pub signature : Bytes
  pub connected : Bool

unfoldable pub host_public_record_json :
    {W : Type 0} → Codec W HostRegistrationJson → HostPublicRecord → HostPublicRecordJson W
unfolding b64enc marshal_host_registration
host_public_record_json inner r = record {
  registration = marshal_host_registration inner r.registration;
  host_id = r.host_id;
  signature = b64enc r.signature;
  connected = r.connected;
}

unfoldable pub marshal_host_public_record :
    {W : Type 0}
    → Codec W HostRegistrationJson
    → Codec W (HostPublicRecordJson W)
    → HostPublicRecord
    → W
unfolding host_public_record_json
marshal_host_public_record inner json r = json.marshal (host_public_record_json inner r)

unfoldable pub unmarshal_host_public_record :
    {W : Type 0}
    → Codec W HostRegistrationJson
    → Codec W (HostPublicRecordJson W)
    → W
    → Result Error HostPublicRecord
unfolding b64dec parsed unmarshal_host_registration
unmarshal_host_public_record inner json body = do
  j ← parsed (json.unmarshal body)
  registration ← unmarshal_host_registration inner j.registration
  signature ← b64dec (codes "signature") j.signature
  ok (record {
    registration = registration;
    host_id = j.host_id;
    signature = signature;
    connected = j.connected;
  })

pub record AgentRegisterRequestJson (W : Type 0) : Type 0 where
  pub registration : W
  pub signature : Bytes

unfoldable pub agent_register_request_json :
    {W : Type 0} → Codec W AgentRegistrationJson → AgentRegisterRequest → AgentRegisterRequestJson W
unfolding b64enc marshal_agent_registration
agent_register_request_json inner r = record {
  registration = marshal_agent_registration inner r.registration;
  signature = b64enc r.signature;
}

unfoldable pub marshal_agent_register_request :
    {W : Type 0}
    → Codec W AgentRegistrationJson
    → Codec W (AgentRegisterRequestJson W)
    → AgentRegisterRequest
    → W
unfolding agent_register_request_json
marshal_agent_register_request inner json r = json.marshal (agent_register_request_json inner r)

unfoldable pub unmarshal_agent_register_request :
    {W : Type 0}
    → Codec W AgentRegistrationJson
    → Codec W (AgentRegisterRequestJson W)
    → W
    → Result Error AgentRegisterRequest
unfolding b64dec parsed unmarshal_agent_registration
unmarshal_agent_register_request inner json body = do
  j ← parsed (json.unmarshal body)
  registration ← unmarshal_agent_registration inner j.registration
  signature ← b64dec (codes "signature") j.signature
  ok (record { registration = registration; signature = signature })
