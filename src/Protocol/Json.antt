-- ===== src/Protocol/Json.antt =====
-- go/internal/protocol/messages.go: the JSON of the messages. encoding/json is a parameter: for each
-- shadow struct, what it makes of a value, and what it reads from a body, none for an error. `W` is
-- the type of JSON texts.
pub mod Envelopes
pub mod RoundTrip
pub mod ErrorBody
use grantd.Base.{ℕ, Option, none, some, Bytes, Int64, Result, ok, err, codes, ◌>>=◌}
use grantd.Std.Base64.{url_alphabet, encode_raw, decode_raw}
use grantd.Protocol.Messages.{HostRegistration, HostConnect, RedemptionPayload, AgentRegistration}

pub data Error : Type 0 where
  malformed : Error
  not_base64 : Bytes → Error

pub record Codec (W J : Type 0) : Type 0 where
  pub marshal : J → W
  pub unmarshal : W → Option J

unfoldable pub b64enc : Bytes → Bytes
b64enc b = encode_raw url_alphabet b

unfoldable pub of_base64 : Bytes → Option Bytes → Result Error Bytes
of_base64 field none = err (not_base64 field)
of_base64 field (some raw) = ok raw

unfoldable pub b64dec : Bytes → Bytes → Result Error Bytes
unfolding of_base64
b64dec field s = of_base64 field (decode_raw url_alphabet s)

unfoldable pub parsed : {J : Type 0} → Option J → Result Error J
parsed none = err malformed
parsed (some j) = ok j

pub record HostRegistrationJson : Type 0 where
  pub version : ℕ
  pub host_id : Bytes
  pub identity_public_key : Bytes
  pub ssh_ca_public_key : Bytes
  pub ssh_host_public_key : Bytes
  pub hostname : Bytes
  pub ssh_port : ℕ
  pub ssh_user : Bytes
  pub timestamp : Int64
  pub nonce : Bytes

unfoldable pub host_registration_json : HostRegistration → HostRegistrationJson
unfolding b64enc
host_registration_json m = record {
  version = m.version;
  host_id = m.host_id;
  identity_public_key = b64enc m.identity_public_key;
  ssh_ca_public_key = m.ssh_ca_public_key;
  ssh_host_public_key = m.ssh_host_public_key;
  hostname = m.hostname;
  ssh_port = m.ssh_port;
  ssh_user = m.ssh_user;
  timestamp = m.timestamp;
  nonce = b64enc m.nonce;
}

unfoldable pub marshal_host_registration :
    {W : Type 0} → Codec W HostRegistrationJson → HostRegistration → W
unfolding host_registration_json
marshal_host_registration json m = json.marshal (host_registration_json m)

unfoldable pub unmarshal_host_registration :
    {W : Type 0} → Codec W HostRegistrationJson → W → Result Error HostRegistration
unfolding b64dec parsed
unmarshal_host_registration json body = do
  j ← parsed (json.unmarshal body)
  pk ← b64dec (codes "identity_public_key") j.identity_public_key
  nonce ← b64dec (codes "nonce") j.nonce
  ok (record {
    version = j.version;
    host_id = j.host_id;
    identity_public_key = pk;
    ssh_ca_public_key = j.ssh_ca_public_key;
    ssh_host_public_key = j.ssh_host_public_key;
    hostname = j.hostname;
    ssh_port = j.ssh_port;
    ssh_user = j.ssh_user;
    timestamp = j.timestamp;
    nonce = nonce;
  })

pub record HostConnectJson : Type 0 where
  pub version : ℕ
  pub host_id : Bytes
  pub path : Bytes
  pub timestamp : Int64
  pub nonce : Bytes

unfoldable pub host_connect_json : HostConnect → HostConnectJson
unfolding b64enc
host_connect_json m = record {
  version = m.version;
  host_id = m.host_id;
  path = m.path;
  timestamp = m.timestamp;
  nonce = b64enc m.nonce;
}

unfoldable pub marshal_host_connect : {W : Type 0} → Codec W HostConnectJson → HostConnect → W
unfolding host_connect_json
marshal_host_connect json m = json.marshal (host_connect_json m)

unfoldable pub unmarshal_host_connect :
    {W : Type 0} → Codec W HostConnectJson → W → Result Error HostConnect
unfolding b64dec parsed
unmarshal_host_connect json body = do
  j ← parsed (json.unmarshal body)
  nonce ← b64dec (codes "nonce") j.nonce
  ok (record {
    version = j.version;
    host_id = j.host_id;
    path = j.path;
    timestamp = j.timestamp;
    nonce = nonce;
  })

pub record RedemptionPayloadJson : Type 0 where
  pub version : ℕ
  pub host_id : Bytes
  pub grant_id : Bytes
  pub agent_id : Bytes
  pub agent_public_key : Bytes
  pub ssh_public_key : Bytes
  pub timestamp : Int64
  pub nonce : Bytes

unfoldable pub redemption_payload_json : RedemptionPayload → RedemptionPayloadJson
unfolding b64enc
redemption_payload_json m = record {
  version = m.version;
  host_id = m.host_id;
  grant_id = m.grant_id;
  agent_id = m.agent_id;
  agent_public_key = b64enc m.agent_public_key;
  ssh_public_key = m.ssh_public_key;
  timestamp = m.timestamp;
  nonce = b64enc m.nonce;
}

unfoldable pub marshal_redemption_payload :
    {W : Type 0} → Codec W RedemptionPayloadJson → RedemptionPayload → W
unfolding redemption_payload_json
marshal_redemption_payload json m = json.marshal (redemption_payload_json m)

unfoldable pub unmarshal_redemption_payload :
    {W : Type 0} → Codec W RedemptionPayloadJson → W → Result Error RedemptionPayload
unfolding b64dec parsed
unmarshal_redemption_payload json body = do
  j ← parsed (json.unmarshal body)
  pk ← b64dec (codes "agent_public_key") j.agent_public_key
  nonce ← b64dec (codes "nonce") j.nonce
  ok (record {
    version = j.version;
    host_id = j.host_id;
    grant_id = j.grant_id;
    agent_id = j.agent_id;
    agent_public_key = pk;
    ssh_public_key = j.ssh_public_key;
    timestamp = j.timestamp;
    nonce = nonce;
  })

pub record AgentRegistrationJson : Type 0 where
  pub version : ℕ
  pub agent_id : Bytes
  pub public_key : Bytes
  pub challenge_id : Bytes
  pub pow_nonce : Bytes
  pub timestamp : Int64

unfoldable pub agent_registration_json : AgentRegistration → AgentRegistrationJson
unfolding b64enc
agent_registration_json m = record {
  version = m.version;
  agent_id = m.agent_id;
  public_key = b64enc m.public_key;
  challenge_id = m.challenge_id;
  pow_nonce = m.pow_nonce;
  timestamp = m.timestamp;
}

unfoldable pub marshal_agent_registration :
    {W : Type 0} → Codec W AgentRegistrationJson → AgentRegistration → W
unfolding agent_registration_json
marshal_agent_registration json m = json.marshal (agent_registration_json m)

unfoldable pub unmarshal_agent_registration :
    {W : Type 0} → Codec W AgentRegistrationJson → W → Result Error AgentRegistration
unfolding b64dec parsed
unmarshal_agent_registration json body = do
  j ← parsed (json.unmarshal body)
  pk ← b64dec (codes "public_key") j.public_key
  ok (record {
    version = j.version;
    agent_id = j.agent_id;
    public_key = pk;
    challenge_id = j.challenge_id;
    pow_nonce = j.pow_nonce;
    timestamp = j.timestamp;
  })
