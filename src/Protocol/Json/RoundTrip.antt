-- ===== src/Protocol/Json/RoundTrip.antt =====
-- What one party writes as JSON, the other reads.
use grantd.Base.{◌≡◌, refl, true, some, Bytes, ok, codes, All}
use grantd.Std.Base32.{IsByte}
use grantd.Std.Base64.RoundTrip.{decode_raw-encode_raw}
use grantd.Std.Utf8.{valid_string}
use grantd.Protocol.Messages.{HostRegistration, RedemptionPayload}
use grantd.Protocol.Envelopes.{RedemptionRequest, HostPublicRecord}
use grantd.Protocol.Json.{
  Codec, b64enc, b64dec, of_base64, parsed, HostRegistrationJson, host_registration_json,
  marshal_host_registration, unmarshal_host_registration, RedemptionPayloadJson,
  redemption_payload_json, marshal_redemption_payload, unmarshal_redemption_payload,
}
use grantd.Protocol.Json.Envelopes.{
  RedemptionRequestJson, redemption_request_json, marshal_redemption_request,
  unmarshal_redemption_request, HostPublicRecordJson, host_public_record_json,
  marshal_host_public_record, unmarshal_host_public_record,
}

b64dec-b64enc : (field bs : Bytes) → All IsByte bs → b64dec field (b64enc bs) ≡ ok bs
unfolding b64dec b64enc of_base64
b64dec-b64enc field bs h = rw (decode_raw-encode_raw bs h) refl

-- What encoding/json promises of a value: it reads back what it wrote.
abbrev pub Restores : {W J : Type 0} → Codec W J → J → Type 0
Restores json j = json.unmarshal (json.marshal j) ≡ some j

-- It does so for texts that are UTF-8; in others it replaces the bytes that are not.
abbrev pub Plain : Bytes → Type 0
Plain s = valid_string s ≡ true

pub record PlainPayload (m : RedemptionPayload) : Type 0 where
  pub host_id : Plain m.host_id
  pub grant_id : Plain m.grant_id
  pub agent_id : Plain m.agent_id
  pub ssh_public_key : Plain m.ssh_public_key

pub record PlainRegistration (m : HostRegistration) : Type 0 where
  pub host_id : Plain m.host_id
  pub ssh_ca_public_key : Plain m.ssh_ca_public_key
  pub ssh_host_public_key : Plain m.ssh_host_public_key
  pub hostname : Plain m.hostname
  pub ssh_user : Plain m.ssh_user

module _ {W : Type 0} where
  unmarshal-marshal_redemption_payload :
      (json : Codec W RedemptionPayloadJson) (m : RedemptionPayload)
      → Restores json (redemption_payload_json m)
      → All IsByte m.agent_public_key
      → All IsByte m.nonce
      → unmarshal_redemption_payload json (marshal_redemption_payload json m) ≡ ok m
  unfolding unmarshal_redemption_payload marshal_redemption_payload parsed redemption_payload_json
  unmarshal-marshal_redemption_payload json m r k n = rw r (
      rw (b64dec-b64enc (codes "agent_public_key") m.agent_public_key k)
        (rw (b64dec-b64enc (codes "nonce") m.nonce n) refl))

  unmarshal-marshal_host_registration :
      (json : Codec W HostRegistrationJson) (m : HostRegistration)
      → Restores json (host_registration_json m)
      → All IsByte m.identity_public_key
      → All IsByte m.nonce
      → unmarshal_host_registration json (marshal_host_registration json m) ≡ ok m
  unfolding unmarshal_host_registration marshal_host_registration parsed host_registration_json
  unmarshal-marshal_host_registration json m r k n = rw r (
      rw (b64dec-b64enc (codes "identity_public_key") m.identity_public_key k)
        (rw (b64dec-b64enc (codes "nonce") m.nonce n) refl))

  -- The redemption request that the visitor writes as JSON is the one that the signer reads, if
  -- encoding/json reads back what it wrote for payloads of UTF-8 texts and for envelopes, the texts of
  -- the payload are UTF-8 and its binary fields are bytes.
  pub unmarshal-marshal_redemption_request :
      (inner : Codec W RedemptionPayloadJson) (json : Codec W (RedemptionRequestJson W))
      (r : RedemptionRequest)
      → ((m : RedemptionPayload) → PlainPayload m → Restores inner (redemption_payload_json m))
      → ((q : RedemptionRequest) → Restores json (redemption_request_json inner q))
      → PlainPayload r.payload
      → All IsByte r.payload.agent_public_key
      → All IsByte r.payload.nonce
      → All IsByte r.agent_signature
      → All IsByte r.proof
      → unmarshal_redemption_request inner json (marshal_redemption_request inner json r) ≡ ok r
  unfolding unmarshal_redemption_request marshal_redemption_request parsed redemption_request_json
  unmarshal-marshal_redemption_request inner json r h g p k n s f = rw (g r) (
      rw (unmarshal-marshal_redemption_payload inner r.payload (h r.payload p) k n) (
        rw (b64dec-b64enc (codes "agent_signature") r.agent_signature s)
          (rw (b64dec-b64enc (codes "proof") r.proof f) refl)))

  -- The host's record that the service serves as JSON is the one that the visitor reads, under the same
  -- conditions on encoding/json, on the texts of the registration and on the binary fields.
  pub unmarshal-marshal_host_public_record :
      (inner : Codec W HostRegistrationJson) (json : Codec W (HostPublicRecordJson W))
      (r : HostPublicRecord)
      → ((m : HostRegistration) → PlainRegistration m → Restores inner (host_registration_json m))
      → Restores json (host_public_record_json inner r)
      → PlainRegistration r.registration
      → All IsByte r.registration.identity_public_key
      → All IsByte r.registration.nonce
      → All IsByte r.signature
      → unmarshal_host_public_record inner json (marshal_host_public_record inner json r) ≡ ok r
  unfolding unmarshal_host_public_record marshal_host_public_record parsed host_public_record_json
  unmarshal-marshal_host_public_record inner json r h g p k n s = rw g (
      rw (unmarshal-marshal_host_registration inner r.registration (h r.registration p) k n)
        (rw (b64dec-b64enc (codes "signature") r.signature s) refl))
