-- ===== src/Protocol/Tests/Wire.antt =====
-- The messages on the wire, with a tree in the place of a JSON text.
use grantd.Base.{◌≡◌, refl, Option, none, some, [], ◌∷◌, Bytes, ok, pos, codes, arith}
use grantd.Std.Utf8.{valid_string}
use grantd.Protocol.Messages.{RedemptionPayload}
use grantd.Protocol.Envelopes.{RedemptionRequest}
use grantd.Protocol.Json.{Codec, RedemptionPayloadJson}
use grantd.Protocol.Json.Envelopes.{
  RedemptionRequestJson, marshal_redemption_request, unmarshal_redemption_request,
}
use grantd.Protocol.Json.RoundTrip.{PlainPayload, unmarshal-marshal_redemption_request}

data Tree : Type 0 where
  payload_tree : RedemptionPayloadJson → Tree
  request_tree : Tree → Bytes → Bytes → Tree

abbrev read_payload : Tree → Option RedemptionPayloadJson
read_payload (payload_tree j) = some j
read_payload _ = none

abbrev read_request : Tree → Option (RedemptionRequestJson Tree)
read_request (request_tree p s q) = some (record { payload = p; agent_signature = s; proof = q })
read_request _ = none

abbrev payload_codec : Codec Tree RedemptionPayloadJson
payload_codec = record { marshal = payload_tree; unmarshal = read_payload }

abbrev request_codec : Codec Tree (RedemptionRequestJson Tree)
request_codec = record {
  marshal = λ j. request_tree j.payload j.agent_signature j.proof;
  unmarshal = read_request;
}

abbrev wire_payload : RedemptionPayload
wire_payload = record {
  version = 1;
  host_id = codes "h_x";
  grant_id = codes "g_x";
  agent_id = codes "a_x";
  agent_public_key = 1 ∷ 250 ∷ [];
  ssh_public_key = codes "ssh-ed25519 AAAA";
  timestamp = pos 1000;
  nonce = 7 ∷ [];
}

abbrev wire_request : RedemptionRequest
wire_request = record { payload = wire_payload; agent_signature = 2 ∷ 3 ∷ []; proof = 4 ∷ [] }

wire_payload-PlainPayload : PlainPayload wire_payload
unfolding valid_string
wire_payload-PlainPayload = record {
  host_id = refl;
  grant_id = refl;
  agent_id = refl;
  ssh_public_key = refl;
}

unmarshal-marshal_redemption_request_example :
    unmarshal_redemption_request payload_codec request_codec
      (marshal_redemption_request payload_codec request_codec wire_request)
    ≡ ok wire_request
unmarshal-marshal_redemption_request_example =
    unmarshal-marshal_redemption_request payload_codec request_codec wire_request (λ m p. refl)
      (λ q. refl) wire_payload-PlainPayload (omega arith) (omega arith) (omega arith) (omega arith)
