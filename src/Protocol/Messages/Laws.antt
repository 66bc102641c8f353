-- ===== src/Protocol/Messages/Laws.antt =====
-- The bytes that a key signs or authenticates determine the message: its kind and every field.
use grantd.Base.{
  ℕ, ◌^◌, ◌<◌, ◌≡◌, List, map, Bytes, Result, ok, Int64, pos, pos_part, arith, All, length,
  eq_bytes, eq_bytes_iff,
}
use mathlib.Core.Bool.{false≢true}
use grantd.Canonical
use grantd.Canonical.{Field, Fits, string_field, u64_field, bytes_field, item, value}
use grantd.Canonical.RoundTrip.{encode-injective}
use grantd.Protocol.Messages.{
  Error, HostRegistration, HostConnect, Grant, RedemptionPayload, AgentRegistration,
  ctx_host_register, ctx_host_connect, ctx_grant, ctx_redemption_sig, ctx_redemption_mac,
  ctx_agent_register, host_registration_fields, host_connect_fields, grant_fields,
  redemption_fields, agent_registration_fields, u64, encode, fields, canonical_host_registration,
  canonical_host_connect, canonical_grant, canonical_sig, canonical_mac,
  canonical_agent_registration,
}

-- Everything that the protocol signs or authenticates.
pub data Message : Type 0 where
  host_register : HostRegistration → Message
  host_connect : HostConnect → Message
  grant : Grant → Message
  redemption_sig : RedemptionPayload → Message
  redemption_mac : RedemptionPayload → Message
  agent_register : AgentRegistration → Message

unfoldable pub canonical : Message → Result Error Bytes
canonical (host_register m) = canonical_host_registration m
canonical (host_connect m) = canonical_host_connect m
canonical (grant m) = canonical_grant m
canonical (redemption_sig m) = canonical_sig m
canonical (redemption_mac m) = canonical_mac m
canonical (agent_register m) = canonical_agent_registration m

context_of : Message → Bytes
context_of (host_register m) = ctx_host_register
context_of (host_connect m) = ctx_host_connect
context_of (grant m) = ctx_grant
context_of (redemption_sig m) = ctx_redemption_sig
context_of (redemption_mac m) = ctx_redemption_mac
context_of (agent_register m) = ctx_agent_register

abbrev pub fields_of : Message → List Field
fields_of (host_register m) = host_registration_fields m (pos_part m.timestamp)
fields_of (host_connect m) = host_connect_fields m (pos_part m.timestamp)
fields_of (grant m) = grant_fields m (pos_part m.created_at) (pos_part m.expires_at)
fields_of (redemption_sig m) = redemption_fields m (pos_part m.timestamp)
fields_of (redemption_mac m) = redemption_fields m (pos_part m.timestamp)
fields_of (agent_register m) = agent_registration_fields m (pos_part m.timestamp)

-- Each text and byte string of the message is shorter than 2^32.
abbrev pub MessageFits : Message → Type 0
MessageFits m = All Fits (fields_of m)

u64-pos : (t : Int64) (n : ℕ) → u64 t ≡ ok n → t ≡ pos n
unfolding u64
u64-pos t n h = ground arith

-- A time of a message that is encoded is not negative.
abbrev Times : Message → Type 0
Times (host_register m) = m.timestamp ≡ pos (pos_part m.timestamp)
Times (host_connect m) = m.timestamp ≡ pos (pos_part m.timestamp)
Times (grant m) =
    (m.created_at ≡ pos (pos_part m.created_at)) × (m.expires_at ≡ pos (pos_part m.expires_at))
Times (redemption_sig m) = m.timestamp ≡ pos (pos_part m.timestamp)
Times (redemption_mac m) = m.timestamp ≡ pos (pos_part m.timestamp)
Times (agent_register m) = m.timestamp ≡ pos (pos_part m.timestamp)

encode-ok :
    (context : Bytes) (fs : List Field) {b : Bytes}
    → encode context fs ≡ ok b
    → Canonical.encode context fs ≡ ok b
unfolding encode
encode-ok context fs h = ground arith

canonical-Times : (m : Message) {b : Bytes} → canonical m ≡ ok b → Times m
unfolding canonical canonical_host_registration canonical_host_connect canonical_grant canonical_sig
    canonical_mac canonical_agent_registration fields u64
canonical-Times (host_register m) h = ground arith
canonical-Times (host_connect m) h = ground arith
canonical-Times (grant m) h = ground arith
canonical-Times (redemption_sig m) h = ground arith
canonical-Times (redemption_mac m) h = ground arith
canonical-Times (agent_register m) h = ground arith

canonical-encode :
    (m : Message) {b : Bytes}
    → canonical m ≡ ok b
    → Canonical.encode (context_of m) (fields_of m) ≡ ok b
unfolding canonical canonical_host_registration canonical_host_connect canonical_grant canonical_sig
    canonical_mac canonical_agent_registration fields u64 context_of
canonical-encode (host_register m) h = encode-ok _ _ (ground arith)
canonical-encode (host_connect m) h = encode-ok _ _ (ground arith)
canonical-encode (grant m) h = encode-ok _ _ (ground arith)
canonical-encode (redemption_sig m) h = encode-ok _ _ (ground arith)
canonical-encode (redemption_mac m) h = encode-ok _ _ (ground arith)
canonical-encode (agent_register m) h = encode-ok _ _ (ground arith)

-- A field that was built by a constructor of the source is read off its item.
Same : Message → Message → Type 0
Same m m' = (context_of m ≡ context_of m') × (map item (fields_of m) ≡ map item (fields_of m'))

message-Same : (m m' : Message) → Times m → Times m' → Same m m' → m ≡ m'
unfolding context_of Same item eq_bytes value
message-Same (host_register m) (host_register m') t t' s = ground arith
message-Same (host_connect m) (host_connect m') t t' s = ground arith
message-Same (grant m) (grant m') t t' s = ground arith
message-Same (redemption_sig m) (redemption_sig m') t t' s = ground arith
message-Same (redemption_mac m) (redemption_mac m') t t' s = ground arith
message-Same (agent_register m) (agent_register m') t t' s = ground arith
message-Same m m' t t' s = absurd (false≢true ((eq_bytes_iff (context_of m) (context_of m')).1 s.0))

context-short : (m : Message) → length (context_of m) < 2 ^ 32
unfolding context_of
context-short (host_register m) = omega arith
context-short _ = omega arith

fields-short : (m : Message) → length (fields_of m) < 2 ^ 32
fields-short (host_register m) = omega arith
fields-short _ = omega arith

-- Two messages whose texts and byte strings are shorter than 2^32 and whose canonical bytes are the
-- same are the same message: of the same kind, and equal in every field.
pub canonical-injective :
    (m m' : Message) (b : Bytes)
    → MessageFits m
    → MessageFits m'
    → canonical m ≡ ok b
    → canonical m' ≡ ok b
    → m ≡ m'
canonical-injective m m' b f f' h h' =
    message-Same m m' (canonical-Times m h) (canonical-Times m' h') (
      unfold Same in
      encode-injective (context_of m) (context_of m') (fields_of m) (fields_of m') b
        (context-short m) (fields-short m) f (context-short m') (fields-short m') f'
        (canonical-encode m h) (canonical-encode m' h'))
