-- ===== src/Protocol/Messages.antt =====
-- go/internal/protocol/messages.go: the signed messages, their canonical bytes, and the two proofs
-- that cover a redemption. A method that reads its receiver takes the record.
pub mod Laws
use grantd.Base.{
  ℕ, Bool, true, false, not, ◌&&◌, ◌||◌, List, [], ◌∷◌, ◌++◌, Bytes, Result, ok, err, Int64, pos,
  negsuc, codes, length, ◌==◌, eq_bytes, if◌then◌else◌, ◌>>=◌,
}
use grantd.Canonical
use grantd.Canonical.{Field, string_field, u64_field, bytes_field}
use grantd.Crypto.{Crypto}
use grantd.Protocol.Ids.{public_key_size, signature_size}

pub data Error : Type 0 where
  bad_timestamp : Error
  encoding : Canonical.Error → Error

abbrev pub ctx_host_register : Bytes
ctx_host_register = codes "grantd/v1/host-register"

abbrev pub ctx_host_connect : Bytes
ctx_host_connect = codes "grantd/v1/host-connect"

abbrev pub ctx_grant : Bytes
ctx_grant = codes "grantd/v1/grant"

abbrev pub ctx_redemption_sig : Bytes
ctx_redemption_sig = codes "grantd/v1/redemption-agent-sig"

abbrev pub ctx_redemption_mac : Bytes
ctx_redemption_mac = codes "grantd/v1/redemption-proof"

abbrev pub ctx_agent_register : Bytes
ctx_agent_register = codes "grantd/v1/agent-register"

unfoldable pub u64 : Int64 → Result Error ℕ
u64 (pos n) = ok n
u64 (negsuc n) = err bad_timestamp

-- The error of canonical.Encode, returned as it is.
unfoldable pub wrap_encoding : {A : Type 0} → Result Canonical.Error A → Result Error A
wrap_encoding (ok a) = ok a
wrap_encoding (err e) = err (encoding e)

unfoldable pub encode : Bytes → List Field → Result Error Bytes
unfolding wrap_encoding
encode context fs = wrap_encoding (Canonical.encode context fs)

pub record HostRegistration : Type 0 where
  pub version : ℕ
  pub host_id : Bytes
  pub identity_public_key : Bytes
  pub ssh_ca_public_key : Bytes
  pub ssh_host_public_key : Bytes
  pub hostname : Bytes
  pub ssh_port : ℕ
  pub ssh_user : Bytes
  pub timestamp : Int64
  pub nonce : Bytes

abbrev pub host_registration_fields : HostRegistration → ℕ → List Field
host_registration_fields m ts =
    u64_field (codes "version") m.version
    ∷ string_field (codes "host_id") m.host_id
    ∷ bytes_field (codes "identity_public_key") m.identity_public_key
    ∷ string_field (codes "ssh_ca_public_key") m.ssh_ca_public_key
    ∷ string_field (codes "ssh_host_public_key") m.ssh_host_public_key
    ∷ string_field (codes "hostname") m.hostname
    ∷ u64_field (codes "ssh_port") m.ssh_port
    ∷ string_field (codes "ssh_user") m.ssh_user
    ∷ u64_field (codes "timestamp") ts
    ∷ bytes_field (codes "nonce") m.nonce
    ∷ []

unfoldable pub canonical_host_registration : HostRegistration → Result Error Bytes
canonical_host_registration m = do
  ts ← u64 m.timestamp
  encode ctx_host_register (host_registration_fields m ts)

pub record HostConnect : Type 0 where
  pub version : ℕ
  pub host_id : Bytes
  pub path : Bytes
  pub timestamp : Int64
  pub nonce : Bytes

abbrev pub host_connect_fields : HostConnect → ℕ → List Field
host_connect_fields m ts =
    u64_field (codes "version") m.version
    ∷ string_field (codes "host_id") m.host_id
    ∷ string_field (codes "path") m.path
    ∷ u64_field (codes "timestamp") ts
    ∷ bytes_field (codes "nonce") m.nonce
    ∷ []

unfoldable pub canonical_host_connect : HostConnect → Result Error Bytes
canonical_host_connect m = do
  ts ← u64 m.timestamp
  encode ctx_host_connect (host_connect_fields m ts)

pub record Grant : Type 0 where
  pub version : ℕ
  pub host_id : Bytes
  pub grant_id : Bytes
  pub ssh_user : Bytes
  pub created_at : Int64
  pub expires_at : Int64

abbrev pub grant_fields : Grant → ℕ → ℕ → List Field
grant_fields m created expires =
    u64_field (codes "version") m.version
    ∷ string_field (codes "host_id") m.host_id
    ∷ string_field (codes "grant_id") m.grant_id
    ∷ string_field (codes "ssh_user") m.ssh_user
    ∷ u64_field (codes "created_at") created
    ∷ u64_field (codes "expires_at") expires
    ∷ []

unfoldable pub canonical_grant : Grant → Result Error Bytes
canonical_grant m = do
  created ← u64 m.created_at
  expires ← u64 m.expires_at
  encode ctx_grant (grant_fields m created expires)

pub record RedemptionPayload : Type 0 where
  pub version : ℕ
  pub host_id : Bytes
  pub grant_id : Bytes
  pub agent_id : Bytes
  pub agent_public_key : Bytes
  pub ssh_public_key : Bytes
  pub timestamp : Int64
  pub nonce : Bytes

abbrev pub redemption_fields : RedemptionPayload → ℕ → List Field
redemption_fields m ts =
    u64_field (codes "version") m.version
    ∷ string_field (codes "host_id") m.host_id
    ∷ string_field (codes "grant_id") m.grant_id
    ∷ string_field (codes "agent_id") m.agent_id
    ∷ bytes_field (codes "agent_public_key") m.agent_public_key
    ∷ string_field (codes "ssh_public_key") m.ssh_public_key
    ∷ u64_field (codes "timestamp") ts
    ∷ bytes_field (codes "nonce") m.nonce
    ∷ []

unfoldable pub fields : RedemptionPayload → Result Error (List Field)
fields m = do ts ← u64 m.timestamp; ok (redemption_fields m ts)

unfoldable pub canonical_sig : RedemptionPayload → Result Error Bytes
canonical_sig m = do f ← fields m; encode ctx_redemption_sig f

unfoldable pub canonical_mac : RedemptionPayload → Result Error Bytes
canonical_mac m = do f ← fields m; encode ctx_redemption_mac f

pub record AgentRegistration : Type 0 where
  pub version : ℕ
  pub agent_id : Bytes
  pub public_key : Bytes
  pub challenge_id : Bytes
  pub pow_nonce : Bytes
  pub timestamp : Int64

abbrev pub agent_registration_fields : AgentRegistration → ℕ → List Field
agent_registration_fields m ts =
    u64_field (codes "version") m.version
    ∷ string_field (codes "agent_id") m.agent_id
    ∷ bytes_field (codes "public_key") m.public_key
    ∷ string_field (codes "challenge_id") m.challenge_id
    ∷ string_field (codes "pow_nonce") m.pow_nonce
    ∷ u64_field (codes "timestamp") ts
    ∷ []

unfoldable pub canonical_agent_registration : AgentRegistration → Result Error Bytes
canonical_agent_registration m = do
  ts ← u64 m.timestamp
  encode ctx_agent_register (agent_registration_fields m ts)

module _ (c : Crypto) where
  unfoldable pub proof : RedemptionPayload → Bytes → Result Error Bytes
  proof m secret = do msg ← canonical_mac m; ok (c.hmac_sha256 secret msg)

  -- hmac.Equal
  unfoldable pub verify_proof : RedemptionPayload → Bytes → Bytes → Result Error Bool
  verify_proof m secret given = do want ← proof m secret; ok (eq_bytes want given)

  unfoldable pub verify : Bytes → Bytes → Bytes → Bool
  verify pub_key msg sig =
      if not (length pub_key == public_key_size) || not (length sig == signature_size)
      then false
      else c.verify pub_key msg sig
