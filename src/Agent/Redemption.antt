-- ===== src/Agent/Redemption.antt =====
-- go/agent/client.go and the identity of go/agent/identity.go: how a visitor builds a redemption. The
-- nonce is what rand.Read gave, none where it failed.
use grantd.Base.{Option, none, some, Bytes, Int64, Result, ok, err, ◌>>=◌}
use grantd.Crypto.{Crypto}
use grantd.Protocol.Ids
use grantd.Protocol.Ids.{version, agent_id}
use grantd.Protocol.Messages
use grantd.Protocol.Messages.{RedemptionPayload, canonical_sig, proof}
use grantd.Protocol.Envelopes.{RedemptionRequest}

pub record Identity : Type 0 where
  pub key : Bytes
  pub id : Bytes

pub record Capability : Type 0 where
  pub origin : Bytes
  pub host_id : Bytes
  pub grant_id : Bytes
  pub secret : Bytes

pub data Failure : Type 0 where
  no_nonce : Failure
  message_error : Messages.Error → Failure

unfoldable pub nonce_drawn : Option Bytes → Result Failure Bytes
nonce_drawn none = err no_nonce
nonce_drawn (some nonce) = ok nonce

unfoldable pub or_message_error : {A : Type 0} → Result Messages.Error A → Result Failure A
or_message_error (ok a) = ok a
or_message_error (err e) = err (message_error e)

module _ (c : Crypto) where
  -- NewIdentity and LoadIdentity, of the private key that was made or read.
  unfoldable pub identity_of : Bytes → Result Ids.Error Identity
  identity_of key = do id ← agent_id c (c.public_of key); ok (record { key = key; id = id })

  unfoldable pub redemption_payload :
      Identity → Capability → Bytes → Int64 → Bytes → RedemptionPayload
  redemption_payload ident cap ssh_line now nonce = record {
    version = version;
    host_id = cap.host_id;
    grant_id = cap.grant_id;
    agent_id = ident.id;
    agent_public_key = c.public_of ident.key;
    ssh_public_key = ssh_line;
    timestamp = now;
    nonce = nonce;
  }

  unfoldable pub build_redemption :
      Identity → Capability → Bytes → Int64 → Option Bytes → Result Failure RedemptionRequest
  unfolding nonce_drawn or_message_error redemption_payload
  build_redemption ident cap ssh_line now random = do
    nonce ← nonce_drawn random
    let p = redemption_payload ident cap ssh_line now nonce
    sig_msg ← or_message_error (canonical_sig p)
    mac ← or_message_error (proof c p cap.secret)
    ok (record { payload = p; agent_signature = c.sign ident.key sig_msg; proof = mac })
