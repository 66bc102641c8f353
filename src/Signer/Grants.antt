-- ===== src/Signer/Grants.antt =====
-- go/signer/signer.go: enrollment, the signed public records, and the life of a grant up to its
-- redemption. What rand.Read gave is an argument, or none where it failed.
pub mod Laws
pub mod Enrollment
pub mod Invites
pub mod Connect
pub mod Publications
use grantd.Base.{
  ℕ, Bool, true, false, not, ◌&&◌, ◌||◌, Option, none, some, List, [], ◌∷◌, ◌++◌, Bytes, Int64, pos,
  add64, Result, ok, err, codes, length, leb, leb_ℤ, ◌==◌, eq_bytes, if◌then◌else◌, ◌>>=◌, ◌>>◌,
}
use grantd.Std.Strings.{has_prefix}
use grantd.Std.Base64.{url_alphabet, encode_raw}
use grantd.Crypto.{Crypto}
use grantd.Ssh.{Ssh, PublicKey}
use grantd.Protocol.Ids
use grantd.Protocol.Ids.{version, host_id, default_grant_ttl, valid_grant_id, new_grant_id}
use grantd.Protocol.Validate
use grantd.Protocol.Validate.{
  validate_ssh_user, validate_hostname, validate_port, validate_grant_window,
}
use grantd.Protocol.SshKey
use grantd.Protocol.SshKey.{parse_ssh_public_key}
use grantd.Protocol.Messages
use grantd.Protocol.Messages.{
  HostRegistration, HostConnect, Grant, canonical_host_registration, canonical_host_connect,
  canonical_grant,
}
use grantd.Protocol.Envelopes.{HostRegisterRequest, GrantPublishRequest}
use grantd.Protocol.Secrets.{capability_url}
use grantd.Store.Tables
use grantd.Store.Tables.{Io, HostRow, GrantRow, Db}
use grantd.Store.Host.{set_host, host}
use grantd.Store.Grants
use grantd.Store.Grants.{new_row, pending_publications, active_grant_count}
use grantd.Signer.Redeem.{Keys}

pub data Failure : Type 0 where
  not_valid : Validate.Error → Failure
  host_key_required host_key_missing no_ca_line random_failed no_origin too_many_grants : Failure
  malformed_grant_id : Failure
  host_key : SshKey.Error → Failure
  id_error : Ids.Error → Failure
  message_error : Messages.Error → Failure
  store_error : Tables.Error → Failure

abbrev pub max_active_grants : ℕ
max_active_grants = 32

-- An error of a callee, wrapped.
unfoldable pub or_fail : {E A : Type 0} → Result E A → (E → Failure) → Result Failure A
or_fail (ok a) f = ok a
or_fail (err e) f = err (f e)

unfoldable pub present : {A : Type 0} → Option A → Failure → Result Failure A
present none e = err e
present (some a) e = ok a

-- A write of the store, last.
unfoldable pub stored : {A : Type 0} → Tables.Outcome A → Result Failure A × Db
stored (r, db) = (or_fail r store_error, db)

pub record ConnectAuth : Type 0 where
  pub host_id : Bytes
  pub path : Bytes
  pub timestamp : Int64
  pub nonce : Bytes
  pub signature : Bytes

pub record NewGrant : Type 0 where
  pub grant_id : Bytes
  pub expires_at : Int64
  pub capability_url : Bytes
  pub publish : GrantPublishRequest

unfoldable pub valid_origin : Bytes → Bool
valid_origin origin = has_prefix origin (codes "https://") || has_prefix origin (codes "http://")

-- line[:len(line)-1]
drop_last : Bytes → Bytes
drop_last [] = []
drop_last (b ∷ []) = []
drop_last (b ∷ d ∷ bs) = b ∷ drop_last (d ∷ bs)

module _ (c : Crypto) (lib : Ssh) where
  pub enrolling : Keys → Int64 → Bytes → Bytes → ℕ → Bytes → Result Failure HostRow
  unfolding or_fail
  enrolling k now ssh_user hostname port line = do
    or_fail (validate_ssh_user ssh_user) not_valid
    or_fail (validate_hostname hostname) not_valid
    or_fail (validate_port port) not_valid
    (if eq_bytes line [] then err host_key_required else ok tt)
    _ ← or_fail (parse_ssh_public_key lib line) host_key
    id ← or_fail (host_id c (c.public_of k.identity)) id_error
    ok (record {
      host_id = id;
      ssh_user = ssh_user;
      hostname = hostname;
      ssh_port = port;
      created_at = now;
      ssh_host_public_key = line;
    })

  unfoldable pub enroll :
      Io → Keys → Int64 → Bytes → Bytes → ℕ → Bytes → Db → Result Failure (Unit {0}) × Db
  unfolding enrolling stored
  enroll io k now ssh_user hostname port line db =
      elim (enrolling k now ssh_user hostname port line) [
        | err e ↦ (err e, db)
        | ok h ↦ stored (set_host io h db)
      ]

  -- idkey.PublicSSHLine of the authority's public key.
  unfoldable pub ssh_ca_public_key_line : Keys → Result Failure Bytes
  unfolding present drop_last
  ssh_ca_public_key_line k = do
    key ← present (lib.new_public_key (c.public_of k.ca)) no_ca_line
    ok (drop_last (lib.marshal_public_key key))

  unfoldable pub host_registration :
      Io → Keys → Int64 → Option Bytes → Db → Result Failure HostRegisterRequest
  unfolding or_fail present
  host_registration io k now random db = do
    h ← or_fail (host io db) store_error
    ca_line ← ssh_ca_public_key_line k
    (if eq_bytes h.ssh_host_public_key [] then err host_key_missing else ok tt)
    nonce ← present random random_failed
    let reg : HostRegistration = record {
      version = version;
      host_id = h.host_id;
      identity_public_key = c.public_of k.identity;
      ssh_ca_public_key = ca_line;
      ssh_host_public_key = h.ssh_host_public_key;
      hostname = h.hostname;
      ssh_port = h.ssh_port;
      ssh_user = h.ssh_user;
      timestamp = now;
      nonce = nonce;
    }
    msg ← or_fail (canonical_host_registration reg) message_error
    ok (record { registration = reg; signature = c.sign k.identity msg })

-- `if ttlSeconds == 0 { ttlSeconds = protocol.DefaultGrantTTL }`
unfoldable pub ttl_or_default : Int64 → Int64
ttl_or_default ttl = if leb_ℤ ttl (pos 0) && leb_ℤ (pos 0) ttl then default_grant_ttl else ttl

unfoldable pub publish_of : HostRow → GrantRow → Grant
publish_of h g = record {
  version = version;
  host_id = h.host_id;
  grant_id = g.id;
  ssh_user = g.ssh_user;
  created_at = g.created_at;
  expires_at = g.expires_at;
}

module _ (c : Crypto) where
  unfoldable pub sign_connect :
      Io → Keys → Int64 → Option Bytes → Bytes → Db → Result Failure ConnectAuth
  unfolding or_fail present
  sign_connect io k now random path db = do
    h ← or_fail (host io db) store_error
    nonce ← present random random_failed
    let m : HostConnect = record {
      version = version;
      host_id = h.host_id;
      path = path;
      timestamp = now;
      nonce = nonce;
    }
    msg ← or_fail (canonical_host_connect m) message_error
    ok (record {
      host_id = m.host_id;
      path = m.path;
      timestamp = m.timestamp;
      nonce = encode_raw url_alphabet nonce;
      signature = encode_raw url_alphabet (c.sign k.identity msg);
    })

  -- The signed public metadata of a grant.
  unfoldable pub sign_grant : Keys → Grant → Result Failure GrantPublishRequest
  unfolding or_fail
  sign_grant k g = do
    msg ← or_fail (canonical_grant g) message_error
    ok (record { grant = g; signature = c.sign k.identity msg })

  -- Up to the insertion: the expiry, the enrollment, the grant's id and its secret.
  unfoldable pub prepare_grant :
      Io
      → Keys
      → Int64
      → Option Bytes
      → Option Bytes
      → Int64
      → Db
      → Result Failure (HostRow × GrantRow)
  unfolding or_fail present
  prepare_grant io k now id_bytes secret_bytes ttl db = do
    (if not (valid_origin k.origin) then err no_origin else ok tt)
    let expires_at : Int64 = add64 now (ttl_or_default ttl)
    or_fail (validate_grant_window now expires_at) not_valid
    h ← or_fail (host io db) store_error
    active ← or_fail (active_grant_count io now db) store_error
    (if leb max_active_grants active then err too_many_grants else ok tt)
    raw ← present id_bytes random_failed
    secret ← present secret_bytes random_failed
    ok (h, new_row (new_grant_id raw) secret h.ssh_user now expires_at)

  unfoldable pub new_grant : Keys → HostRow → GrantRow → Result Failure NewGrant
  unfolding publish_of
  new_grant k h g = do
    publish ← sign_grant k (publish_of h g)
    ok (record {
      grant_id = g.id;
      expires_at = g.expires_at;
      capability_url = capability_url k.origin h.host_id g.id g.secret;
      publish = publish;
    })

  -- The insertion, and the answer, which is signed after it.
  unfoldable pub insert_and_sign :
      Io → Keys → Result Failure (HostRow × GrantRow) → Db → Result Failure NewGrant × Db
  unfolding or_fail
  insert_and_sign io k (err e) db = (err e, db)
  insert_and_sign io k (ok (h, g)) db =
      let (r, db') = Grants.create_grant io g db in
      ((do or_fail r store_error; new_grant k h g), db')

  -- The reads and the insertion are statements of their own, without a lock or a transaction: the
  -- host and the count are of the state `before`, the row is inserted into the state that other calls
  -- have left since then.
  unfoldable pub create_grant :
      Io
      → Keys
      → Int64
      → Option Bytes
      → Option Bytes
      → Int64
      → Db
      → Db
      → Result Failure NewGrant × Db
  create_grant io k now id_bytes secret_bytes ttl before db =
      insert_and_sign io k (prepare_grant io k now id_bytes secret_bytes ttl before) db

  sign_all : Keys → HostRow → List GrantRow → Result Failure (List GrantPublishRequest)
  unfolding publish_of
  sign_all k h [] = ok []
  sign_all k h (g ∷ gs) = do
    r ← sign_grant k (publish_of h g)
    rest ← sign_all k h gs
    ok (r ∷ rest)

  unfoldable pub pending : Io → Keys → Int64 → Db → Result Failure (List GrantPublishRequest)
  unfolding or_fail sign_all
  pending io k now db = do
    h ← or_fail (host io db) store_error
    rows ← or_fail (pending_publications io now db) store_error
    sign_all k h rows

unfoldable pub revoke_grant : Io → Int64 → Bytes → Db → Result Failure (Unit {0}) × Db
unfolding stored
revoke_grant io now id db =
    if not (valid_grant_id id)
    then (err malformed_grant_id, db)
    else stored (Grants.revoke_grant io id now db)

unfoldable pub mark_published : Io → Int64 → Bytes → Db → Result Failure (Unit {0}) × Db
unfolding stored
mark_published io now id db =
    if not (valid_grant_id id)
    then (err malformed_grant_id, db)
    else stored (Grants.mark_published io id now db)
