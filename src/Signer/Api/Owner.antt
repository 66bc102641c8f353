-- ===== src/Signer/Api/Owner.antt =====
-- go/signer/api/http.go: the routes of the owner's and of the lifetime socket.
use grantd.Base.{ℕ, Option, List, Bytes, Int64}
use grantd.Crypto.{Crypto}
use grantd.Ssh.{Ssh}
use grantd.Store.Tables.{Io, Db}
use grantd.Store.Grants.{GrantView}
use grantd.Signer.Redeem.{Keys}
use grantd.Signer.Grants.{NewGrant}
use grantd.Signer.Lifetime.{Reply, LifetimeGrant, lifetime_grant}
use grantd.Signer.Api.{
  Status, Done, create_grant_handler, list_grants_handler, revoke_grant_handler,
  mark_published_handler, status_handler,
}

pub data OwnerRequest : Type 0 where
  creating : Option Bytes → Option Bytes → Option Int64 → OwnerRequest
  listing : OwnerRequest
  revoking : Bytes → OwnerRequest
  publishing : Bytes → OwnerRequest
  asking : OwnerRequest

pub data OwnerSent : Type 0 where
  created : Reply NewGrant → OwnerSent
  grants : Reply (List GrantView) → OwnerSent
  changed : Reply Done → OwnerSent
  status : Reply Status → OwnerSent

pub data LifetimeRequest : Type 0 where
  asking_grant : Bytes → LifetimeRequest
  asking_status : LifetimeRequest

pub data LifetimeSent : Type 0 where
  lifetime : Reply LifetimeGrant → LifetimeSent
  status : Reply Status → LifetimeSent

module _ (c : Crypto) (lib : Ssh) (rfc3339 : Int64 → Bytes) where
  -- `before` is what a creation reads, `db` what each request finds when it writes.
  unfoldable pub owner : Io → Keys → Int64 → OwnerRequest → Db → Db → OwnerSent × Db
  unfolding create_grant_handler list_grants_handler revoke_grant_handler mark_published_handler
      status_handler
  owner io k now (creating id_bytes secret_bytes ttl) before db =
      let (r, db') =
        create_grant_handler c lib rfc3339 io k now id_bytes secret_bytes ttl before db in
      (created r, db')
  owner io k now listing before db = (grants (list_grants_handler io db), db)
  owner io k now (revoking id) before db =
      let (r, db') = revoke_grant_handler io now id db in (changed r, db')
  owner io k now (publishing id) before db =
      let (r, db') = mark_published_handler io now id db in (changed r, db')
  owner io k now asking before db =
      (OwnerSent.status (status_handler c lib rfc3339 io k now db), db)

  -- `decimal` is strconv.FormatUint to the base 10.
  unfoldable pub lifetime_socket :
      (ℕ → Bytes) → Io → Keys → Int64 → LifetimeRequest → Db → LifetimeSent
  lifetime_socket decimal io k now (asking_grant id) db = lifetime (lifetime_grant decimal io id db)
  lifetime_socket decimal io k now asking_status db =
      LifetimeSent.status (status_handler c lib rfc3339 io k now db)
