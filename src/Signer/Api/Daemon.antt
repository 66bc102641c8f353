-- ===== src/Signer/Api/Daemon.antt =====
-- What the daemon, which talks to the untrusted service, can do to the signer's database.
use grantd.Base.{◌≡◌, refl, Bytes, Int64, arith, none, some}
use grantd.Crypto.{Crypto}
use grantd.Ssh.{Ssh}
use grantd.Store.Tables.{Io, Db}
use grantd.Store.Grants.{has_id, publish_row}
use grantd.Store.Grants
use grantd.Signer.Redeem.{Keys}
use grantd.Signer.Redeem.Capabilities.{capabilities, update_where-capabilities, redeem-capabilities}
use grantd.Signer.Grants.{mark_published, stored}
use grantd.Signer.Api.{
  Request, redeeming, registering, connecting, publications, publishing, asking, redeem_handler,
  mark_published_handler, daemon,
}

pub mark_published-capabilities :
    (io : Io) (now : Int64) (id : Bytes) (db : Db)
    → capabilities (mark_published io now id db).1 ≡ capabilities db
unfolding mark_published stored Grants.mark_published publish_row
mark_published-capabilities io now id db =
    ground (arith, update_where-capabilities (has_id id) (publish_row now) db.grants (λ g. refl))

-- Whatever the daemon asks for, the signer's grants stay the same in number and order, and each keeps
-- its id, secret, user and expiry: no route of the daemon's socket makes, changes or extends a
-- capability, on success or on any error.
pub daemon-capabilities :
    (c : Crypto) (lib : Ssh) (rfc3339 : Int64 → Bytes) (io : Io) (k : Keys) (now : Int64)
    (request : Request) (db : Db)
    → capabilities (daemon c lib rfc3339 io k now request db).1 ≡ capabilities db
unfolding daemon redeem_handler mark_published_handler
daemon-capabilities c lib rfc3339 io k now (redeeming draws none) db = refl
daemon-capabilities c lib rfc3339 io k now (redeeming draws (some req)) db =
    redeem-capabilities c lib rfc3339 io k now draws req db
daemon-capabilities c lib rfc3339 io k now (registering random) db = refl
daemon-capabilities c lib rfc3339 io k now (connecting random path) db = refl
daemon-capabilities c lib rfc3339 io k now publications db = refl
daemon-capabilities c lib rfc3339 io k now (publishing id) db =
    mark_published-capabilities io now id db
daemon-capabilities c lib rfc3339 io k now asking db = refl
