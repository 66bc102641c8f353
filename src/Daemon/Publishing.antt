-- ===== src/Daemon/Publishing.antt =====
-- go/daemon/rendezvous/rendezvous.go: one pass of publishLoop. What the
-- service answers to a PUT is an argument, none where `put` returns an error; so is whether the signer
-- fails to record a publication.
pub mod Laws
pub mod Settles
use grantd.Base.{
  ℕ, ◌+◌, ◌*◌, ◌≤◌, ◌≡◌, refl, Bool, true, false, not, Option, none, some, List, [], ◌∷◌, ◌++◌,
  Bytes, Int64, codes, leb, ltb, arith, All, if◌then◌else◌,
}
use grantd.Std.Strings.{has_prefix, trim_prefix, trim_suffix}
use grantd.Protocol.Messages.{Grant}
use grantd.Store.Tables.{Io, Db}
use grantd.Signer.Api.{mark_published_handler}
use grantd.Protocol.Envelopes.{GrantPublishRequest}

unfoldable pub publish_url : Bytes → Bytes → GrantPublishRequest → Bytes
unfolding trim_suffix
publish_url origin host_id p =
    trim_suffix origin (codes "/")
    ++ (codes "/v1/hosts/" ++ (host_id ++ (codes "/grants/" ++ p.grant.grant_id)))

-- The status of `put`, or none: a failure of the transport, or a status of 500 or more.
unfoldable pub put_status : Option ℕ → Option ℕ
put_status none = none
put_status (some status) = if leb 500 status then none else some status

-- The ids that the signer is asked to mark as published.
unfoldable pub publish_pass :
    (Bytes → GrantPublishRequest → Option ℕ) → Bytes → Bytes → List GrantPublishRequest → List Bytes
unfolding publish_url put_status
publish_pass service origin host_id [] = []
publish_pass service origin host_id (p ∷ ps) =
    let rest = publish_pass service origin host_id ps in
    elim (put_status (service (publish_url origin host_id p) p)) [
      | none ↦ []
      | some status ↦ if leb 400 status then rest else p.grant.grant_id ∷ rest
    ]

-- One tick of the loop, with the signer's pending publications, or none where it cannot be read.
unfoldable pub publish_tick :
    (Bytes → GrantPublishRequest → Option ℕ)
    → Bytes
    → Bytes
    → Option (List GrantPublishRequest)
    → List Bytes
unfolding publish_pass
publish_tick service origin host_id none = []
publish_tick service origin host_id (some ps) = publish_pass service origin host_id ps

-- The signer's database after the calls of MarkPublished, of which the daemon only logs an error.
unfoldable pub mark_all : Io → Int64 → List Bytes → Db → Db
unfolding mark_published_handler
mark_all io now [] db = db
mark_all io now (id ∷ ids) db = mark_all io now ids (mark_published_handler io now id db).1
