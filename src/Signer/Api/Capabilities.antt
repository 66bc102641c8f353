-- ===== src/Signer/Api/Capabilities.antt =====
-- What the owner, who may make grants, can do to the signer's capabilities.
use grantd.Base.{
  ◌≡◌, refl, ◌⊎◌, inl, inr, none, some, [], ◌∷◌, ◌++◌, Bytes, Int64, Result, ok, err, arith,
  Bool-cases,
}
use grantd.Crypto.{Crypto}
use grantd.Ssh.{Ssh}
use grantd.Store.Tables.{Io, HostRow, GrantRow, Db, insert_grant, any_row}
use grantd.Store.Grants
use grantd.Store.Grants.{unrevoked, revoke_row, new_row, has_id}
use grantd.Signer.Redeem.{Keys}
use grantd.Signer.Redeem.Capabilities.{capabilities, update_where-capabilities}
use grantd.Signer.Grants.{
  Failure, stored, revoke_grant, prepare_grant, insert_and_sign, create_grant,
}
use grantd.Signer.Api.{revoke_grant_handler, create_grant_handler, mark_published_handler}
use grantd.Signer.Api.Daemon.{mark_published-capabilities}
use grantd.Signer.Api.Owner.{OwnerRequest, creating, listing, revoking, publishing, asking, owner}

-- The capabilities are the same, or one grant that is neither redeemed nor revoked is new.
abbrev pub GrowsByOne : Db → Db → Type 0
GrowsByOne db db' =
    (capabilities db' ≡ capabilities db)
    ⊎ ((g : GrantRow) × (db'.grants ≡ db.grants ++ g ∷ [])
        × (g.redeemed_at ≡ none)
        × (g.revoked_at ≡ none))

-- Only a creation makes one.
abbrev pub Allowed : OwnerRequest → Db → Db → Type 0
Allowed (creating id_bytes secret_bytes ttl) db db' = GrowsByOne db db'
Allowed _ db db' = capabilities db' ≡ capabilities db

inserted-grows : (io : Io) (g : GrantRow) (db : Db) → GrowsByOne db (Grants.create_grant io g db).1
unfolding Grants.create_grant
inserted-grows io g db = elim (Bool-cases (io insert_grant)) [
  | inl e ↦ rw e (inl refl)
  | inr e ↦ elim (Bool-cases (any_row (has_id g.id) db.grants)) [
    | inl f ↦ rw (e, f) (inl refl)
    | inr f ↦
        rw (e, f)
          (inr (
            new_row g.id g.secret g.ssh_user g.created_at g.expires_at,
            refl,
            unfold new_row in refl,
            unfold new_row in refl,
          ))
  ]
]

insert_and_sign-grows :
    (c : Crypto) (io : Io) (k : Keys) (r : Result Failure (HostRow × GrantRow)) (db : Db)
    → GrowsByOne db (insert_and_sign c io k r db).1
unfolding insert_and_sign
insert_and_sign-grows c io k (err e) db = inl refl
insert_and_sign-grows c io k (ok (h, g)) db = inserted-grows io g db

revoke_grant-capabilities :
    (io : Io) (now : Int64) (id : Bytes) (db : Db)
    → capabilities (revoke_grant io now id db).1 ≡ capabilities db
unfolding revoke_grant stored Grants.revoke_grant revoke_row
revoke_grant-capabilities io now id db =
    ground (arith, update_where-capabilities (unrevoked id) (revoke_row now) db.grants (λ g. refl))

-- Whatever the owner asks for, and whatever ran while a creation had no lock, no grant's id, secret, user or expiry changes and none goes; only the
-- creation of a grant adds one, one at most, which is neither redeemed nor revoked.
pub owner-capabilities :
    (c : Crypto) (lib : Ssh) (rfc3339 : Int64 → Bytes) (io : Io) (k : Keys) (now : Int64)
    (request : OwnerRequest) (before db : Db)
    → Allowed request db (owner c lib rfc3339 io k now request before db).1
unfolding owner create_grant_handler revoke_grant_handler mark_published_handler create_grant
owner-capabilities c lib rfc3339 io k now (creating id_bytes secret_bytes none) before db = inl refl
owner-capabilities c lib rfc3339 io k now (creating id_bytes secret_bytes (some ttl)) before db =
    insert_and_sign-grows c io k (prepare_grant c io k now id_bytes secret_bytes ttl before) db
owner-capabilities c lib rfc3339 io k now listing before db = refl
owner-capabilities c lib rfc3339 io k now (revoking id) before db =
    revoke_grant-capabilities io now id db
owner-capabilities c lib rfc3339 io k now (publishing id) before db =
    mark_published-capabilities io now id db
owner-capabilities c lib rfc3339 io k now asking before db = refl
