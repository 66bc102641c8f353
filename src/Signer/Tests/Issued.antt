-- ===== src/Signer/Tests/Issued.antt =====
-- The certificate of the redemption above, at the warden.
use grantd.Base.{[], ◌∷◌, ◌≡◌, refl, none, some, Option, pos, ok, codes, arith}
use grantd.Toy.{crypto, crypto-IsCrypto, ssh}
use grantd.Store.Tables.{working}
use grantd.Store.Certificates.{find_certificate}
use grantd.Signer.Redeem.Capabilities.{capabilities}
use grantd.Signer.Api.{redeeming, daemon}
use grantd.Signer.Api.Daemon.{daemon-capabilities}
use grantd.Signer.Lifetime.{LifetimeGrant, lifetime_grant}
use grantd.Signer.Tests.{
  grant_id, rfc3339, keys, draws, request, db, db_after, response, redeem_runs, payload,
}
use grantd.Warden.State.{GrantInfo}
use grantd.Warden.KeyId.{parse_key_id}
use grantd.Warden.Admission.{check_grant}
use grantd.Warden.Source.{grant_answer, received}
use grantd.Warden.Source.Accepts.{redeem-check_grant}

abbrev in_json : LifetimeGrant → LifetimeGrant
in_json g = g

abbrev of_json : LifetimeGrant → Option GrantInfo
of_json g = some g

first_certificate : find_certificate grant_id db.certificates ≡ none
unfolding find_certificate
first_certificate = refl

redeem-check_grant_example :
    (parse_key_id response.key_id ≡ some (grant_id, payload.agent_id))
    × (info : GrantInfo) × (check_grant
          (grant_answer grant_id (
            some (
              received in_json of_json
                (lifetime_grant (λ n. codes "5") working grant_id db_after))))
          (codes "visitor")
          (codes "5")
          (pos 1500)
        ≡ ok info)
    × (info.expires_at ≡ pos 2700)
redeem-check_grant_example =
    redeem-check_grant crypto crypto-IsCrypto ssh rfc3339 (λ n. codes "5") in_json of_json working
      working keys (pos 1000) (pos 1500) draws request db db_after response redeem_runs
      first_certificate refl refl (omega arith) (λ g i u n. refl) (omega arith)

daemon-capabilities_example :
    capabilities
      (daemon crypto ssh rfc3339 working keys (pos 1000) (redeeming draws (some request)) db).1
    ≡ (grant_id, codes "secret", codes "visitor", pos 2700) ∷ []
daemon-capabilities_example =
    daemon-capabilities crypto ssh rfc3339 working keys (pos 1000) (redeeming draws (some request))
      db
