-- ===== src/Agent/Tests/Links.antt =====
-- A capability URL at one origin.
use grantd.Base.{◌≡◌, refl, ok, codes, arith, inl}
use grantd.Protocol.Secrets.{capability_url}
use grantd.Agent.CapabilityUrl.{parse_capability_url}
use grantd.Agent.CapabilityUrl.RoundTrip.{parse_capability_url-capability_url}
use grantd.Toy.{repeat}
use grantd.Toy.Urls.{
  parse_url, parse_url-ParsesPlain, host_id, host_id_valid, grant_id, grant_id_valid, host_plain,
}

parse_capability_url-capability_url_example :
    parse_capability_url parse_url
      (capability_url (codes "https://grantd.dev") host_id grant_id (repeat 32 200))
    ≡ ok (record {
      origin = codes "https://grantd.dev";
      host_id = host_id;
      grant_id = grant_id;
      secret = repeat 32 200;
    })
parse_capability_url-capability_url_example =
    parse_capability_url-capability_url parse_url parse_url-ParsesPlain (codes "https")
      (codes "grantd.dev") host_id grant_id (repeat 32 200) (inl refl) host_plain host_id_valid
      grant_id_valid refl (omega arith)
