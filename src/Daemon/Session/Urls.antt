-- ===== src/Daemon/Session/Urls.antt =====
-- Where a session goes: the URLs of what it sends.
use grantd.Base.{
  ◌≡◌, ◌⊎◌, inl, inr, refl, ap, ◌∙◌, Bool, true, false, some, List, [], ◌∷◌, ◌++◌, Bytes, codes,
  if◌then◌else◌,
}
use grantd.Std.Strings.{has_prefix, has_suffix, strip_prefix, trim_prefix, trim_suffix}
use grantd.Std.Strings.Affixes.{trim_suffix-append, trim_suffix-none}
use grantd.Protocol.Envelopes.{HostRegisterRequest}
use grantd.Signer.Grants.{ConnectAuth}
use grantd.Daemon.Client.{heard}
use grantd.Daemon.Session.{
  Call, asking_status, asking_registration, putting, asking_auth, dialling, World, ws_url, host_url,
  connect_path, session,
}
use grantd.Daemon.Session.Dialled.{dials, session-Ready}

-- An origin with TLS or without it, of a host that does not end in a slash.
abbrev pub origin_of : Bool → Bytes → Bytes
origin_of tls host = (if tls then codes "https://" else codes "http://") ++ host

trimmed-origin :
    (tls : Bool) (host origin : Bytes)
    → has_suffix (origin_of tls host) (codes "/") ≡ false
    → ((origin ≡ origin_of tls host) ⊎ (origin ≡ origin_of tls host ++ codes "/"))
    → trim_suffix origin (codes "/") ≡ origin_of tls host
trimmed-origin tls host origin n (inl e) =
    ap (λ o. trim_suffix o (codes "/")) e ∙ trim_suffix-none (origin_of tls host) (codes "/") n
trimmed-origin tls host origin n (inr e) =
    ap (λ o. trim_suffix o (codes "/")) e ∙ trim_suffix-append (origin_of tls host) b'/' []

ws_url-trimmed :
    (tls : Bool) (host origin path : Bytes)
    → trim_suffix origin (codes "/") ≡ origin_of tls host
    → ws_url origin path ≡ (if tls then codes "wss://" else codes "ws://") ++ (host ++ path)
unfolding ws_url has_prefix trim_prefix strip_prefix
ws_url-trimmed true host origin path e = rw e refl
ws_url-trimmed false host origin path e = rw e refl

-- What a session that dials has done, and where.
pub record Reaches (tls : Bool) (host : Bytes) (w : World) (url : Bytes) (auth : ConnectAuth)
    (calls : List Call) : Type 0 where
  pub reg : HostRegisterRequest
  pub heard_registration : heard w.registration ≡ some reg
  pub dialled :
      url
      ≡ (if tls then codes "wss://" else codes "ws://")
        ++ (host ++ (codes "/v1/hosts/" ++ (reg.registration.host_id ++ codes "/connect")))
  pub called :
      calls
      ≡ asking_status
        ∷ asking_registration
        ∷ putting (origin_of tls host ++ (codes "/v1/hosts/" ++ reg.registration.host_id)) reg
        ∷ asking_auth (codes "/v1/hosts/" ++ (reg.registration.host_id ++ codes "/connect"))
        ∷ dialling url auth
        ∷ []

-- For an https or http origin, with or without one slash at its end, a session that dials the service
-- has asked the signer for its status and its registration, put the registration at the origin under
-- the host id in it and asked for the signature of the path that it then dials: at the same host, by
-- wss exactly for an https origin.
pub session-Reaches :
    (tls : Bool) (host origin : Bytes) (w : World) (url : Bytes) (auth : ConnectAuth)
    → has_suffix (origin_of tls host) (codes "/") ≡ false
    → ((origin ≡ origin_of tls host) ⊎ (origin ≡ origin_of tls host ++ codes "/"))
    → dials (session origin w).0 ≡ some (url, auth)
    → Reaches tls host w url auth (session origin w).0
unfolding host_url connect_path
session-Reaches tls host origin w url auth n o d =
    let trimmed = trimmed-origin tls host origin n o in
    let (r, calls) = session-Ready origin w url auth d in
    record {
      reg = r.reg;
      heard_registration = r.heard_registration;
      dialled =
          r.dialled
          ∙ ws_url-trimmed tls host origin (connect_path r.reg.registration.host_id) trimmed;
      called =
          calls
          ∙ ap
              (λ o'.
                asking_status
                ∷ asking_registration
                ∷ putting (o' ++ (codes "/v1/hosts/" ++ r.reg.registration.host_id)) r.reg
                ∷ asking_auth (connect_path r.reg.registration.host_id)
                ∷ dialling url auth
                ∷ [])
              trimmed;
    }
