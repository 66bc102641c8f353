-- ===== src/Daemon/Tests/Session.antt =====
-- The daemon's sessions at one enrolled host, with primitives that are simple functions.
use grantd.Base.{
  ℕ, ◌≡◌, refl, ap, true, Option, none, some, List, [], ◌∷◌, Bytes, Int64, pos, ok, codes, arith,
  eq_bytes,
}
use grantd.Std.BigEndian.{be32, be64}
use grantd.Std.Utf8.{valid_string, contains_nul}
use grantd.Std.Strings.{has_prefix}
use grantd.Std.Base32.{all_b32, is_b32_char}
use grantd.Std.Base64.{encode_raw, b64_char}
use grantd.Canonical
use grantd.Protocol.Messages
use grantd.Protocol.Ids.{valid_grant_id}
use grantd.Protocol.Messages.{
  canonical_host_registration, canonical_host_connect, canonical_grant, u64,
}
use grantd.Protocol.Envelopes.{HostRegisterRequest, GrantPublishRequest}
use grantd.Store.Tables.{HostRow, GrantRow, Db, working, keep_where}
use grantd.Store.Host.{host}
use grantd.Store.Grants.{order_by, pending_publications}
use grantd.Signer.Lifetime.{Reply, answered}
use grantd.Signer.Redeem.{Keys}
use grantd.Signer.Grants.{
  ConnectAuth, host_registration, sign_connect, ssh_ca_public_key_line, pending, sign_grant,
}
use grantd.Signer.Api.{Status, registration_handler, connect_auth_handler, internal_reply, bad_path}
use grantd.Signer.Api
use grantd.Daemon.Client.{heard}
use grantd.Base.{inr}
use grantd.Std.Strings.{has_suffix}
use grantd.Daemon.Session.Urls.{Reaches, session-Reaches}
use grantd.Daemon.Session.{World, connect_path, ws_url, session}
use grantd.Daemon.Session.Dialled.{Ready, five_calls, Ready-session}
use grantd.Daemon.Session.Authentic.{Authenticated, session-Authenticated}
use grantd.Daemon.Publishing.{publish_tick, mark_all}
use grantd.Daemon.Publishing.Settles.{publish_tick-settles}
use grantd.Toy.{repeat, crypto, ssh, crypto-IsCrypto}

abbrev rfc3339 : Int64 → Bytes
rfc3339 t = codes "t"

abbrev keys : Keys
keys = record { identity = []; ca = []; origin = codes "https://x" }

abbrev row : HostRow
row = record {
  host_id = codes "h_x";
  ssh_user = codes "visitor";
  hostname = codes "example.org";
  ssh_port = 22;
  created_at = pos 900;
  ssh_host_public_key = codes "ssh-ed25519 AAAA";
}

abbrev grant_row : GrantRow
grant_row = record {
  id = codes "g_aaaaaaaaaaaaaaaa";
  secret = codes "secret";
  ssh_user = codes "visitor";
  created_at = pos 900;
  expires_at = pos 2700;
  redeemed_at = none;
  revoked_at = none;
  redeemed_agent_id = none;
  redeemed_key_fp = none;
  published_at = none;
}

abbrev db : Db
db = record { host = some row; grants = grant_row ∷ []; certificates = []; nonces = [] }

abbrev random : Option Bytes
random = some (repeat 16 7)

-- The signer's answers.
registered :
    (r : HostRegisterRequest) × (registration_handler crypto ssh rfc3339 working keys
        (pos 1000)
        random
        db
      ≡ answered 200 r)
unfolding registration_handler host_registration host ssh_ca_public_key_line eq_bytes
    canonical_host_registration u64 Messages.encode Canonical.encode Canonical.encode_fields
    Canonical.encode_field Canonical.encode_value Canonical.write_lp be32 be64 valid_string
    contains_nul
registered = (_, refl)

signed :
    (a : ConnectAuth) × (connect_auth_handler crypto ssh rfc3339 working keys
        (pos 1001)
        random
        (some (connect_path (codes "h_x")))
        db
      ≡ answered 200 a)
unfolding connect_auth_handler connect_path bad_path has_prefix sign_connect host eq_bytes
    canonical_host_connect u64 Messages.encode Canonical.encode Canonical.encode_fields
    Canonical.encode_field Canonical.encode_value Canonical.write_lp be32 be64 valid_string
    contains_nul encode_raw b64_char
signed = (_, refl)

abbrev state : Status
state = record {
  host_id = codes "h_x";
  ssh_user = codes "visitor";
  hostname = codes "example.org";
  ssh_port = 22;
  ssh_ca_public_key = [];
  ssh_host_public_key = [];
  active_grants = 1;
  certificates_issued = 0;
  protocol_version = 1;
  identity_public_key_b64 = [];
}

abbrev world : World
world = record {
  status = some (answered 200 state);
  registration = some (registration_handler crypto ssh rfc3339 working keys (pos 1000) random db);
  connect_auth = λ path.
      some (connect_auth_handler crypto ssh rfc3339 working keys (pos 1001) random (some path) db);
  service = λ url reg. some 200;
  accepts = λ url auth. true;
  cancelled = true;
}

abbrev url : Bytes
url = ws_url (codes "https://x/") (connect_path (codes "h_x"))

url_text : url ≡ codes "wss://x/v1/hosts/h_x/connect"
unfolding ws_url connect_path eq_bytes
url_text = refl

host_known : registered.0.registration.host_id ≡ codes "h_x"
unfolding registered
host_known = refl

ready : Ready (codes "https://x/") world url signed.0
unfolding heard
ready = record {
  state = state;
  heard_status = refl;
  reg = registered.0;
  heard_registration = ap (λ (r : Reply HostRegisterRequest). heard (some r)) registered.1;
  taken = 200;
  answered_put = refl;
  was_taken = omega arith;
  heard_auth = rw host_known (ap (λ (r : Reply ConnectAuth). heard (some r)) signed.1);
  dialled = rw host_known refl;
}

session-Reaches_example :
    Reaches true (codes "x") world url signed.0 (session (codes "https://x/") world).0
unfolding has_suffix eq_bytes
session-Reaches_example =
    session-Reaches true (codes "x") (codes "https://x/") world url signed.0 refl (inr refl)
      (Ready-session (codes "https://x/") world url signed.0 ready)

session-Authenticated_example :
    (r : Ready (codes "https://x/") world url signed.0) × ((session (codes "https://x/") world).0
      ≡ five_calls (codes "https://x/") r.reg url signed.0)
    × Authenticated crypto r.reg signed.0
session-Authenticated_example =
    session-Authenticated crypto crypto-IsCrypto ssh rfc3339 working working keys (pos 1000)
      (pos 1001) random random db (codes "https://x/") world url signed.0 refl (λ path. refl)
      (Ready-session (codes "https://x/") world url signed.0 ready)

-- One grant is to be published, and the service takes it.
abbrev taking : Bytes → GrantPublishRequest → Option ℕ
taking u p = some 200

to_publish : (ps : List GrantPublishRequest) × (pending crypto working keys (pos 1000) db ≡ ok ps)
unfolding pending host pending_publications keep_where sign_grant canonical_grant u64
    Messages.encode Canonical.encode Canonical.encode_fields Canonical.encode_field
    Canonical.encode_value Canonical.write_lp be32 be64 valid_string contains_nul eq_bytes order_by
to_publish = (_, refl)

id_valid : valid_grant_id grant_row.id ≡ true
unfolding valid_grant_id all_b32 is_b32_char
id_valid = refl

publish_tick-settles_example :
    pending crypto working keys (pos 2000) (
      mark_all working
        (pos 1000)
        (publish_tick taking
          (codes "https://x")
          (codes "h_x")
          (heard (some (Api.pending_handler crypto ssh rfc3339 working keys (pos 1000) db))))
        db)
    ≡ ok []
publish_tick-settles_example =
    publish_tick-settles crypto ssh rfc3339 working keys (pos 1000) (pos 2000) taking
      (codes "https://x") (codes "h_x") db to_publish.0 refl (id_valid, tt) to_publish.1
      (λ u p. refl) (omega arith)
