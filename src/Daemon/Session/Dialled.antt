-- ===== src/Daemon/Session/Dialled.antt =====
-- What the daemon has done before it dials the service, and with what it dials.
use grantd.Base.{
  ℕ, ◌<◌, ◌≡◌, refl, sym, ap, ◌∙◌, Option, none, some, List, [], ◌∷◌, ◌++◌, Bytes, Result, ok, err,
  arith,
}
use grantd.Protocol.Envelopes.{HostRegisterRequest}
use grantd.Signer.Grants.{ConnectAuth}
use grantd.Signer.Api.{Status}
use grantd.Daemon.Client.{heard}
use grantd.Daemon.Publishing.{put_status}
use grantd.Daemon.Session.{
  Call, asking_status, asking_registration, putting, asking_auth, dialling, Ended, World, ws_url,
  host_url, connect_path, registered, register_with, register, serve, dial_with, connect,
  session_with, session,
}

-- The first connection that the calls dial.
abbrev pub dials : List Call → Option (Bytes × ConnectAuth)
dials [] = none
dials (dialling url auth ∷ cs) = some (url, auth)
dials (c ∷ cs) = dials cs

-- The answers with which a connection is dialled: the signer is there and gives a registration, the
-- service takes that registration, and the signer signs the path of its host.
pub record Ready (origin : Bytes) (w : World) (url : Bytes) (auth : ConnectAuth) : Type 0 where
  pub state : Status
  pub heard_status : heard w.status ≡ some state
  pub reg : HostRegisterRequest
  pub heard_registration : heard w.registration ≡ some reg
  pub taken : ℕ
  pub answered_put : w.service (host_url origin reg.registration.host_id) reg ≡ some taken
  pub was_taken : taken < 400
  pub heard_auth : heard (w.connect_auth (connect_path reg.registration.host_id)) ≡ some auth
  pub dialled : url ≡ ws_url origin (connect_path reg.registration.host_id)

-- The calls of a session that dials.
abbrev pub five_calls : Bytes → HostRegisterRequest → Bytes → ConnectAuth → List Call
five_calls origin reg url auth =
    asking_status
    ∷ asking_registration
    ∷ putting (host_url origin reg.registration.host_id) reg
    ∷ asking_auth (connect_path reg.registration.host_id)
    ∷ dialling url auth
    ∷ []

dial_with-dials :
    (origin : Bytes) (w : World) (path : Bytes) (a : Option ConnectAuth) (url : Bytes)
    (auth : ConnectAuth)
    → dials (dial_with origin w path a).0 ≡ some (url, auth)
    → (a ≡ some auth)
      × (url ≡ ws_url origin path)
      × ((dial_with origin w path a).0 ≡ dialling url auth ∷ [])
unfolding dial_with serve
dial_with-dials origin w path none url auth h = absurd (ground arith)
dial_with-dials origin w path (some b) url auth h = (ground arith, ground arith, ground arith)

connect-dials :
    (origin : Bytes) (w : World) (r : Result Ended HostRegisterRequest) (url : Bytes)
    (auth : ConnectAuth)
    → dials (connect origin w r).0 ≡ some (url, auth)
    → (reg : HostRegisterRequest) × (r ≡ ok reg)
      × (heard (w.connect_auth (connect_path reg.registration.host_id)) ≡ some auth)
      × (url ≡ ws_url origin (connect_path reg.registration.host_id))
      × ((connect origin w r).0
          ≡ asking_auth (connect_path reg.registration.host_id) ∷ dialling url auth ∷ [])
unfolding connect
connect-dials origin w (err e) url auth h = absurd (ground arith)
connect-dials origin w (ok reg) url auth h =
    let path = connect_path reg.registration.host_id in
    let (a, u, c) = dial_with-dials origin w path (heard (w.connect_auth path)) url auth h in
    (reg, refl, a, u, ap (λ x. asking_auth path ∷ x) c)

registered-same :
    (q reg : HostRegisterRequest) (taken : Option ℕ) → registered q taken ≡ ok reg → q ≡ reg
unfolding registered
registered-same q reg none h = absurd (ground arith)
registered-same q reg (some status) h = ground arith

register_with-ok :
    (origin : Bytes) (service : Bytes → HostRegisterRequest → Option ℕ)
    (heard_reg : Option HostRegisterRequest) (reg : HostRegisterRequest)
    → (register_with origin service heard_reg).1 ≡ ok reg
    → (heard_reg ≡ some reg)
      × ((register_with origin service heard_reg).0
          ≡ asking_registration ∷ putting (host_url origin reg.registration.host_id) reg ∷ [])
      × (registered reg (put_status (service (host_url origin reg.registration.host_id) reg))
          ≡ ok reg)
unfolding register_with
register_with-ok origin service none reg h = absurd (ground arith)
register_with-ok origin service (some q) reg h =
    let e =
      registered-same q reg (put_status (service (host_url origin q.registration.host_id) q)) h in
    (
      ap some e,
      ap
          (λ (x : HostRegisterRequest).
            asking_registration ∷ putting (host_url origin x.registration.host_id) x ∷ [])
          e,
      ap
            (λ (x : HostRegisterRequest).
              registered x (put_status (service (host_url origin x.registration.host_id) x)))
            (sym e)
          ∙ h,
    )

registered-ok :
    (reg : HostRegisterRequest) (answer : Option ℕ)
    → registered reg (put_status answer) ≡ ok reg
    → (taken : ℕ) × (answer ≡ some taken) × (taken < 400)
unfolding registered put_status
registered-ok reg none h = absurd (ground arith)
registered-ok reg (some status) h = (status, refl, ground arith)

-- The calls of register dial nothing.
dials-register :
    (origin : Bytes) (service : Bytes → HostRegisterRequest → Option ℕ)
    (heard_reg : Option HostRegisterRequest) (calls : List Call)
    → dials ((register_with origin service heard_reg).0 ++ calls) ≡ dials calls
unfolding register_with
dials-register origin service none calls = refl
dials-register origin service (some reg) calls = refl

module _ (origin : Bytes) (w : World) (url : Bytes) (auth : ConnectAuth) where
  session_with-Ready :
      (s : Option Status)
      → heard w.status ≡ s
      → dials (session_with origin w s).0 ≡ some (url, auth)
      → (r : Ready origin w url auth) × ((session_with origin w s).0
          ≡ five_calls origin r.reg url auth)
  unfolding session_with register
  session_with-Ready none hs h = absurd (ground arith)
  session_with-Ready (some s) hs h =
      let answer = heard w.registration in
      let r = register_with origin w.service answer in
      let (reg, e, a, u, c) =
        connect-dials origin w r.1 url auth (sym (dials-register origin w.service answer _) ∙ h) in
      let host = reg.registration.host_id in
      let (g, d, t) = register_with-ok origin w.service answer reg e in
      let (taken, p, l) = registered-ok reg (w.service (host_url origin host) reg) t in
      (
        record {
          state = s;
          heard_status = hs;
          reg = reg;
          heard_registration = g;
          taken = taken;
          answered_put = p;
          was_taken = l;
          heard_auth = a;
          dialled = u;
        },
        ap (λ x. asking_status ∷ (x ++ (connect origin w r.1).0)) d
            ∙ ap (λ x. asking_status ∷ asking_registration ∷ putting (host_url origin host) reg ∷ x)
                c,
      )

  pub session-Ready :
      dials (session origin w).0 ≡ some (url, auth)
      → (r : Ready origin w url auth) × ((session origin w).0 ≡ five_calls origin r.reg url auth)
  unfolding session
  session-Ready = session_with-Ready (heard w.status) refl

  pub Ready-session : Ready origin w url auth → dials (session origin w).0 ≡ some (url, auth)
  unfolding session session_with register register_with registered put_status connect dial_with
      serve
  Ready-session r = ground arith
