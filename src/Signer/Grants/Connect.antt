-- ===== src/Signer/Grants/Connect.antt =====
-- What SignConnect of go/signer/signer.go signs.
use grantd.Base.{◌≡◌, sym, ap, ◌∙◌, Option, some, Bytes, Int64, ok, arith, >>=-eq-ok}
use grantd.Std.Base64.{url_alphabet, encode_raw}
use grantd.Crypto.{Crypto}
use grantd.Protocol.Ids.{version}
use grantd.Protocol.Messages.{HostConnect, canonical_host_connect}
use grantd.Store.Tables.{Io, HostRow, Db}
use grantd.Store.Host.{host}
use grantd.Store.Host.Laws.{host-ok}
use grantd.Signer.Redeem.{Keys}
use grantd.Signer.Grants.{ConnectAuth, or_fail, present, sign_connect}
use grantd.Signer.Grants.Laws.{or_fail-ok}

-- The message that a header stands for.
abbrev pub connect_of : ConnectAuth → Bytes → HostConnect
connect_of a nonce = record {
  version = version;
  host_id = a.host_id;
  path = a.path;
  timestamp = a.timestamp;
  nonce = nonce;
}

module _ (c : Crypto) where
  -- A header names the host of the database and the path, and is signed by the identity key.
  pub record Connects (k : Keys) (asked : Bytes) (db : Db) (a : ConnectAuth) (h : HostRow)
      : Type 0 where
    pub enrolled : db.host ≡ some h
    pub id : a.host_id ≡ h.host_id
    pub path : a.path ≡ asked
    pub raw : Bytes
    pub nonce : a.nonce ≡ encode_raw url_alphabet raw
    pub message : Bytes
    pub message_signed : canonical_host_connect (connect_of a raw) ≡ ok message
    pub signed : a.signature ≡ encode_raw url_alphabet (c.sign k.identity message)

  pub sign_connect-ok :
      (io : Io) (k : Keys) (now : Int64) (random : Option Bytes) (path : Bytes) (db : Db)
      (a : ConnectAuth)
      → sign_connect c io k now random path db ≡ ok a
      → (h : HostRow) × Connects k path db a h
  unfolding sign_connect
  sign_connect-ok io k now random path db a e =
      let (h, a1, e1) = >>=-eq-ok (or_fail (host io db) _) _ e in
      let (nonce, a2, e2) = >>=-eq-ok (present random _) _ e1 in
      let m : HostConnect = record {
        version = version;
        host_id = h.host_id;
        path = path;
        timestamp = now;
        nonce = nonce;
      } in
      let (msg, a3, e3) = >>=-eq-ok (or_fail (canonical_host_connect m) _) _ e2 in
      let same : m ≡ connect_of a nonce = ground arith in
      (
        h,
        record {
          enrolled = host-ok io db h (or_fail-ok _ _ a1);
          id = sym (ap (λ (x : HostConnect). x.host_id) same);
          path = sym (ap (λ (x : HostConnect). x.path) same);
          raw = nonce;
          nonce = ground arith;
          message = msg;
          message_signed = ap canonical_host_connect (sym same) ∙ or_fail-ok _ _ a3;
          signed = ground arith;
        },
      )
