-- ===== src/Store/Host/Laws.antt =====
-- The row of the host after SetHost.
use grantd.Base.{◌≡◌, refl, Option, none, some, ok, arith}
use grantd.Store.Tables.{Io, HostRow, Db}
use grantd.Store.Host.{upserted, set_host, host}

-- The same enrollment, made at another time maybe.
pub record Enrolls (h row : HostRow) : Type 0 where
  pub id : row.host_id ≡ h.host_id
  pub user : row.ssh_user ≡ h.ssh_user
  pub named : row.hostname ≡ h.hostname
  pub port : row.ssh_port ≡ h.ssh_port
  pub key : row.ssh_host_public_key ≡ h.ssh_host_public_key

upserted-Enrolls : (old : Option HostRow) (h : HostRow) → Enrolls h (upserted old h)
unfolding upserted
upserted-Enrolls none h = record { id = refl; user = refl; named = refl; port = refl; key = refl }
upserted-Enrolls (some o) h = record {
  id = refl;
  user = refl;
  named = refl;
  port = refl;
  key = refl;
}

-- After SetHost the row is there, with every column of the one given but the time.
pub set_host-ok :
    (io : Io) (h : HostRow) (db db' : Db)
    → set_host io h db ≡ (ok tt, db')
    → (row : HostRow) × (db'.host ≡ some row) × Enrolls h row
unfolding set_host
set_host-ok io h db db' e = (upserted db.host h, ground arith, upserted-Enrolls db.host h)

pub host-ok : (io : Io) (db : Db) (h : HostRow) → host io db ≡ ok h → db.host ≡ some h
unfolding host
host-ok io db h e = ground arith
