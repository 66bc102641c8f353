-- ===== src/Store/Host.antt =====
-- go/signer/store/store.go: SetHost and Host.
pub mod Laws
use grantd.Base.{Option, none, some, Result, ok, err, if◌then◌else◌}
use grantd.Store.Tables.{Io, upsert_host, select_host, Error, no_host, failed, HostRow, Db, Outcome}

-- ON CONFLICT(rowid_guard) DO UPDATE sets every column but created_at.
pub upserted : Option HostRow → HostRow → HostRow
upserted none h = h
upserted (some old) h = record h { created_at = old.created_at }

unfoldable pub set_host : Io → HostRow → Db → Outcome (Unit {0})
unfolding upserted
set_host io h db =
    if io upsert_host
    then (err (failed upsert_host), db)
    else (ok tt, record db { host = some (upserted db.host h) })

host_row : Option HostRow → Result Error HostRow
host_row none = err no_host
host_row (some h) = ok h

unfoldable pub host : Io → Db → Result Error HostRow
unfolding host_row
host io db = if io select_host then err (failed select_host) else host_row db.host
