-- ===== src/Store/Certificates.antt =====
-- go/signer/store/store.go: RecordCertificate and the reads of the table.
pub mod Laws
use grantd.Base.{
  ℕ, Bool, ◌&&◌, Option, none, some, List, [], ◌∷◌, ◌++◌, Bytes, Int64, Result, ok, err, eq_bytes,
  if◌then◌else◌, length, bits64, leb_ℤ,
}
use grantd.Store.Tables.{
  Io, insert_certificate, select_serial, count_certificates, Error, failed, constraint,
  CertificateRow, Db, Outcome, any_row,
}

unfoldable pub for_grant : Bytes → CertificateRow → Bool
for_grant id c = eq_bytes c.grant_id id

unfoldable pub has_serial : Int64 → CertificateRow → Bool
has_serial serial c = leb_ℤ c.serial serial && leb_ℤ serial c.serial

-- ON CONFLICT(grant_id) DO NOTHING; a serial that is taken breaks the primary key.
unfoldable pub record_certificate : Io → CertificateRow → Db → Outcome (Unit {0})
unfolding for_grant has_serial
record_certificate io row db =
    if io insert_certificate
    then (err (failed insert_certificate), db)
    else if any_row (for_grant row.grant_id) db.certificates
    then (ok tt, db)
    else if any_row (has_serial row.serial) db.certificates
    then (err (constraint insert_certificate), db)
    else (ok tt, record db { certificates = db.certificates ++ row ∷ [] })

unfoldable pub find_certificate : Bytes → List CertificateRow → Option CertificateRow
find_certificate id [] = none
find_certificate id (c ∷ cs) = if eq_bytes c.grant_id id then some c else find_certificate id cs

unfoldable pub serial_of : Option CertificateRow → Option ℕ
serial_of none = none
serial_of (some c) = some (bits64 c.serial)

-- `uint64(v)` and whether there is a certificate: none is `ok == false`.
unfoldable pub certificate_serial : Io → Bytes → Db → Result Error (Option ℕ)
unfolding serial_of
certificate_serial io id db =
    if io select_serial
    then err (failed select_serial)
    else ok (serial_of (find_certificate id db.certificates))

unfoldable pub certificate_count : Io → Db → Result Error ℕ
certificate_count io db =
    if io count_certificates then err (failed count_certificates) else ok (length db.certificates)
