-- ===== src/Store/Certificates/Laws.antt =====
-- The first certificate that is recorded for a grant is the one that is read back.
use grantd.Base.{◌≡◌, refl, false, none, some, List, [], ◌∷◌, ◌++◌, Bytes, ok, arith, eq_bytes_iff}
use grantd.Store.Tables.{Io, CertificateRow, Db, any_row}
use grantd.Store.Certificates.{for_grant, record_certificate, find_certificate}

any_row-none :
    (id : Bytes) (cs : List CertificateRow)
    → find_certificate id cs ≡ none
    → any_row (for_grant id) cs ≡ false
unfolding find_certificate any_row for_grant
any_row-none id [] h = refl
any_row-none id (c ∷ cs) h = ground (arith, any_row-none id cs)

find-append :
    (row : CertificateRow) (cs : List CertificateRow)
    → find_certificate row.grant_id cs ≡ none
    → find_certificate row.grant_id (cs ++ row ∷ []) ≡ some row
unfolding find_certificate
find-append row [] h = ground (arith, eq_bytes_iff row.grant_id row.grant_id)
find-append row (c ∷ cs) h = ground (arith, find-append row cs)

pub record_certificate-first :
    (io : Io) (row : CertificateRow) (db db' : Db)
    → record_certificate io row db ≡ (ok tt, db')
    → find_certificate row.grant_id db.certificates ≡ none
    → find_certificate row.grant_id db'.certificates ≡ some row
unfolding record_certificate
record_certificate-first io row db db' h n =
    ground (arith, any_row-none row.grant_id db.certificates n, find-append row db.certificates n)
