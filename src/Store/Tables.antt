-- ===== src/Store/Tables.antt =====
-- The schema of go/signer/store/store.go as records and lists, and how a statement fails. A call
-- takes an `Io`, which says of each SQL statement of the file whether the database fails it; a
-- statement that fails, on that account or by a constraint, changes nothing.
use grantd.Base.{
  ℕ, Bool, true, false, Option, none, some, List, [], ◌∷◌, Bytes, Result, Int64, eq_bytes,
  if◌then◌else◌,
}
use grantd.Protocol.Messages

pub data Statement : Type 0 where
  upsert_host select_host : Statement
  insert_grant update_published select_pending select_grants select_grant : Statement
  update_revoked delete_grants delete_nonces : Statement
  prune_nonces insert_nonce : Statement
  begin_immediate select_claimed update_redeemed commit : Statement
  insert_certificate select_serial count_certificates count_active : Statement

abbrev pub Io : Type 0
Io = Statement → Bool

-- A database that fails nothing.
abbrev pub working : Io
working s = false

pub data Error : Type 0 where
  no_host grant_not_found nonce_replay : Error
  failed : Statement → Error
  constraint : Statement → Error
  proof_error : Messages.Error → Error

pub record HostRow : Type 0 where
  pub host_id : Bytes
  pub ssh_user : Bytes
  pub hostname : Bytes
  pub ssh_port : ℕ
  pub created_at : Int64
  pub ssh_host_public_key : Bytes

-- A column that may be NULL is an Option.
pub record GrantRow : Type 0 where
  pub id : Bytes
  pub secret : Bytes
  pub ssh_user : Bytes
  pub created_at : Int64
  pub expires_at : Int64
  pub redeemed_at : Option Int64
  pub revoked_at : Option Int64
  pub redeemed_agent_id : Option Bytes
  pub redeemed_key_fp : Option Bytes
  pub published_at : Option Int64

pub record CertificateRow : Type 0 where
  pub serial : Int64
  pub grant_id : Bytes
  pub agent_id : Bytes
  pub key_fp : Bytes
  pub certificate : Bytes
  pub valid_after : Int64
  pub valid_before : Int64
  pub created_at : Int64

pub record NonceRow : Type 0 where
  pub scope : Bytes
  pub nonce : Bytes
  pub seen_at : Int64

-- The table `host` has one row at most, by its CHECK.
pub record Db : Type 0 where
  pub host : Option HostRow
  pub grants : List GrantRow
  pub certificates : List CertificateRow
  pub nonces : List NonceRow

abbrev pub empty_db : Db
empty_db = record { host = none; grants = []; certificates = []; nonces = [] }

-- What a call returns, beside the database that it leaves.
abbrev pub Outcome : Type 0 → Type 0
Outcome A = Result Error A × Db

abbrev pub is_some {ℓ} : {A : Type ℓ} → Option A → Bool
is_some none = false
is_some (some a) = true

-- SELECT … WHERE id = ?, and UPDATE … WHERE a test holds, and DELETE.
unfoldable pub find_grant : Bytes → List GrantRow → Option GrantRow
find_grant id [] = none
find_grant id (g ∷ gs) = if eq_bytes g.id id then some g else find_grant id gs

unfoldable pub update_where :
    (GrantRow → Bool) → (GrantRow → GrantRow) → List GrantRow → List GrantRow
update_where p f [] = []
update_where p f (g ∷ gs) = (if p g then f g else g) ∷ update_where p f gs

unfoldable pub any_row {ℓ} : {A : Type ℓ} → (A → Bool) → List A → Bool
any_row p [] = false
any_row p (a ∷ as') = if p a then true else any_row p as'

unfoldable pub keep_where {ℓ} : {A : Type ℓ} → (A → Bool) → List A → List A
keep_where p [] = []
keep_where p (a ∷ as') = let rest = keep_where p as' in if p a then a ∷ rest else rest
