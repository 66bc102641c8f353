-- ===== src/Warden/KeyId.antt =====
-- go/warden/keyid.go: the label that the authority writes into each certificate, read back.
pub mod Laws
use grantd.Base.{
  Bool, true, false, not, ◌||◌, Option, none, some, List, [], ◌∷◌, Bytes, codes, eq_bytes,
  if◌then◌else◌,
}
use grantd.Std.Strings.{split}
use grantd.Protocol.Ids.{valid_grant_id, valid_agent_id}

-- None is ErrBadKeyID.
unfoldable pub parse_parts : List Bytes → Option (Bytes × Bytes)
parse_parts (label ∷ grant_id ∷ agent_id ∷ []) =
    if not (eq_bytes label (codes "grantd"))
    then none
    else if not (valid_grant_id grant_id) || not (valid_agent_id agent_id)
    then none
    else some (grant_id, agent_id)
parse_parts _ = none

unfoldable pub parse_key_id : Bytes → Option (Bytes × Bytes)
unfolding parse_parts
parse_key_id key_id = parse_parts (split b':' key_id)
