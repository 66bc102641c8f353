-- ===== src/Warden/Units.antt =====
-- go/warden/warden.go: the names of the systemd units and the cgroups of a grant, and how a restarted
-- warden reads the grants' ids back from them. The children of the parent slice's cgroup are an
-- argument, and `decimal` is fmt's %d.
pub mod Laws
use grantd.Base.{
  ℕ, Bool, true, false, not, ◌||◌, Option, none, some, List, [], ◌∷◌, ◌++◌, Bytes, codes,
  if◌then◌else◌,
}
use grantd.Std.Strings.{has_prefix, has_suffix, trim_prefix, trim_suffix}
use grantd.Protocol.Ids.{valid_grant_id}

-- strings.TrimSuffix(w.cfg.Slice, ".slice")
unfoldable pub stem : Bytes → Bytes
unfolding trim_suffix
stem slice = trim_suffix slice (codes ".slice")

unfoldable pub slice_unit : Bytes → Bytes → Bytes
unfolding stem
slice_unit slice id = stem slice ++ (codes "-" ++ (id ++ codes ".slice"))

unfoldable pub slice_cgroup : Bytes → Bytes → Bytes
unfolding slice_unit
slice_cgroup slice id = codes "/" ++ (slice ++ (codes "/" ++ slice_unit slice id))

unfoldable pub scope_unit : (ℕ → Bytes) → Bytes → Bytes → ℕ → Bytes
unfolding stem
scope_unit decimal slice id pid =
    stem slice ++ (codes "-" ++ (id ++ (codes "-" ++ (decimal pid ++ codes ".scope"))))

-- What Attach wants the process's cgroup to be.
unfoldable pub scope_cgroup : (ℕ → Bytes) → Bytes → Bytes → ℕ → Bytes
unfolding slice_cgroup scope_unit
scope_cgroup decimal slice id pid =
    slice_cgroup slice id ++ (codes "/" ++ scope_unit decimal slice id pid)

-- The body of the loop of discoverGrantIDs.
unfoldable pub grant_within : Bytes → Bytes → Option Bytes
unfolding has_prefix has_suffix trim_prefix trim_suffix
grant_within prefix name =
    let id = trim_suffix (trim_prefix name prefix) (codes ".slice") in
    if not (has_prefix name prefix) || not (has_suffix name (codes ".slice"))
    then none
    else if valid_grant_id id
    then some id
    else none

unfoldable pub grant_of_unit : Bytes → Bytes → Option Bytes
unfolding stem grant_within
grant_of_unit slice name = grant_within (stem slice ++ codes "-") name

unfoldable pub add_id : Option Bytes → List Bytes → List Bytes
add_id none ids = ids
add_id (some id) ids = id ∷ ids

unfoldable pub grants_of_units : Bytes → List Bytes → List Bytes
unfolding grant_of_unit add_id
grants_of_units slice [] = []
grants_of_units slice (name ∷ names) =
    add_id (grant_of_unit slice name) (grants_of_units slice names)

-- `none` where the cgroup cannot be listed.
unfoldable pub discover_grant_ids : Bytes → Option (List Bytes) → List Bytes
unfolding grants_of_units
discover_grant_ids slice none = []
discover_grant_ids slice (some names) = grants_of_units slice names
