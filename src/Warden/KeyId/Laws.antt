-- ===== src/Warden/KeyId/Laws.antt =====
-- The warden reads exactly the labels that the authority writes.
use grantd.Base.{
  ◌↔◌, ℕ, ◌≡◌, ◌≢◌, sym, ap, ◌∙◌, true, some, List, [], ◌∷◌, ◌++◌, Bytes, codes, arith, All,
  eq_bytes_iff, ==_iff,
}
use grantd.Std.Base32.{is_b32_char, all_b32}
use grantd.Std.Strings.{split}
use grantd.Std.Strings.Laws.{join, join-split, split-word, split-last}
use grantd.Protocol.Ids.{matches_id, valid_grant_id, valid_agent_id}
use grantd.SshCert.{key_id}
use grantd.Warden.KeyId.{parse_parts, parse_key_id}

NoColon : ℕ → Type 0
NoColon c = c ≢ b':'

all_b32-NoColon : (cs : Bytes) → all_b32 cs ≡ true → All NoColon cs
unfolding all_b32 NoColon is_b32_char
all_b32-NoColon [] h = tt
all_b32-NoColon (c ∷ cs) h = (ground arith, all_b32-NoColon cs (ground arith))

matches_id-NoColon : (p n : ℕ) (id : Bytes) → p ≢ b':' → matches_id p n id ≡ true → All NoColon id
unfolding matches_id NoColon
matches_id-NoColon p n [] d h = tt
matches_id-NoColon p n (x ∷ []) d h = absurd (ground arith)
matches_id-NoColon p n (x ∷ y ∷ label) d h = (
  ground (arith, ==_iff x p),
  (ground (arith, ==_iff y b'_'), all_b32-NoColon label (ground arith)),
)

split-key_id :
    (grant_id agent_id : Bytes)
    → All NoColon grant_id
    → All NoColon agent_id
    → split b':' (key_id grant_id agent_id) ≡ codes "grantd" ∷ grant_id ∷ agent_id ∷ []
unfolding key_id NoColon
split-key_id grant_id agent_id g a =
    split-word b':' (codes "grantd") (grant_id ++ (b':' ∷ agent_id)) (ground arith)
    ∙ ap (λ (ws : List Bytes). codes "grantd" ∷ ws)
        (split-word b':' grant_id agent_id g
          ∙ ap (λ (ws : List Bytes). grant_id ∷ ws) (split-last b':' agent_id a))

-- The label of a well-formed grant id and a well-formed agent id is read back as those two.
pub parse_key_id-key_id :
    (grant_id agent_id : Bytes)
    → valid_grant_id grant_id ≡ true
    → valid_agent_id agent_id ≡ true
    → parse_key_id (key_id grant_id agent_id) ≡ some (grant_id, agent_id)
unfolding parse_key_id parse_parts valid_grant_id valid_agent_id
parse_key_id-key_id grant_id agent_id g a =
    let e =
      split-key_id grant_id agent_id (matches_id-NoColon b'g' 16 grant_id (omega arith) g)
        (matches_id-NoColon b'a' 32 agent_id (omega arith) a) in
    ap parse_parts e ∙ ground (arith, eq_bytes_iff (codes "grantd") (codes "grantd"))

parse_parts-some :
    (parts : List Bytes) (grant_id agent_id : Bytes)
    → parse_parts parts ≡ some (grant_id, agent_id)
    → (parts ≡ codes "grantd" ∷ grant_id ∷ agent_id ∷ [])
      × (valid_grant_id grant_id ≡ true)
      × (valid_agent_id agent_id ≡ true)
unfolding parse_parts
parse_parts-some [] g a h = cc
parse_parts-some (l ∷ []) g a h = cc
parse_parts-some (l ∷ x ∷ []) g a h = cc
parse_parts-some (l ∷ x ∷ y ∷ []) g a h = ground (arith, eq_bytes_iff l (codes "grantd"))
parse_parts-some (l ∷ x ∷ y ∷ z ∷ r) g a h = cc

-- A label that is read is the one that the authority writes for the two ids, which are well formed.
pub parse_key_id_sound :
    (label grant_id agent_id : Bytes)
    → parse_key_id label ≡ some (grant_id, agent_id)
    → (label ≡ key_id grant_id agent_id)
      × (valid_grant_id grant_id ≡ true)
      × (valid_agent_id agent_id ≡ true)
unfolding parse_key_id key_id join
parse_key_id_sound label grant_id agent_id h =
    let (e, g, a) = parse_parts-some (split b':' label) grant_id agent_id h in
    (sym (join-split b':' label) ∙ ap (join b':') e, g, a)

-- The warden reads a grant id and an agent id from a label exactly when it is the label that the
-- certificate authority writes for them and both are well formed.
pub parse_key_id_iff :
    (label grant_id agent_id : Bytes)
    → (parse_key_id label ≡ some (grant_id, agent_id)) ↔ (
        (label ≡ key_id grant_id agent_id)
        × (valid_grant_id grant_id ≡ true)
        × (valid_agent_id agent_id ≡ true))
parse_key_id_iff label grant_id agent_id = (
  parse_key_id_sound label grant_id agent_id,
  λ h. ap parse_key_id h.0 ∙ parse_key_id-key_id grant_id agent_id h.1 h.2,
)
