-- ===== src/Daemon/Publishing/Laws.antt =====
-- What is marked as published.
use grantd.Base.{
  ℕ, ◌≡◌, refl, ap, ◌∙◌, Bool, true, false, not, Option, none, some, List, [], ◌∷◌, map, Bytes, leb,
  arith, Bool-cases, inl, inr, if◌then◌else◌,
}
use grantd.Protocol.Envelopes.{GrantPublishRequest}
use grantd.Daemon.Publishing.{put_status, publish_url, publish_pass}

-- The statuses for which the pass goes on, and those for which the grant is marked.
abbrev pub delivered : Option ℕ → Bool
delivered none = false
delivered (some status) = not (leb 500 status)

abbrev pub accepted : Option ℕ → Bool
accepted none = false
accepted (some status) = not (leb 400 status)

abbrev pub take_while : {A : Type 0} → (A → Bool) → List A → List A
take_while p [] = []
take_while p (x ∷ xs) = if p x then x ∷ take_while p xs else []

abbrev pub filter_by : {A : Type 0} → (A → Bool) → List A → List A
filter_by p [] = []
filter_by p (x ∷ xs) = if p x then x ∷ filter_by p xs else filter_by p xs

-- What the pass does about one grant, by the two tests of its answer.
abbrev chosen : Bool → Bool → Bytes → List Bytes → List Bytes
chosen goes_on takes id rest = if goes_on then (if takes then id ∷ rest else rest) else []

put_status-chosen :
    (status : Option ℕ) (id : Bytes) (rest : List Bytes)
    → (elim (put_status status) as (λ x. List Bytes) [
      | none ↦ []
      | some s ↦ if leb 400 s then rest else id ∷ rest
    ])
      ≡ chosen (delivered status) (accepted status) id rest
unfolding put_status
put_status-chosen none id rest = refl
put_status-chosen (some status) id rest = ground arith

abbrev grant_id : GrantPublishRequest → Bytes
grant_id p = p.grant.grant_id

filter_by-chosen :
    (goes_on : Bool) (takes : GrantPublishRequest → Bool) (p : GrantPublishRequest)
    (ps : List GrantPublishRequest)
    → chosen goes_on (takes p) (grant_id p) (map grant_id (filter_by takes ps))
      ≡ map grant_id (filter_by takes (if goes_on then p ∷ ps else []))
filter_by-chosen true takes p ps = elim (Bool-cases (takes p)) [
  | inl e ↦ rw e refl
  | inr e ↦ rw e refl
]
filter_by-chosen false takes p ps = refl

-- One pass of the loop marks as published those grants that the service answered with a status below
-- 400, up to the first that it did not answer or answered with a status of 500 or more: no grant is
-- marked that the service did not take, and one that it rejects does not hold up those behind it.
pub publish_pass-eq :
    (service : Bytes → GrantPublishRequest → Option ℕ) (origin host_id : Bytes)
    (ps : List GrantPublishRequest)
    → publish_pass service origin host_id ps
      ≡ map
          (λ (p : GrantPublishRequest). p.grant.grant_id)
          (filter_by
            (λ p. accepted (service (publish_url origin host_id p) p))
            (take_while (λ p. delivered (service (publish_url origin host_id p) p)) ps))
unfolding publish_pass put_status
publish_pass-eq service origin host_id [] = refl
publish_pass-eq service origin host_id (p ∷ ps) =
    let answer = service (publish_url origin host_id p) p in
    put_status-chosen answer (grant_id p) (publish_pass service origin host_id ps)
    ∙ ap (chosen (delivered answer) (accepted answer) (grant_id p))
        (publish_pass-eq service origin host_id ps)
    ∙ filter_by-chosen (delivered answer) (λ q. accepted (service (publish_url origin host_id q) q))
        p _
