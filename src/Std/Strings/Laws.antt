-- ===== src/Std/Strings/Laws.antt =====
-- Joining what Split cuts gives the text back.
use grantd.Base.{ℕ, ◌≡◌, refl, List, [], ◌∷◌, ◌++◌, Bytes, arith, ◌≢◌, All, ==_iff}
use grantd.Std.Strings.{split, cons_head}

-- strings.Join(words, sep) at one byte.
unfoldable pub join : ℕ → List Bytes → Bytes
join sep [] = []
join sep (w ∷ []) = w
join sep (w ∷ v ∷ ws) = w ++ (sep ∷ join sep (v ∷ ws))

join-cons_head : (sep c : ℕ) (ws : List Bytes) → join sep (cons_head c ws) ≡ c ∷ join sep ws
unfolding join cons_head
join-cons_head sep c [] = refl
join-cons_head sep c (w ∷ []) = refl
join-cons_head sep c (w ∷ v ∷ ws) = refl

cons_head-ne-nil : (c : ℕ) (ws : List Bytes) → cons_head c ws ≢ []
unfolding cons_head
cons_head-ne-nil c [] h = cc
cons_head-ne-nil c (w ∷ ws) h = cc

split-ne-nil : (sep : ℕ) (s : Bytes) → split sep s ≢ []
unfolding split
split-ne-nil sep [] h = cc
split-ne-nil sep (c ∷ cs) h = ground (arith, cons_head-ne-nil c (split sep cs))

join-empty_head : (sep : ℕ) (ws : List Bytes) → ws ≢ [] → join sep ([] ∷ ws) ≡ sep ∷ join sep ws
unfolding join
join-empty_head sep [] h = absurd (h refl)
join-empty_head sep (w ∷ ws) h = refl

pub join-split : (sep : ℕ) (s : Bytes) → join sep (split sep s) ≡ s
unfolding split
join-split sep [] = unfold join in refl
join-split sep (c ∷ cs) = ground (
  arith,
  join-split sep cs,
  join-empty_head sep (split sep cs) (split-ne-nil sep cs),
  join-cons_head sep c (split sep cs),
  ==_iff c sep,
)

-- A word without the separator is cut off whole.
pub split-word :
    (sep : ℕ) (w rest : Bytes)
    → All (λ c. c ≢ sep) w
    → split sep (w ++ (sep ∷ rest)) ≡ w ∷ split sep rest
unfolding split cons_head
split-word sep [] rest h = ground arith
split-word sep (c ∷ w) rest h = rw (split-word sep w rest h.1) (ground (arith, ==_iff c sep, h.0))

pub split-last : (sep : ℕ) (w : Bytes) → All (λ c. c ≢ sep) w → split sep w ≡ w ∷ []
unfolding split cons_head
split-last sep [] h = refl
split-last sep (c ∷ w) h = rw (split-last sep w h.1) (ground (arith, ==_iff c sep, h.0))
