-- ===== src/Warden/Closing/Polls.antt =====
-- What one poll of the signer establishes of the grants that stay open.
use mathlib.Core.Path.{subst}
use mathlib.Core.Bool.{false≢true}
use grantd.Base.{
  ◌≡◌, ◌≢◌, refl, sym, ◌∙◌, Bool, true, false, ◌||◌, none, List, [], ◌∷◌, Bytes, ◌≤ℤ◌, ◌<ℤ◌, ◌⊎◌,
  inl, inr, Bool-cases, arith, All, eq_bytes, eq_bytes_iff,
}
use grantd.Warden.State.{
  GrantInfo, Answer, unknown, unreachable, known, Grant, Warden, Config, is_open, update_grant,
}
use grantd.Warden.State.Maps.{Fresh, Unique, All-update, Unique-map, Unique-update}
use grantd.Warden.Closing.{
  enforce_grant, enforce_deadlines, Reading, poll_grant, poll_one, open_ids, poll_ids, poll_signer,
  prune_grant, Round, run_round,
}
use grantd.Warden.Closing.Rounds.{All-imp, IfOpen, ending-IfOpen}
use grantd.Warden.Closing.Laws.{enforce_grant-KeepsId, poll_grant-KeepsId}

-- What the poll has established of a grant that stays open: that the signer could not be asked, or that
-- it knows the grant, neither revoked nor over, with a deadline that is not before the grant's.
abbrev pub Confirmed : (Bytes → Reading) → (Bytes → Answer) → Grant → Type 0
Confirmed clock signer g =
    (signer g.id ≡ unreachable)
    ⊎ ((info : GrantInfo) × (signer g.id ≡ known info)
        × (info.revoked_at ≡ none)
        × ((clock g.id).checked <ℤ info.expires_at)
        × (g.deadline ≤ℤ info.expires_at))

poll_answer-Confirmed :
    (at : Reading) (a : Answer) (g : Grant)
    → is_open (poll_grant at a g).state ≡ true
    → (a ≡ unreachable)
      ⊎ ((info : GrantInfo) × (a ≡ known info)
          × (info.revoked_at ≡ none)
          × (at.checked <ℤ info.expires_at)
          × ((poll_grant at a g).deadline ≤ℤ info.expires_at))
unfolding poll_grant
poll_answer-Confirmed at unknown g o = absurd (ground arith)
poll_answer-Confirmed at unreachable g o = inl refl
poll_answer-Confirmed at (known i) g o = inr (i, refl, ground arith, ground arith, ground arith)

pub elem : Bytes → List Bytes → Bool
elem id [] = false
elem id (x ∷ xs) = eq_bytes x id || elem id xs

poll_grant-open :
    (at : Reading) (a : Answer) (g : Grant)
    → is_open (poll_grant at a g).state ≡ true
    → is_open g.state ≡ true
unfolding poll_grant
poll_grant-open at unknown g o = ground arith
poll_grant-open at unreachable g o = ground arith
poll_grant-open at (known i) g o = ground arith

-- Of the grants with these ids, the open ones are confirmed.
abbrev Polled : (Bytes → Reading) → (Bytes → Answer) → List Bytes → Grant → Type 0
Polled clock signer ids g = is_open g.state ≡ true → elem g.id ids ≡ true → Confirmed clock signer g

poll_grant-Confirmed :
    (clock : Bytes → Reading) (signer : Bytes → Answer) (id : Bytes) (g : Grant)
    → g.id ≡ id
    → is_open (poll_grant (clock id) (signer id) g).state ≡ true
    → Confirmed clock signer (poll_grant (clock id) (signer id) g)
poll_grant-Confirmed clock signer id g e o =
    let same : (poll_grant (clock id) (signer id) g).id ≡ id =
      poll_grant-KeepsId (clock id) (signer id) g ∙ e in
    rw same (poll_answer-Confirmed (clock id) (signer id) g o)

elem-other :
    (id x : Bytes) (ids : List Bytes) → x ≢ id → elem id (x ∷ ids) ≡ true → elem id ids ≡ true
unfolding elem
elem-other id x ids n h = ground (arith, eq_bytes_iff x id)

Fresh-Polled :
    (clock : Bytes → Reading) (signer : Bytes → Answer) (id : Bytes) (ids : List Bytes)
    (gs : List Grant)
    → Fresh id gs
    → All (Polled clock signer ids) gs
    → All (Polled clock signer (id ∷ ids)) gs
Fresh-Polled clock signer id ids [] f a = tt
Fresh-Polled clock signer id ids (g ∷ gs) f a = (
  λ o m. a.0 o (elem-other g.id id ids (λ q. f.0 (sym q)) m),
  Fresh-Polled clock signer id ids gs f.1 a.1,
)

poll_one-Polled :
    (clock : Bytes → Reading) (signer : Bytes → Answer) (id : Bytes) (ids : List Bytes)
    (gs : List Grant)
    → Unique gs
    → All (Polled clock signer ids) gs
    → All (Polled clock signer (id ∷ ids)) (update_grant id (poll_grant (clock id) (signer id)) gs)
unfolding update_grant
poll_one-Polled clock signer id ids [] u a = tt
poll_one-Polled clock signer id ids (g ∷ gs) u a = elim (Bool-cases (eq_bytes g.id id)) [
  | inl e ↦
      (let same = (eq_bytes_iff g.id id).0 e in
        rw e (
          λ o m. poll_grant-Confirmed clock signer id g same o,
          Fresh-Polled clock signer id ids gs (rw same at u.0) a.1,
        ))
  | inr e ↦
      (let other : id ≢ g.id = λ q. ground (arith, eq_bytes_iff g.id id) in
        rw e (
          λ o m. a.0 o (elem-other g.id id ids other m),
          poll_one-Polled clock signer id ids gs u.1 a.1,
        ))
]

All-both :
    {A : Type 0} (P Q R : A → Type 0) (gs : List A)
    → ((g : A) → P g → Q g → R g)
    → All P gs
    → All Q gs
    → All R gs
All-both P Q R [] h a b = tt
All-both P Q R (g ∷ gs) h a b = (h g a.0 b.0, All-both P Q R gs h a.1 b.1)

All-none :
    (clock : Bytes → Reading) (signer : Bytes → Answer) (gs : List Grant)
    → All (Polled clock signer []) gs
unfolding elem
All-none clock signer [] = tt
All-none clock signer (g ∷ gs) = ((λ o m. absurd (false≢true m)), All-none clock signer gs)

swap_or : (a b c : Bool) → ((a || b) || c) ≡ true → (b || (a || c)) ≡ true
swap_or a b c h = ground arith

poll_ids-Polled :
    (clock : Bytes → Reading) (signer : Bytes → Answer) (ids done : List Bytes) (w : Warden)
    → Unique w.grants
    → All (Polled clock signer done) w.grants
    → All
        (λ g.
          is_open g.state ≡ true
          → (elem g.id ids || elem g.id done) ≡ true
          → Confirmed clock signer g)
        (poll_ids clock signer ids w).grants
unfolding poll_ids poll_one elem
poll_ids-Polled clock signer [] done w u a = a
poll_ids-Polled clock signer (id ∷ ids) done w u a =
    All-imp _ _ _ (λ g h o m. h o (swap_or (eq_bytes id g.id) (elem g.id ids) (elem g.id done) m))
      (poll_ids-Polled clock signer ids (id ∷ done) (poll_one (clock id) (signer id) id w)
        (Unique-update id (poll_grant (clock id) (signer id)) w.grants
          (poll_grant-KeepsId (clock id) (signer id)) u)
        (poll_one-Polled clock signer id done w.grants u a))

-- An open grant is one of those that were open before, and those are polled.
abbrev Listed : List Bytes → Grant → Type 0
Listed ids g = is_open g.state ≡ true → elem g.id ids ≡ true

open_ids-open :
    (g : Grant) (gs : List Grant) → is_open g.state ≡ true → g.id ∷ open_ids gs ≡ open_ids (g ∷ gs)
unfolding open_ids
open_ids-open g gs e = rw e refl

open_ids-not_open :
    (g : Grant) (gs : List Grant) → is_open g.state ≡ false → open_ids gs ≡ open_ids (g ∷ gs)
unfolding open_ids
open_ids-not_open g gs e = rw e refl

open_ids-Listed : (gs : List Grant) → All (Listed (open_ids gs)) gs
unfolding elem
open_ids-Listed [] = tt
open_ids-Listed (g ∷ gs) = elim (Bool-cases (is_open g.state)) [
  | inl e ↦
      subst (λ ids. All (Listed ids) (g ∷ gs)) (open_ids-open g gs e)
        (
          λ o. ground (arith, eq_bytes_iff g.id g.id),
          All-imp _ _ gs (λ h l o. ground (arith, l o)) (open_ids-Listed gs),
        )
  | inr e ↦
      subst (λ ids. All (Listed ids) (g ∷ gs)) (open_ids-not_open g gs e)
        ((λ o. absurd (false≢true (sym e ∙ o))), open_ids-Listed gs)
]

poll_ids-Listed :
    (clock : Bytes → Reading) (signer : Bytes → Answer) (ids all : List Bytes) (w : Warden)
    → All (Listed all) w.grants
    → All (Listed all) (poll_ids clock signer ids w).grants
unfolding poll_ids poll_one
poll_ids-Listed clock signer [] all w a = a
poll_ids-Listed clock signer (id ∷ ids) all w a =
    poll_ids-Listed clock signer ids all (poll_one (clock id) (signer id) id w) (
      All-update (Listed all) id (poll_grant (clock id) (signer id)) w.grants
        (λ g l o.
          rw (poll_grant-KeepsId (clock id) (signer id) g)
            (l (poll_grant-open (clock id) (signer id) g o)))
        a)

poll_signer-Confirmed :
    (clock : Bytes → Reading) (signer : Bytes → Answer) (w : Warden)
    → Unique w.grants
    → All (IfOpen (Confirmed clock signer)) (poll_signer clock signer w).grants
unfolding poll_signer
poll_signer-Confirmed clock signer w u =
    let ids = open_ids w.grants in
    All-both _ _ _ (poll_ids clock signer ids w).grants (λ g l h o. h o (rw (l o) refl))
      (poll_ids-Listed clock signer ids ids w (open_ids-Listed w.grants))
      (poll_ids-Polled clock signer ids [] w u (All-none clock signer w.grants))

-- After a round of the loop that polls, each grant that is still open is one that the signer knows,
-- neither revoked nor over when it was asked, with a deadline that is not before the grant's; or one
-- that the signer could not be asked about. One that it does not know, or that was revoked, is closing.
pub run_round-Confirmed :
    (cfg : Config) (r : Round) (w : Warden)
    → Unique w.grants
    → r.poll_due ≡ true
    → All (IfOpen (Confirmed r.clock r.signer)) (run_round cfg r w).grants
unfolding run_round enforce_deadlines
run_round-Confirmed cfg r w u due =
    let w1 = enforce_deadlines r.unix r.mono w in
    rw due (
      ending-IfOpen (Confirmed r.clock r.signer) cfg r (poll_signer r.clock r.signer w1)
        (λ p g h. unfold prune_grant in h)
        (poll_signer-Confirmed r.clock r.signer w1 (
          Unique-map (enforce_grant r.unix r.mono) w.grants (enforce_grant-KeepsId r.unix r.mono)
            u)))
