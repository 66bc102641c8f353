-- ===== src/Protocol/Validate/Laws.antt =====
-- What the validation accepts, in terms of the integers and bytes themselves.
use grantd.Base.{
  ◌↔◌, ℕ, ◌+◌, ◌^◌, ◌<◌, ◌≡◌, ◌&&◌, ◌||◌, ok, Int64, pos, negsuc, IsInt64, ◌≤ℤ◌, ◌+ℤ◌, arith, leb,
  ◌==◌, sub64, neg64,
}
use grantd.Protocol.Validate.{validate_grant_window, within_skew}

-- A window that is accepted runs from 60 to 28800 seconds, counted in the integers: the wrapping
-- subtraction of the test accepts no other one.
pub validate_grant_window_sound :
    (created expires : Int64)
    → IsInt64 created
    → IsInt64 expires
    → validate_grant_window created expires ≡ ok tt
    → (created +ℤ pos 60 ≤ℤ expires) × (expires ≤ℤ created +ℤ pos 28800)
unfolding validate_grant_window sub64 ◌+ℤ◌
validate_grant_window_sound created expires hc he h = ground arith

-- A window that the integers put between 60 and 28800 seconds is accepted.
pub validate_grant_window_complete :
    (created expires : Int64)
    → IsInt64 created
    → IsInt64 expires
    → created +ℤ pos 60 ≤ℤ expires
    → expires ≤ℤ created +ℤ pos 28800
    → validate_grant_window created expires ≡ ok tt
unfolding validate_grant_window sub64 ◌+ℤ◌
validate_grant_window_complete created expires hc he h k = ground arith

-- For times in an int64, a window is accepted exactly when it is 60 to 28800 seconds long, as integers:
-- the difference that the code takes in 64 bits never lets a longer one through by wrapping around.
pub validate_grant_window_iff :
    (created expires : Int64)
    → IsInt64 created
    → IsInt64 expires
    → (validate_grant_window created expires ≡ ok tt)
      ↔ ((created +ℤ pos 60 ≤ℤ expires) × (expires ≤ℤ created +ℤ pos 28800))
validate_grant_window_iff created expires hc he = (
  validate_grant_window_sound created expires hc he,
  λ h. validate_grant_window_complete created expires hc he h.0 h.1,
)

-- For times that are not negative the test is exact: it holds when neither time is more than the skew
-- after the other.
pub within_skew_exact :
    (now ts skew : ℕ)
    → now < 2 ^ 63
    → ts < 2 ^ 63
    → within_skew (pos now) (pos ts) (pos skew) ≡ (leb now (ts + skew) && leb ts (now + skew))
unfolding within_skew sub64 neg64
within_skew_exact now ts skew hn ht = ground arith

-- For a time before 1970 the test also holds at one distant time, 2^63 seconds before now, where the
-- difference is the least int64 and its negation is itself.
pub within_skew_wraps :
    (now ts skew : ℕ)
    → now < 2 ^ 62
    → ts < 2 ^ 63
    → skew < 2 ^ 62
    → within_skew (pos now) (negsuc ts) (pos skew)
      ≡ (leb (now + ts + 1) skew || ((now + ts + 1) == 2 ^ 63))
unfolding within_skew sub64 neg64
within_skew_wraps now ts skew hn ht hk = ground arith
