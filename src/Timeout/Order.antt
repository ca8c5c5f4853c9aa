-- ===== src/Timeout/Order.antt =====
-- The 32-bit comparison of deadlines, and the true times.
use usteer.Base.{
  ℕ, ◌+◌, ◌^◌, ◌≤◌, ◌<◌, ◌≡◌, if◌then◌else◌, ltb, pos, negsuc, sub_ℕ, u32, sub32, to_i32, arith,
}
use usteer.Timeout.{usteer_timeout_cmp, usteer_timeout_delta}

-- The two times are less than 2 ^ 31 apart, or the second is 2 ^ 31 later.
abbrev pub IsNear : ℕ → ℕ → Type 0
IsNear d r = (d < r + 2 ^ 31) × (r ≤ d + 2 ^ 31)

signed_distance : (d r : ℕ) → IsNear d r → to_i32 (sub32 (u32 d) (u32 r)) ≡ sub_ℕ d r
signed_distance d r h = ground arith

-- Deadlines that wrap at 32 bits are compared as the true times are, for any reference time that
-- is less than 2 ^ 31 milliseconds from both, or exactly that later.
pub usteer_timeout_cmp_lem :
    (r d1 d2 : ℕ)
    → IsNear d1 r
    → IsNear d2 r
    → usteer_timeout_cmp (u32 r) (u32 d1) (u32 d2)
      ≡ (if ltb d1 d2 then negsuc 0 else if ltb d2 d1 then pos 1 else pos 0)
unfolding usteer_timeout_cmp
usteer_timeout_cmp_lem r d1 d2 h k = ground (arith, signed_distance d1 r h, signed_distance d2 r k)

-- The time that is left is the true one.
pub usteer_timeout_delta_lem :
    {A : Type 0} (a : A) (d r : ℕ)
    → IsNear d r
    → usteer_timeout_delta (record { owner = a; key = u32 d }) (u32 r) ≡ sub_ℕ d r
unfolding usteer_timeout_delta
usteer_timeout_delta_lem a d r h = signed_distance d r h
