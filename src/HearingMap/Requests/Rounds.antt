-- ===== src/HearingMap/Requests/Rounds.antt =====
-- The band after a band.
use usteer.Base.{
  ◌≡◌, refl, true, false, List, [], ◌∷◌, ◌++◌, Option, none, some, All, ℤ, eq_ℤ, arith,
}
use usteer.State.Node.{LocalNode}
use usteer.HearingMap.Requests.{next_after, usteer_beacon_request_next_band}

-- None of the nodes is on the band.
abbrev pub IsOff : ℤ → List LocalNode → Type 0
IsOff freq = All (λ l. eq_ℤ freq l.node.freq ≡ false)

-- All of them are.
abbrev pub IsOn : ℤ → List LocalNode → Type 0
IsOn freq = All (λ l. eq_ℤ freq l.node.freq ≡ true)

-- The first node's band.
abbrev pub first_band : List LocalNode → Option ℤ
first_band [] = none
first_band (l ∷ ls) = some l.node.freq

next_after_same :
    (freq : ℤ) (same rest : List LocalNode)
    → IsOn freq same
    → IsOff freq rest
    → next_after freq false (same ++ rest) ≡ first_band rest
unfolding next_after
next_after_same freq [] [] h k = refl
next_after_same freq [] (r ∷ rest) h k = ground arith
next_after_same freq (x ∷ same) rest h k = ground (arith, next_after_same freq same rest h.1 k)

next_after_found :
    (freq : ℤ) (pre same rest : List LocalNode) (l : LocalNode)
    → IsOff freq pre
    → IsOn freq (l ∷ same)
    → IsOff freq rest
    → next_after freq true (pre ++ l ∷ (same ++ rest)) ≡ first_band rest
unfolding next_after
next_after_found freq [] same rest l h k m = ground (arith, next_after_same freq same rest k.1 m)
next_after_found freq (x ∷ pre) same rest l h k m =
    ground (arith, next_after_found freq pre same rest l h.1 k m)

abbrev pub or_first : Option ℤ → List LocalNode → Option ℤ
or_first none ls = first_band ls
or_first (some f) ls = some f

-- Where the nodes of a band stand together in the list, the next band is that of the first node
-- after them, and at the end of the list that of the first node of all.
pub usteer_beacon_request_next_band_lem :
    (freq : ℤ) (pre same rest : List LocalNode) (l : LocalNode)
    → IsOff freq pre
    → IsOn freq (l ∷ same)
    → IsOff freq rest
    → usteer_beacon_request_next_band (pre ++ l ∷ (same ++ rest)) freq
      ≡ or_first (first_band rest) (pre ++ l ∷ (same ++ rest))
unfolding usteer_beacon_request_next_band
usteer_beacon_request_next_band_lem freq [] same rest l h k m =
    ground (arith, next_after_found freq [] same rest l h k m)
usteer_beacon_request_next_band_lem freq (p ∷ pre) same rest l h k m =
    ground (arith, next_after_found freq (p ∷ pre) same rest l h k m)
