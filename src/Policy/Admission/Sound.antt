-- ===== src/Policy/Admission/Sound.antt =====
-- Admission keeps the invariant of stations, entries, timeouts and nodes.
use usteer.Base.{ℕ, ◌≡◌, Bool, some, arith, Option-cases, ◌⊎◌, inl, inr}
use usteer.State.Station.{EventType, StaInfo}
use usteer.State.Store.{Store}
use usteer.Sta.Info.Invariant.{IsSound, carry}
use usteer.Policy.Candidate.{find_better_candidate}
use usteer.Policy.Candidate.Effect.{find_better_candidate-IsSound}
use usteer.Policy.Admission.{usteer_check_request}

pub usteer_check_request-IsSound :
    {N : ℕ → Bool} (si : StaInfo) (type : EventType) (s s' : Store) (ok : Bool)
    → usteer_check_request si type s ≡ some (ok, s')
    → IsSound N s
    → IsSound N s'
unfolding usteer_check_request
usteer_check_request-IsSound si type s s' ok e h =
    elim (Option-cases (find_better_candidate si s)) [
      | inl q ↦ let p : s ≡ s' = ground arith in carry p h
      | inr ((r, s1), q) ↦
          let end : (s ≡ s') ⊎ (s1 ≡ s') = ground arith in
          elim end [
            | inl p ↦ carry p h
            | inr p ↦ carry p (find_better_candidate-IsSound si s s1 r q h)
          ]
    ]
