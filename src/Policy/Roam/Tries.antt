-- ===== src/Policy/Roam/Tries.antt =====
-- The count of scans that a client is asked for.
use usteer.Base.{
  ℕ, ◌+◌, ◌%◌, ◌≤◌, ◌<◌, ◌≡◌, ◌≢◌, ◌↔◌, refl, true, false, List, [], ◌∷◌, length, arith,
}
use usteer.State.Config.{Config}
use usteer.State.Station.{
  StaInfo, RoamTriggerState, idle, scan, scan_done, wait_kick, notify_kick, kick,
}
use usteer.Policy.Roam.{roam_set_state, state_eq, tired}

-- The state SCAN set again, at one time after the other.
abbrev pub rescans : List ℕ → StaInfo → StaInfo
rescans [] si = si
rescans (now ∷ times) si = rescans times (roam_set_state now scan si)

again :
    (now : ℕ) (si : StaInfo)
    → si.roam_state ≡ scan
    → ((roam_set_state now scan si).roam_state ≡ scan)
      × ((roam_set_state now scan si).roam_tries ≡ (si.roam_tries + 1) % 256)
unfolding roam_set_state
again now si h = rw h (refl, refl)

state_eq-scan : (st : RoamTriggerState) → st ≢ scan → state_eq st scan ≡ false
state_eq-scan idle h = refl
state_eq-scan scan h = absurd (h refl)
state_eq-scan scan_done h = refl
state_eq-scan wait_kick h = refl
state_eq-scan notify_kick h = refl
state_eq-scan kick h = refl

entered :
    (now : ℕ) (si : StaInfo)
    → si.roam_state ≢ scan
    → ((roam_set_state now scan si).roam_state ≡ scan)
      × ((roam_set_state now scan si).roam_tries ≡ 0)
unfolding roam_set_state
entered now si h = rw (state_eq-scan si.roam_state h) (refl, refl)

rescans-tries :
    (times : List ℕ) (si : StaInfo)
    → si.roam_state ≡ scan
    → si.roam_tries < 256
    → (rescans times si).roam_tries ≡ (si.roam_tries + length times) % 256
rescans-tries [] si h k = omega arith
rescans-tries (now ∷ times) si h k =
    let (state, tries) = again now si h in
    let rest = rescans-tries times (roam_set_state now scan si) state (omega arith) in
    omega (arith, rest, tries)

-- Where a client in another state is set to SCAN, and then to SCAN again n times, its tries are
-- used up exactly if roam_scan_tries is at least 1 and at most n modulo 256.
pub tired_iff :
    (c : Config) (now : ℕ) (times : List ℕ) (si : StaInfo)
    → si.roam_state ≢ scan
    → (tired c (rescans times (roam_set_state now scan si)) ≡ true)
      ↔ ((1 ≤ c.roam_scan_tries) × (c.roam_scan_tries ≤ length times % 256))
tired_iff c now times si h =
    let (state, tries) = entered now si h in
    let count = rescans-tries times (roam_set_state now scan si) state (omega (arith, tries)) in
    let n = (rescans times (roam_set_state now scan si)).roam_tries in
    let n_is : n ≡ length times % 256 = omega (arith, count, tries) in ground (arith, n_is)
