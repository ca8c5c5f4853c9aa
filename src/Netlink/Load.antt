-- ===== src/Netlink/Load.antt =====
-- The load that is told of a node.
use usteer.Base.{ℕ, ◌+◌, ◌*◌, ◌/◌, ◌%◌, ◌^◌, ◌≤◌, ◌<◌, ◌≡◌, true, pos, arith, u32, sub64}
use native.Mathlib.Nat.{div-le_of_le-mul}
use usteer.State.Node.{Node}
use usteer.Netlink.{UsteerSurveyData, LoadOps, LoadState, busy_percent, nl80211_update_node_result}

-- The channel has been watched for delta milliseconds more, and was busy for delta_busy of them, by
-- counters of 64 bits that may wrap.
abbrev pub IsLater : (f : LoadOps) → LoadState f → ℕ → ℕ → UsteerSurveyData → Type 0
IsLater f st delta delta_busy d =
    (d.time ≡ (st.time + delta) % 2 ^ 64) × (d.time_busy ≡ (st.time_busy + delta_busy) % 2 ^ 64)

percent_bound :
    (delta delta_busy : ℕ)
    → 0 < delta
    → delta_busy ≤ delta
    → 100 * delta_busy < 2 ^ 32
    → busy_percent delta delta_busy ≤ 100
percent_bound delta delta_busy h k b =
    let whole : u32 (100 * delta_busy) ≡ 100 * delta_busy = omega arith in
    rw whole (div-le_of_le-mul delta (omega arith))

-- A first survey of the node's channel at a time after 0, less than 2 ^ 32 milliseconds after the
-- one before it, by counters that may wrap at 64 bits, sets the load to the busy part in whole
-- percent, at most 100, if 100 times the busy milliseconds fit 32 bits and the float is exact for
-- numbers up to 100.
pub nl80211_update_node_result-load :
    (f : LoadOps) (d : UsteerSurveyData) (st : LoadState f) (n : Node) (delta delta_busy : ℕ)
    → ((v : ℕ) → v ≤ 100 → f.to_int (f.of_unsigned v) ≡ pos v)
    → pos d.freq ≡ n.freq
    → 0 < st.time
    → st.time < 2 ^ 64
    → st.time_busy < 2 ^ 64
    → f.is_negative st.load_ewma ≡ true
    → IsLater f st delta delta_busy d
    → 0 < delta
    → delta_busy ≤ delta
    → delta < 2 ^ 32
    → 100 * delta_busy < 2 ^ 32
    → ((nl80211_update_node_result f d st n).1.load ≡ pos (100 * delta_busy / delta))
      × (100 * delta_busy / delta ≤ 100)
unfolding nl80211_update_node_result
nl80211_update_node_result-load f d st n delta delta_busy exact same t1 t2 t3 neg later h k m b =
    let e1 : u32 (sub64 d.time st.time) ≡ delta = omega (arith, later.0) in
    let e2 : u32 (sub64 d.time_busy st.time_busy) ≡ delta_busy = omega (arith, later.1) in
    let bound = percent_bound delta delta_busy h k b in
    let whole : u32 (100 * delta_busy) ≡ 100 * delta_busy = omega arith in
    (ground (arith, exact (100 * delta_busy / delta)), rw (← whole) bound)
