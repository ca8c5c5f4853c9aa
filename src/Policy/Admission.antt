-- ===== src/Policy/Admission.antt =====
-- policy.c: whether a probe, an authentication or an association request is answered.
pub mod Decision
pub mod Sound
use usteer.Base.{
  ℕ, Bool, true, false, Option, none, some, ◌>>=◌, if◌then◌else◌, ltb, leb, ℤ, pos, negsuc, ◌+ℤ◌,
  ltb_ℤ, sub64, i32, is_some, not,
}
use usteer.State.Node.{Node}
use usteer.State.Station.{EventType, assoc, StaInfo, stats_of}
use usteer.State.Store.{Store, node_at}
use usteer.Policy.Candidate.{is_zero, find_better_candidate}

unfoldable pub snr_to_signal : Node → ℤ → ℤ
unfolding ◌+ℤ◌
snr_to_signal n snr =
    if ltb_ℤ snr (pos 0) then snr else i32 ((if is_zero n.noise then negsuc 94 else n.noise) +ℤ snr)

abbrev pub is_assoc : EventType → Bool
is_assoc assoc = true
is_assoc _ = false

unfoldable pub usteer_check_request : StaInfo → EventType → Store → Option (Bool × Store)
usteer_check_request si type s =
    if is_assoc type
    then some (true, s)
    else if leb s.config.max_retry_band (stats_of type si.stats).blocked_cur
    then some (true, s)
    else do
      n ← node_at s si.self.node
      if ltb_ℤ si.signal (snr_to_signal n s.config.min_connect_snr)
          then some (false, s)
          else if ltb (sub64 s.current_time si.created) s.config.initial_connect_delay
          then some (false, s)
          else do (si_new, s') ← find_better_candidate si s; some (not (is_some si_new), s')
