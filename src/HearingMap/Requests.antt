-- ===== src/HearingMap/Requests.antt =====
-- hearing_map.c: when a client is asked for a beacon report, in which mode and on which band.
pub mod Rounds
pub mod Sound
use usteer.Base.{
  ℕ, suc, ◌+◌, ◌/◌, ◌^◌, Bool, true, false, ◌&&◌, List, [], ◌∷◌, Option, none, some, ◌>>=◌,
  if◌then◌else◌, ltb, ℤ, pos, negsuc, ◌+ℤ◌, ltb_ℤ, eq_ℤ, u8, sub64, not, i32,
}
use usteer.State.Config.{Config}
use usteer.State.Node.{Node, LocalNode}
use usteer.State.Station.{BeaconRequest, StaInfo}
use usteer.State.Store.{Store, node_at, put_info, rrm_beacon_req_on, send}
use usteer.HearingMap.Channels.{get_channel_from_freq, get_op_class_from_channel}
use usteer.HearingMap.Reports.{usteer_beacon_report_cleanup}

-- `0 < time_diff` of a `long` of 64 bits.
abbrev pub report_came : BeaconRequest → Bool
report_came br =
    let time_diff = sub64 br.last_report_time br.last_request_time in
    ltb 0 time_diff && ltb time_diff (2 ^ 63)

unfoldable pub count_failed : BeaconRequest → BeaconRequest
count_failed br =
    let failed = if report_came br then br.failed_requests / 2 else br.failed_requests in
    record br { failed_requests = u8 (failed + 1) }

-- 1 is active, 0 passive and 2 the table that the client has.
unfoldable pub mode_for : ℤ → ℕ → ℕ
mode_for freq failed_requests =
    if ltb_ℤ freq (pos 4000) && ltb failed_requests 3
    then 1
    else if ltb_ℤ freq (pos 4000) && ltb failed_requests 7
    then 0
    else if ltb_ℤ (pos 4000) freq && ltb failed_requests 5
    then 0
    else 2

unfoldable pub usteer_get_beacon_request_mode : Node → ℤ → BeaconRequest → ℕ × BeaconRequest
unfolding count_failed mode_for
usteer_get_beacon_request_mode n freq br =
    let br' = if eq_ℤ n.freq freq then count_failed br else br in
    (mode_for freq br'.failed_requests, br')

-- The loop over the local nodes; `none` if it runs to its end.
unfoldable pub next_after : ℤ → Bool → List LocalNode → Option ℤ
next_after freq already [] = none
next_after freq already (l ∷ ls) =
    if eq_ℤ freq l.node.freq
    then next_after freq false ls
    else let rest = next_after freq already ls in if already then rest else some l.node.freq

-- `none` where there is no local node to read.
unfoldable pub usteer_beacon_request_next_band : List LocalNode → ℤ → Option ℤ
unfolding next_after
usteer_beacon_request_next_band [] freq = none
usteer_beacon_request_next_band (l ∷ ls) freq = elim (next_after freq true (l ∷ ls)) [
  | none ↦ some l.node.freq
  | some f ↦ some f
]

-- The target's `float`, with the conversions and operations that the code uses.
pub record FloatOps : Type 1 where
  pub Float : Type 0
  pub of_int : ℤ → Float
  pub of_unsigned : ℕ → Float
  pub to_int : Float → ℤ
  pub add : Float → Float → Float
  pub mul : Float → Float → Float
  pub div : Float → Float → Float
  pub lt : Float → Float → Bool

abbrev abs : ℤ → ℤ
abs (pos n) = pos n
abs (negsuc n) = pos (suc n)

module _ (f : FloatOps) where
  open f use {Float, of_int, of_unsigned, to_int, add, mul, div, lt}

  pub dyn_freq : Config → ℤ → Float
  dyn_freq c signal =
      let adj_signal = of_int (i32 (signal +ℤ pos 60)) in
      add (of_unsigned c.beacon_request_frequency) (
        mul (of_unsigned c.beacon_request_signal_modifier)
          (div adj_signal (of_int (pos 1 +ℤ abs (to_int adj_signal)))))

  usteer_beacon_request_send : StaInfo → ℤ → ℕ → Store → Store
  usteer_beacon_request_send si freq mode s =
      let channel = get_channel_from_freq freq in
      send (rrm_beacon_req_on si.self mode channel (pos (get_op_class_from_channel channel))) s

  -- A round over the bands starts at the node's own; it renews the time and drops old reports.
  unfoldable pub start_round : Config → ℕ → Node → StaInfo → StaInfo
  start_round c now n si =
      if eq_ℤ si.beacon_request.band n.freq
      then record si {
        beacon_request = record (si.beacon_request) { last_request_time = now };
        beacon_reports =
            usteer_beacon_report_cleanup c now (some 0xffff_ffff_ffff) si.beacon_reports;
      }
      else si

  unfoldable pub usteer_beacon_request_check : StaInfo → Store → Option Store
  unfolding start_round usteer_beacon_request_send
  usteer_beacon_request_check si s = do
    n ← node_at s si.self.node
    let freq = si.beacon_request.band
    let elapsed = of_unsigned (sub64 s.current_time si.beacon_request.last_request_time)
    if eq_ℤ freq n.freq && lt elapsed (dyn_freq s.config si.signal) then some s else do
      let (mode, br) = usteer_get_beacon_request_mode n freq si.beacon_request
      let si1 = start_round s.config s.current_time n (record si { beacon_request = br })
      next ← usteer_beacon_request_next_band s.local_nodes freq
      some (
          put_info (record si1 { beacon_request = record (si1.beacon_request) { band = next } })
            (usteer_beacon_request_send si freq mode s))
