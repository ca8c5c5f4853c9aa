-- ===== src/Policy/Roam.antt =====
-- policy.c: the state machine that makes a client with a weak signal roam.
pub mod Machine
pub mod Kicks
pub mod Tries
pub mod Total
pub mod Kept
use usteer.Base.{
  ℕ, ◌+◌, ◌*◌, ◌/◌, Bool, true, false, not, ◌&&◌, ◌||◌, List, [], ◌∷◌, Option, none, some, ◌>>=◌,
  if◌then◌else◌, ◌==◌, ltb, leb, is_some, ℤ, ltb_ℤ, leb_ℤ, map, u8, u32, u64, sub64,
}
use usteer.State.Config.{Config}
use usteer.State.Station.{
  Ref, StaInfo, RoamTriggerState, idle, scan, scan_done, wait_kick, notify_kick, kick,
}
use usteer.State.Store.{Store, of_node, find_info, node_at, local_at, put_info, usteer_update_time}
use usteer.Ubus.Clients.{
  usteer_ubus_kick_client, usteer_ubus_trigger_client_scan, usteer_ubus_notify_client_disassoc,
}
use usteer.Policy.Candidate.{is_zero, find_better_candidate}
use usteer.Policy.Admission.{snr_to_signal}

-- In bits per second; the division faults if the period is 0.
unfoldable pub usteer_get_client_active_bits : Config → StaInfo → Option ℕ
usteer_get_client_active_bits c si =
    let rx_delta = sub64 si.active_bytes.new_rx si.active_bytes.old_rx in
    let tx_delta = sub64 si.active_bytes.new_tx si.active_bytes.old_tx in
    if c.kick_client_active_sec == 0
    then none
    else some (u64 (u64 (rx_delta + tx_delta) / c.kick_client_active_sec * 8))

unfoldable pub is_active_client : Config → StaInfo → Option Bool
unfolding usteer_get_client_active_bits
is_active_client c si = do
  client_active_ratio ← usteer_get_client_active_bits c si
  some (leb c.kick_client_active_bits client_active_ratio)

abbrev pub state_eq : RoamTriggerState → RoamTriggerState → Bool
state_eq idle idle = true
state_eq scan scan = true
state_eq scan_done scan_done = true
state_eq wait_kick wait_kick = true
state_eq notify_kick notify_kick = true
state_eq kick kick = true
state_eq _ _ = false

unfoldable pub roam_set_state : ℕ → RoamTriggerState → StaInfo → StaInfo
roam_set_state now state si =
    if state_eq si.roam_state state
    then if state_eq si.roam_state idle
      then record si { roam_event = now; roam_tries = 0 }
      else record si { roam_event = now; roam_tries = u8 (si.roam_tries + 1); roam_state = state }
    else record si { roam_event = now; roam_tries = 0; roam_state = state }

unfoldable pub usteer_roam_set_state : StaInfo → RoamTriggerState → Store → Store
usteer_roam_set_state si state s = put_info (roam_set_state s.current_time state si) s

-- Scans were tried often enough, if a number of tries is set.
abbrev pub tired : Config → StaInfo → Bool
tired c si = not (c.roam_scan_tries == 0) && leb c.roam_scan_tries si.roam_tries

unfoldable pub sm_scan : StaInfo → Store → Option (Bool × Store)
sm_scan si s =
    if ltb (sub64 s.current_time si.roam_event) s.config.roam_scan_interval
    then some (false, s)
    else do
      (si_new, s') ← find_better_candidate si s
      some (
        false,
        if is_some si_new || ltb si.roam_event si.roam_scan_done
            then usteer_roam_set_state si scan_done s'
            else if tired s.config si
            then usteer_roam_set_state si wait_kick s'
            else let (si', s'') = usteer_ubus_trigger_client_scan si s' in
              usteer_roam_set_state si' scan s'',
      )

unfoldable pub sm_idle : StaInfo → Store → Option (Bool × Store)
sm_idle si s = do
  (si_new, s') ← find_better_candidate si s
  some (false, usteer_roam_set_state si (if is_some si_new then scan_done else scan) s')

-- The results of the last scan are older than two intervals.
abbrev pub is_stale : Config → ℕ → StaInfo → Bool
is_stale c now si = ltb (u32 (2 * c.roam_scan_interval)) (sub64 now si.roam_scan_done)

unfoldable pub sm_scan_done : StaInfo → Store → Option (Bool × Store)
sm_scan_done si s =
    if is_stale s.config s.current_time si
    then some (false, usteer_roam_set_state si scan s)
    else do
      (si_new, s') ← find_better_candidate si s
      some (false, if is_some si_new then usteer_roam_set_state si wait_kick s' else s')

unfoldable pub sm_wait_kick : ℤ → StaInfo → Store → Option (Bool × Store)
sm_wait_kick min_signal si s = if ltb_ℤ min_signal si.signal then some (false, s) else do
  let si' = roam_set_state s.current_time notify_kick si
  s' ← usteer_ubus_notify_client_disassoc si' (put_info si' s)
  some (false, s')

-- The client was told to leave less than the delay ago.
abbrev pub is_waiting : Config → ℕ → StaInfo → Bool
is_waiting c now si = ltb (sub64 now si.roam_event) (u32 (c.roam_kick_delay * 100))

unfoldable pub sm_notify_kick : StaInfo → Store → Option (Bool × Store)
sm_notify_kick si s =
    some
      (false, if is_waiting s.config s.current_time si then s else usteer_roam_set_state si kick s)

unfoldable pub sm_kick : StaInfo → Store → Option (Bool × Store)
sm_kick si s =
    let (si', s') = usteer_ubus_kick_client si s in some (true, usteer_roam_set_state si' idle s')

unfoldable pub dispatch : RoamTriggerState → ℤ → StaInfo → Store → Option (Bool × Store)
dispatch scan min_signal si s = sm_scan si s
dispatch idle min_signal si s = sm_idle si s
dispatch scan_done min_signal si s = sm_scan_done si s
dispatch wait_kick min_signal si s = sm_wait_kick min_signal si s
dispatch notify_kick min_signal si s = sm_notify_kick si s
dispatch kick min_signal si s = sm_kick si s

-- The result says whether the client was kicked.
unfoldable pub usteer_roam_trigger_sm : StaInfo → Store → Option (Bool × Store)
usteer_roam_trigger_sm si s = do
  n ← node_at s si.self.node
  dispatch si.roam_state (snr_to_signal n s.config.roam_trigger_snr) si s

-- Whether the client is left alone.
unfoldable pub stays : ℤ → StaInfo → Store → Option Bool
stays min_signal si s = if si.connected == 0 || leb_ℤ min_signal si.signal then some true else do
  active ← is_active_client s.config si
  some (active || ltb (sub64 s.current_time si.roam_kick) s.config.roam_trigger_interval)

-- The loop over the node's entries. Entries that are made on the way go to other nodes' lists.
unfoldable pub roam_each : ℤ → List Ref → Store → Option Store
roam_each min_signal [] s = some s
roam_each min_signal (r ∷ rs) s = do
  si ← find_info r s.infos
  quiet ← stays min_signal si s
  (kicked, s') ←
      if quiet then some (false, usteer_roam_set_state si idle s) else usteer_roam_trigger_sm si s
  if kicked then some s' else roam_each min_signal rs s'

abbrev pub refs_of : ℕ → Store → List Ref
refs_of p s = map (λ (si : StaInfo). si.self) (of_node p s.infos)

unfoldable pub roam_check_at : ℕ → ℤ → Store → Option Store
roam_check_at p snr s = do ln ← local_at s p; roam_each (snr_to_signal ln.node snr) (refs_of p s) s

unfoldable pub usteer_local_node_roam_check : ℕ → Store → Option Store
usteer_local_node_roam_check p s =
    if not (is_zero s.config.roam_scan_snr)
    then roam_check_at p s.config.roam_scan_snr (usteer_update_time s)
    else if not (is_zero s.config.roam_trigger_snr)
    then roam_check_at p s.config.roam_trigger_snr (usteer_update_time s)
    else some s
