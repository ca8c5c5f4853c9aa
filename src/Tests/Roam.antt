-- ===== src/Tests/Roam.antt =====
-- The roaming state machine and the checks of a node on the network.
use usteer.Base.{◌≡◌, refl, Option, some, Bool, true, false, [], ◌∷◌}
use usteer.State.Station.{RoamTriggerState, idle, scan_done, kick}
use usteer.State.Store.{Store, usteer_update_time, put_info}
use usteer.Ubus.Clients.{usteer_ubus_kick_client}
use usteer.Policy.Candidate.{
  find_better_candidate, hearing_map_candidate, current_report, seen_candidate, entry_fits,
  same_ssid, is_better_candidate, below_max_assoc, below_assoc_threshold, better_signal_strength,
  has_better_load, below_load_threshold,
}
use usteer.Policy.Admission.{snr_to_signal}
use usteer.Policy.Roam.{
  roam_set_state, usteer_roam_set_state, sm_idle, sm_kick, usteer_roam_trigger_sm, dispatch,
  usteer_local_node_roam_check, roam_check_at, roam_each, stays, is_active_client,
  usteer_get_client_active_bits,
}
use usteer.Policy.Roam.Machine.{◌⟶◌, InState, usteer_roam_trigger_sm-⟶}
use usteer.Policy.Roam.Kicks.{drops, usteer_roam_trigger_sm-kicks}
use usteer.Tests.Data.{client, network, run, ref_a}

abbrev searched : Option (Bool × Store)
searched = usteer_roam_trigger_sm (client idle) (network idle)

-- The heard node is a candidate, so the client is ready to leave.
searched_state :
    searched ≡ some (false, usteer_roam_set_state (client idle) scan_done (network idle))
unfolding usteer_roam_trigger_sm dispatch sm_idle find_better_candidate hearing_map_candidate
    current_report seen_candidate entry_fits same_ssid is_better_candidate below_max_assoc
    below_assoc_threshold better_signal_strength has_better_load below_load_threshold
searched_state = refl

usteer_roam_trigger_sm-⟶_example :
    (st : RoamTriggerState) × (idle ⟶ st)
    × InState (usteer_roam_set_state (client idle) scan_done (network idle)) ref_a st
usteer_roam_trigger_sm-⟶_example =
    usteer_roam_trigger_sm-⟶ (network idle)
      (usteer_roam_set_state (client idle) scan_done (network idle)) (client idle) false refl
      searched_state

abbrev dropped : Store
dropped =
    let (si, s) = usteer_ubus_kick_client (client kick) (network kick) in
    usteer_roam_set_state si idle s

dropped_run : usteer_roam_trigger_sm (client kick) (network kick) ≡ some (true, dropped)
unfolding usteer_roam_trigger_sm dispatch sm_kick
dropped_run = refl

usteer_roam_trigger_sm-kicks_example :
    (true ≡ true) × (drops dropped.sent ≡ (ref_a, (network kick).config.load_kick_reason_code) ∷ [])
usteer_roam_trigger_sm-kicks_example =
    usteer_roam_trigger_sm-kicks (network kick) dropped (client kick) true dropped_run

abbrev check_run : Option Store
check_run = usteer_local_node_roam_check 1 (network kick)

-- The check drops the client, which waited for it.
check_run-some : check_run ≡ some (run (network kick) check_run)
unfolding usteer_local_node_roam_check roam_check_at roam_each stays is_active_client
    usteer_get_client_active_bits usteer_roam_trigger_sm dispatch sm_kick usteer_update_time
    snr_to_signal usteer_roam_set_state roam_set_state put_info
check_run-some = refl
