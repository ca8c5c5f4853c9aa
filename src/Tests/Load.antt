-- ===== src/Tests/Load.antt =====
-- The comparisons of two nodes, and the kick checks of a loaded one.
use usteer.Base.{
  ℕ, ◌+◌, ◌≡◌, ◌≤◌, ◌<◌, ◌↔◌, ◌≢◌, refl, [], ◌∷◌, Option, some, none, true, arith, pos,
}
use usteer.State.Config.{Config}
use usteer.State.Node.{Node, parse_array}
use usteer.State.Station.{BeaconReport, idle, scan, kick}
use usteer.State.Store.{Store, wnm_disassoc_imminent, send, put_info, usteer_update_time}
use usteer.Ubus.Clients.{
  usteer_ubus_kick_client, usteer_ubus_notify_client_disassoc, filter_reports, neighbors,
}
use usteer.Policy.Candidate.{
  find_better_candidate, hearing_map_candidate, current_report, seen_candidate, entry_fits,
  same_ssid, is_better_candidate, below_max_assoc, below_assoc_threshold, better_signal_strength,
  better_signal_strength_hearing_map, has_better_load, below_load_threshold,
}
use usteer.Policy.Candidate.Compare.{
  band_penalty, below_assoc_threshold_iff, better_signal_strength_hearing_map_small,
  has_better_load_higher,
}
use usteer.Policy.Admission.{snr_to_signal}
use usteer.Policy.Roam.{
  tired, roam_set_state, usteer_roam_set_state, is_active_client, usteer_get_client_active_bits,
  usteer_local_node_roam_check, roam_check_at, roam_each, stays, usteer_roam_trigger_sm, dispatch,
  sm_kick,
}
use usteer.Policy.Roam.Kicks.{kicks}
use usteer.Policy.Roam.Tries.{rescans, tired_iff}
use usteer.Policy.Kick.{
  usteer_local_node_kick, usteer_local_node_snr_kick, snr_kick_each, load_kick, kick_rounds,
  choose_kick, Choice, weigh, pick, is_more_kickable, count_and_kick, kick_chosen, put_thr_count,
}
use usteer.Policy.Kick.Count.{usteer_local_node_kick-kicks}
use usteer.Policy.Kick.Selection.{Chosen, NoneBetter, FirstReplaced, choose_kick_lem}
use usteer.Tests.Data.{client, heard, network, config, node_a, node_b, ref_a, run}

below_assoc_threshold_iff_example :
    (below_assoc_threshold config node_a node_b ≡ true)
    ↔ (3 + band_penalty config node_b node_a + 5 ≤ 20 + band_penalty config node_a node_b)
below_assoc_threshold_iff_example =
    below_assoc_threshold_iff config node_a node_b 20 3 refl refl (omega arith) (omega arith)

abbrev strict : Config
strict = record config { signal_diff_threshold = 50 }

abbrev report : ℕ → BeaconReport
report rcpi = record {
  address = ref_a;
  bssid = 0x11;
  rcpi = rcpi;
  rsni = 50;
  op_class = 81;
  channel = 1;
  usteer_time = 90000;
}

better_signal_strength_hearing_map_small_example :
    better_signal_strength_hearing_map strict (report 100) (report 101) ≡ true
better_signal_strength_hearing_map_small_example =
    better_signal_strength_hearing_map_small strict (report 100) (report 101) (omega arith)
      (omega arith)

abbrev overloaded : Node
overloaded = record node_b { n_assoc = pos 30; load = pos 90 }

better_load : has_better_load config node_a overloaded ≡ true
unfolding has_better_load below_load_threshold
better_load = refl

has_better_load_higher_example : (75 < 90) × (75 < 90)
has_better_load_higher_example =
    has_better_load_higher config node_a overloaded 20 30 75 90 refl refl refl refl (omega arith)
      (omega arith) (omega arith) (omega arith) better_load

idle_not_scan : idle ≢ scan
idle_not_scan e = ground arith

-- Two more scans use up two tries.
tired_iff_example :
    (tired
        (record config { roam_scan_tries = 2 })
        (rescans (200000 ∷ 300000 ∷ []) (roam_set_state 100000 scan (client idle)))
      ≡ true)
    ↔ ((1 ≤ 2) × (2 ≤ 2))
tired_iff_example =
    tired_iff (record config { roam_scan_tries = 2 }) 100000 (200000 ∷ 300000 ∷ []) (client idle)
      idle_not_scan

warned_run :
    usteer_ubus_notify_client_disassoc (client idle) (network idle)
    ≡ some (send (wnm_disassoc_imminent ref_a 100 ("aa" ∷ "aa" ∷ [])) (network idle))
unfolding usteer_ubus_notify_client_disassoc filter_reports neighbors parse_array
warned_run = refl

abbrev choice : Choice
choice = record { kick1 = some (client idle); kick2 = some (client idle); store = network idle }

-- The client has a better candidate, so both choices fall on it.
choice_run : choose_kick none none (ref_a ∷ []) (network idle) ≡ some choice
unfolding choose_kick weigh pick is_more_kickable is_active_client usteer_get_client_active_bits
    find_better_candidate hearing_map_candidate current_report seen_candidate entry_fits same_ssid
    is_better_candidate below_max_assoc below_assoc_threshold better_signal_strength has_better_load
    below_load_threshold
choice_run = refl

choose_kick_lem_example :
    Chosen config (some (client idle))
    × Chosen config (some (client idle))
    × NoneBetter (some (client idle)) config (client idle ∷ heard ∷ []) (ref_a ∷ [])
    × FirstReplaced (some (client idle)) config (client idle ∷ heard ∷ []) (ref_a ∷ [])
choose_kick_lem_example = choose_kick_lem (ref_a ∷ []) (network idle) choice choice_run

abbrev kick_run : Option Store
kick_run = usteer_local_node_kick 1 (network kick)

kick_run-some : kick_run ≡ some (run (network kick) kick_run)
unfolding usteer_local_node_kick usteer_local_node_roam_check roam_check_at roam_each stays
    is_active_client usteer_get_client_active_bits usteer_roam_trigger_sm dispatch sm_kick
    usteer_update_time snr_to_signal usteer_roam_set_state roam_set_state put_info
    usteer_local_node_snr_kick snr_kick_each load_kick kick_rounds choose_kick weigh pick
    is_more_kickable count_and_kick kick_chosen put_thr_count usteer_ubus_kick_client
kick_run-some = refl

usteer_local_node_kick-kicks_example : kicks (run (network kick) kick_run).sent ≤ 3
usteer_local_node_kick-kicks_example =
    usteer_local_node_kick-kicks 1 (network kick) (run (network kick) kick_run) kick_run-some
