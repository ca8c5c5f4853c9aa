-- ===== src/Ubus/Settings.antt =====
-- ubus.c: the settings by name: how they are read and set.
pub mod Trip
use usteer.Base.{
  ℕ, Bool, true, false, not, List, [], ◌∷◌, Option, none, some, String, ◌==◌, if◌then◌else◌, str_eq,
  to_u32, to_i32, map, ◌>>=◌,
}
use usteer.State.Config.{Config, usteer_init_defaults}
use usteer.State.Store.{Store}
use usteer.Remote.Send.{Interface}
use usteer.Ubus.Ssids.{config_set_ssid, config_get_ssid}

-- `__config_items` but for the three that have callbacks.
pub data CfgItem : Type 0 where
  cfg_syslog cfg_remote_disabled cfg_debug_level cfg_sta_block_timeout cfg_local_sta_timeout
        cfg_local_sta_update cfg_max_retry_band cfg_seen_policy_timeout cfg_load_balancing_threshold
        cfg_band_steering_threshold cfg_remote_update_interval cfg_min_connect_snr cfg_min_snr
        cfg_roam_scan_snr cfg_roam_scan_tries cfg_roam_scan_interval cfg_roam_trigger_snr
        cfg_roam_trigger_interval cfg_roam_kick_delay cfg_signal_diff_threshold
        cfg_initial_connect_delay cfg_load_kick_enabled cfg_load_kick_threshold cfg_load_kick_delay
        cfg_load_kick_min_clients cfg_load_kick_reason_code cfg_kick_client_active_sec
        cfg_kick_client_active_bits cfg_beacon_report_invalide_timeout cfg_beacon_request_frequency
        cfg_beacon_request_signal_modifier :
      CfgItem

-- In the order of the table.
abbrev pub config_items : List CfgItem
config_items =
    cfg_syslog ∷ cfg_remote_disabled ∷ cfg_debug_level ∷ cfg_sta_block_timeout
    ∷ cfg_local_sta_timeout ∷ cfg_local_sta_update ∷ cfg_max_retry_band ∷ cfg_seen_policy_timeout
    ∷ cfg_load_balancing_threshold ∷ cfg_band_steering_threshold ∷ cfg_remote_update_interval
    ∷ cfg_min_connect_snr ∷ cfg_min_snr ∷ cfg_roam_scan_snr ∷ cfg_roam_scan_tries
    ∷ cfg_roam_scan_interval ∷ cfg_roam_trigger_snr ∷ cfg_roam_trigger_interval
    ∷ cfg_roam_kick_delay ∷ cfg_signal_diff_threshold ∷ cfg_initial_connect_delay
    ∷ cfg_load_kick_enabled ∷ cfg_load_kick_threshold ∷ cfg_load_kick_delay
    ∷ cfg_load_kick_min_clients ∷ cfg_load_kick_reason_code ∷ cfg_kick_client_active_sec
    ∷ cfg_kick_client_active_bits ∷ cfg_beacon_report_invalide_timeout
    ∷ cfg_beacon_request_frequency ∷ cfg_beacon_request_signal_modifier ∷ []

-- The byte and the word that a setting is told as.
abbrev pub of_bool : Bool → ℕ
of_bool true = 1
of_bool false = 0

unfoldable pub get_item : CfgItem → Config → ℕ
get_item cfg_syslog c = of_bool c.syslog
get_item cfg_remote_disabled c = of_bool c.remote_disabled
get_item cfg_debug_level c = c.debug_level
get_item cfg_sta_block_timeout c = c.sta_block_timeout
get_item cfg_local_sta_timeout c = c.local_sta_timeout
get_item cfg_local_sta_update c = c.local_sta_update
get_item cfg_max_retry_band c = c.max_retry_band
get_item cfg_seen_policy_timeout c = c.seen_policy_timeout
get_item cfg_load_balancing_threshold c = c.load_balancing_threshold
get_item cfg_band_steering_threshold c = c.band_steering_threshold
get_item cfg_remote_update_interval c = c.remote_update_interval
get_item cfg_min_connect_snr c = to_u32 c.min_connect_snr
get_item cfg_min_snr c = to_u32 c.min_snr
get_item cfg_roam_scan_snr c = to_u32 c.roam_scan_snr
get_item cfg_roam_scan_tries c = c.roam_scan_tries
get_item cfg_roam_scan_interval c = c.roam_scan_interval
get_item cfg_roam_trigger_snr c = to_u32 c.roam_trigger_snr
get_item cfg_roam_trigger_interval c = c.roam_trigger_interval
get_item cfg_roam_kick_delay c = c.roam_kick_delay
get_item cfg_signal_diff_threshold c = c.signal_diff_threshold
get_item cfg_initial_connect_delay c = c.initial_connect_delay
get_item cfg_load_kick_enabled c = of_bool c.load_kick_enabled
get_item cfg_load_kick_threshold c = c.load_kick_threshold
get_item cfg_load_kick_delay c = c.load_kick_delay
get_item cfg_load_kick_min_clients c = c.load_kick_min_clients
get_item cfg_load_kick_reason_code c = c.load_kick_reason_code
get_item cfg_kick_client_active_sec c = c.kick_client_active_sec
get_item cfg_kick_client_active_bits c = c.kick_client_active_bits
get_item cfg_beacon_report_invalide_timeout c = c.beacon_report_invalide_timeout
get_item cfg_beacon_request_frequency c = c.beacon_request_frequency
get_item cfg_beacon_request_signal_modifier c = c.beacon_request_signal_modifier

unfoldable pub set_item : CfgItem → ℕ → Config → Config
set_item cfg_syslog v c = record c { syslog = not (v == 0) }
set_item cfg_remote_disabled v c = record c { remote_disabled = not (v == 0) }
set_item cfg_debug_level v c = record c { debug_level = v }
set_item cfg_sta_block_timeout v c = record c { sta_block_timeout = v }
set_item cfg_local_sta_timeout v c = record c { local_sta_timeout = v }
set_item cfg_local_sta_update v c = record c { local_sta_update = v }
set_item cfg_max_retry_band v c = record c { max_retry_band = v }
set_item cfg_seen_policy_timeout v c = record c { seen_policy_timeout = v }
set_item cfg_load_balancing_threshold v c = record c { load_balancing_threshold = v }
set_item cfg_band_steering_threshold v c = record c { band_steering_threshold = v }
set_item cfg_remote_update_interval v c = record c { remote_update_interval = v }
set_item cfg_min_connect_snr v c = record c { min_connect_snr = to_i32 v }
set_item cfg_min_snr v c = record c { min_snr = to_i32 v }
set_item cfg_roam_scan_snr v c = record c { roam_scan_snr = to_i32 v }
set_item cfg_roam_scan_tries v c = record c { roam_scan_tries = v }
set_item cfg_roam_scan_interval v c = record c { roam_scan_interval = v }
set_item cfg_roam_trigger_snr v c = record c { roam_trigger_snr = to_i32 v }
set_item cfg_roam_trigger_interval v c = record c { roam_trigger_interval = v }
set_item cfg_roam_kick_delay v c = record c { roam_kick_delay = v }
set_item cfg_signal_diff_threshold v c = record c { signal_diff_threshold = v }
set_item cfg_initial_connect_delay v c = record c { initial_connect_delay = v }
set_item cfg_load_kick_enabled v c = record c { load_kick_enabled = not (v == 0) }
set_item cfg_load_kick_threshold v c = record c { load_kick_threshold = v }
set_item cfg_load_kick_delay v c = record c { load_kick_delay = v }
set_item cfg_load_kick_min_clients v c = record c { load_kick_min_clients = v }
set_item cfg_load_kick_reason_code v c = record c { load_kick_reason_code = v }
set_item cfg_kick_client_active_sec v c = record c { kick_client_active_sec = v }
set_item cfg_kick_client_active_bits v c = record c { kick_client_active_bits = v }
set_item cfg_beacon_report_invalide_timeout v c = record c { beacon_report_invalide_timeout = v }
set_item cfg_beacon_request_frequency v c = record c { beacon_request_frequency = v }
set_item cfg_beacon_request_signal_modifier v c = record c { beacon_request_signal_modifier = v }

-- The loop, over what `blobmsg_parse` finds.
unfoldable pub set_each : (CfgItem → Option ℕ) → List CfgItem → Config → Config
set_each tb [] c = c
set_each tb (i ∷ is) c = set_each tb is (elim (tb i) [ none ↦ c | some v ↦ set_item i v c ])

pub record ConfigReply : Type 0 where
  pub item : CfgItem → ℕ
  pub interfaces : List String
  pub ssid : List String
  pub node_up_script : Option String

unfoldable pub config_get_interfaces : List Interface → List String
config_get_interfaces interfaces = map (λ (i : Interface). i.name) interfaces

-- The reply, with what the three callbacks add: remote.c's interfaces, the list of SSIDs, and the script
-- of local_node.c if one is set. Reading the list of SSIDs can fault.
unfoldable pub usteer_ubus_get_config : List Interface → Option String → Store → Option ConfigReply
usteer_ubus_get_config interfaces node_up_script s = do
  ssid ← config_get_ssid s
  some (record {
    item = λ i. get_item i s.config;
    interfaces = config_get_interfaces interfaces;
    ssid = ssid;
    node_up_script = node_up_script;
  })

-- `ssids` is the setting "ssid", which comes after those; the two others with callbacks, "interfaces" and
-- "node_up_script", write no part of the store.
unfoldable pub usteer_ubus_set_config :
    String → (CfgItem → Option ℕ) → Option (List String) → Store → Store
usteer_ubus_set_config method tb ssids s =
    let c = if str_eq method "set_config" then usteer_init_defaults else s.config in
    config_set_ssid ssids (record s { config = set_each tb config_items c })
