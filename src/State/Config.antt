-- ===== src/State/Config.antt =====
-- `struct usteer_config` (usteer.h) and its defaults (main.c).
use usteer.Base.{ℕ, ◌*◌, Bool, false, Option, none, String, ℤ, pos}

pub record Config : Type 0 where
  pub syslog : Bool
  pub remote_disabled : Bool
  pub debug_level : ℕ
  pub sta_block_timeout : ℕ
  pub local_sta_timeout : ℕ
  pub local_sta_update : ℕ
  pub max_retry_band : ℕ
  pub seen_policy_timeout : ℕ
  pub band_steering_threshold : ℕ
  pub load_balancing_threshold : ℕ
  pub vendor_update_interval : ℕ
  pub remote_update_interval : ℕ
  pub remote_node_timeout : ℕ
  pub min_snr : ℤ
  pub min_connect_snr : ℤ
  pub signal_diff_threshold : ℕ
  pub roam_scan_snr : ℤ
  pub roam_scan_tries : ℕ
  pub roam_scan_interval : ℕ
  pub roam_trigger_snr : ℤ
  pub roam_trigger_interval : ℕ
  pub roam_kick_delay : ℕ
  pub initial_connect_delay : ℕ
  pub load_kick_enabled : Bool
  pub load_kick_threshold : ℕ
  pub load_kick_delay : ℕ
  pub load_kick_min_clients : ℕ
  pub load_kick_reason_code : ℕ
  pub kick_client_active_sec : ℕ
  pub kick_client_active_bits : ℕ
  pub beacon_report_invalide_timeout : ℕ
  pub beacon_request_frequency : ℕ
  pub beacon_request_signal_modifier : ℕ
  pub node_up_script : Option String

-- `memset` to 0, then the assignments of `usteer_init_defaults`.
abbrev pub usteer_init_defaults : Config
usteer_init_defaults = record {
  syslog = false;
  remote_disabled = false;
  debug_level = 0;
  sta_block_timeout = 30 * 1000;
  local_sta_timeout = 120 * 1000;
  local_sta_update = 1 * 1000;
  max_retry_band = 5;
  seen_policy_timeout = 30 * 1000;
  band_steering_threshold = 5;
  load_balancing_threshold = 5;
  vendor_update_interval = 60 * 1000;
  remote_update_interval = 1000;
  remote_node_timeout = 120 * 1000;
  min_snr = pos 0;
  min_connect_snr = pos 0;
  signal_diff_threshold = 0;
  roam_scan_snr = pos 0;
  roam_scan_tries = 3;
  roam_scan_interval = 10 * 1000;
  roam_trigger_snr = pos 0;
  roam_trigger_interval = 60 * 1000;
  roam_kick_delay = 100;
  initial_connect_delay = 0;
  load_kick_enabled = false;
  load_kick_threshold = 75;
  load_kick_delay = 10 * 1000;
  load_kick_min_clients = 10;
  load_kick_reason_code = 5;
  kick_client_active_sec = 30;
  kick_client_active_bits = 50000;
  beacon_report_invalide_timeout = 200;
  beacon_request_frequency = 30 * 1000;
  beacon_request_signal_modifier = 20 * 1000;
  node_up_script = none;
}
