-- ===== src/Ubus/Settings/Trip.antt =====
-- What the settings read as can be set again.
use usteer.Base.{List, IsI32}
use usteer.State.Config.{Config}
use usteer.State.Store.{Store}

-- The settings that are an int are in its range.
pub record IsInRange (c : Config) : Type 0 where
  pub min_connect_snr : IsI32 c.min_connect_snr
  pub min_snr : IsI32 c.min_snr
  pub roam_scan_snr : IsI32 c.roam_scan_snr
  pub roam_trigger_snr : IsI32 c.roam_trigger_snr

-- The settings of `c`, where the table has them, over `c0`.
abbrev settings_over : Config → Config → Config
settings_over c c0 = record c {
  vendor_update_interval = c0.vendor_update_interval;
  remote_node_timeout = c0.remote_node_timeout;
  node_up_script = c0.node_up_script;
}
