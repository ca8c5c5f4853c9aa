-- ===== src/Tests/Data.antt =====
-- A network of two nodes, one on each band, and a station that is connected to the first.
use usteer.Base.{[], ◌∷◌, Option, none, some, true, false, pos, negsuc}
use usteer.State.Config.{Config, usteer_init_defaults}
use usteer.State.Node.{Node, node_type_local, LocalNode, req_idle}
use usteer.State.Station.{Ref, StaInfo, Sta, RoamTriggerState, zero_sta_info}
use usteer.State.Store.{Store}

abbrev pub config : Config
config = record usteer_init_defaults {
  roam_trigger_snr = pos 30;
  min_snr = pos 10;
  load_kick_enabled = true;
  load_kick_delay = 1;
}

-- On 2.4 GHz, with 20 clients and a load of 75.
abbrev pub node_a : Node
node_a = record {
  ptr = 1;
  name = "hostapd.wlan0";
  type = node_type_local;
  rrm_nr = some (some "00:00:00:00:00:11" ∷ some "net" ∷ some "aa" ∷ []);
  script_data = none;
  ssid = "net";
  bssid = 0x11;
  freq = pos 2412;
  noise = negsuc 94;
  n_assoc = pos 20;
  max_assoc = pos 0;
  load = pos 75;
}

-- On 5 GHz, with 3 clients and a load of 10.
abbrev pub node_b : Node
node_b = record node_a {
  ptr = 2;
  name = "hostapd.wlan1";
  bssid = 0x22;
  freq = pos 5180;
  n_assoc = pos 3;
  load = pos 10;
}

abbrev pub local_a : LocalNode
local_a = record {
  node = node_a;
  obj_id = 101;
  req_state = req_idle;
  load_thr_count = pos 5;
  nl80211_present = true;
  req_timer = none;
  update = some 1;
  iface = "wlan0";
  req_pending = false;
  status_complete = true;
}

abbrev pub local_b : LocalNode
local_b = record {
  node = node_b;
  obj_id = 102;
  req_state = req_idle;
  load_thr_count = pos 0;
  nl80211_present = true;
  req_timer = none;
  update = some 1;
  iface = "wlan1";
  req_pending = false;
  status_complete = true;
}

abbrev pub ref_a : Ref
ref_a = record { sta = 7; node = 1 }

abbrev pub ref_b : Ref
ref_b = record { sta = 7; node = 2 }

-- The client at its own node, with a weak signal.
abbrev pub client : RoamTriggerState → StaInfo
client st =
    let blank = zero_sta_info ref_a in
    record blank {
      created = 10000;
      seen = 99000;
      signal = negsuc 79;
      roam_state = st;
      roam_event = 20000;
      connected = 1;
    }

-- The same station, heard by the other node.
abbrev pub heard : StaInfo
heard =
    let blank = zero_sta_info ref_b in
    record blank { created = 10000; seen = 99500; signal = negsuc 59 }

abbrev pub station : Sta
station = record { addr = 7; seen_2ghz = true; seen_5ghz = true }

-- At 100 seconds, with a timeout set for the entry that is only heard.
abbrev pub network : RoamTriggerState → Store
network st = record {
  config = config;
  current_time = 100000;
  clock = record { tv_sec = 100; tv_nsec = 0 };
  stations = station ∷ [];
  local_nodes = local_a ∷ local_b ∷ [];
  remote_nodes = [];
  infos = client st ∷ heard ∷ [];
  tq = record { tree = record { owner = ref_b; key = 220000 } ∷ []; timer = some (pos 120000) };
  sent = [];
  ssid_list = none;
}

-- The state after a step that is known to return.
abbrev pub after {ℓ} : {A : Type ℓ} → Store → Option (A × Store) → Store
after s none = s
after s (some (_, s')) = s'

abbrev pub run {ℓ} : {A : Type ℓ} → A → Option A → A
run s none = s
run s (some s') = s'
