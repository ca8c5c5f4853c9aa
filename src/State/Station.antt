-- ===== src/State/Station.antt =====
-- The stations and what is known of them at each node (usteer.h, hearing_map.h).
use usteer.Base.{ℕ, ◌≡◌, ◌↔◌, Bool, true, false, ◌&&◌, List, [], ◌==◌, ℤ, pos, arith}
use usteer.Timeout.{Key}

pub data EventType : Type 0 where
  probe assoc auth beacon : EventType

pub data RoamTriggerState : Type 0 where
  idle scan scan_done wait_kick notify_kick kick : RoamTriggerState

pub record StaInfoStats : Type 0 where
  pub requests : ℕ
  pub blocked_cur : ℕ
  pub blocked_total : ℕ
  pub blocked_last_time : ℕ

-- `stats[__EVENT_TYPE_MAX]`, with a field for each event.
pub record StatsTable : Type 0 where
  pub on_probe : StaInfoStats
  pub on_assoc : StaInfoStats
  pub on_auth : StaInfoStats
  pub on_beacon : StaInfoStats

abbrev pub stats_of : EventType → StatsTable → StaInfoStats
stats_of probe t = t.on_probe
stats_of assoc t = t.on_assoc
stats_of auth t = t.on_auth
stats_of beacon t = t.on_beacon

abbrev pub set_stats : EventType → StaInfoStats → StatsTable → StatsTable
set_stats probe x t = record t { on_probe = x }
set_stats assoc x t = record t { on_assoc = x }
set_stats auth x t = record t { on_auth = x }
set_stats beacon x t = record t { on_beacon = x }

-- `data[i][j]`: i is 0 for the older sample and 1 for the newer, j is 0 for rx and 1 for tx.
pub record StaActiveBytes : Type 0 where
  pub old_rx : ℕ
  pub old_tx : ℕ
  pub new_rx : ℕ
  pub new_tx : ℕ
  pub last_time : ℕ

pub record BeaconRequest : Type 0 where
  pub band : ℤ
  pub failed_requests : ℕ  -- uint8_t
  pub last_report_time : ℕ
  pub last_request_time : ℕ

-- A station is named by its address, the number that its six bytes write; what is known of it at a
-- node, a `struct sta_info`, by that address and the node's.
pub record Ref : Type 0 where
  pub sta : ℕ
  pub node : ℕ

abbrev pub ref_eq : Ref → Ref → Bool
ref_eq a b = a.sta == b.sta && a.node == b.node

pub ref_eq_iff : (a b : Ref) → (ref_eq a b ≡ true) ↔ (a ≡ b)
ref_eq_iff a b = ground arith

instance abbrev pub ref_key : Key Ref
ref_key = record { same = ref_eq; same_iff = ref_eq_iff }

pub record BeaconReport : Type 0 where
  pub address : Ref
  pub bssid : ℕ
  pub rcpi : ℕ  -- uint16_t, as the next three
  pub rsni : ℕ
  pub op_class : ℕ
  pub channel : ℕ
  pub usteer_time : ℕ

-- `kick_count` is an int that only counts up; `roam_tries` is a uint8_t, and `connected` has two
-- bits.
pub record StaInfo : Type 0 where
  pub self : Ref
  pub beacon_reports : List BeaconReport
  pub stats : StatsTable
  pub created : ℕ
  pub seen : ℕ
  pub signal : ℤ
  pub roam_state : RoamTriggerState
  pub roam_tries : ℕ
  pub roam_event : ℕ
  pub roam_kick : ℕ
  pub roam_scan_done : ℕ
  pub kick_count : ℕ
  pub active_bytes : StaActiveBytes
  pub beacon_request : BeaconRequest
  pub scan_band : Bool
  pub connected : ℕ

pub record Sta : Type 0 where
  pub addr : ℕ
  pub seen_2ghz : Bool
  pub seen_5ghz : Bool

abbrev zero_stats : StaInfoStats
zero_stats = record { requests = 0; blocked_cur = 0; blocked_total = 0; blocked_last_time = 0 }

-- What `calloc` leaves of a `struct sta_info`.
abbrev pub zero_sta_info : Ref → StaInfo
zero_sta_info r = record {
  self = r;
  beacon_reports = [];
  stats = record {
    on_probe = zero_stats;
    on_assoc = zero_stats;
    on_auth = zero_stats;
    on_beacon = zero_stats;
  };
  created = 0;
  seen = 0;
  signal = pos 0;
  roam_state = idle;
  roam_tries = 0;
  roam_event = 0;
  roam_kick = 0;
  roam_scan_done = 0;
  kick_count = 0;
  active_bytes = record { old_rx = 0; old_tx = 0; new_rx = 0; new_tx = 0; last_time = 0 };
  beacon_request = record {
    band = pos 0;
    failed_requests = 0;
    last_report_time = 0;
    last_request_time = 0;
  };
  scan_band = false;
  connected = 0;
}
