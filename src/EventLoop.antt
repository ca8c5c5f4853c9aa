-- ===== src/EventLoop.antt =====
-- main.c: the event loop. Each callback that uloop or ubus makes is a step of the daemon's state.
pub mod Sound
pub mod Progress
use usteer.Base.{Bool, ℕ, ℤ, ◌≡◌, List, [], Option, none, some, String, refl}
use usteer.Base.Avl.{AvlTree, AvlLookup}
use usteer.Timeout.{Timespec, usteer_timeout_cb, usteer_timeout_init}
use usteer.State.Config.{usteer_init_defaults}
use usteer.State.Node.{LocalNode, StringArray}
use usteer.State.Station.{ref_key}
use usteer.State.Store.{Store, update_node, usteer_update_time}
use usteer.LocalNode.State.{update_local_node}
use usteer.LocalNode.Register.{usteer_event_handler}
use usteer.Netifd.{RadioMsg, netifd_status_cb}
use usteer.Sta.Info.{usteer_sta_info_timeout}
use usteer.Sta.Info.Expiry.{queue_of, put_queue}
use usteer.HearingMap.Requests.{FloatOps}
use usteer.LocalNode.Events.{EventMsg, EventStatus, usteer_handle_event}
use usteer.LocalNode.Clients.{ClientMsg, usteer_local_node_list_cb}
use usteer.LocalNode.Requests.{
  usteer_handle_remove, usteer_local_node_state_next, usteer_local_node_req_cb,
  usteer_local_node_rrm_nr_cb, usteer_local_node_update,
}
use usteer.Remote.Blob.{BlobParse}
use usteer.Remote.Send.{Interface, Remote, usteer_send_update_timer}
use usteer.Remote.Receive.{Datagram, interface_recv}
use usteer.Remote.Vendor.{StringBuffer, IfAddr, usteer_vendor_update_timer}
use usteer.Ubus.Settings.{CfgItem, usteer_ubus_set_config}

-- What the daemon takes from its libraries.
pub record Libraries : Type 1 where
  pub avl : AvlTree
  pub lookup : AvlLookup
  pub blob : BlobParse
  pub f : FloatOps
  pub calloc : Store → ℕ
  pub strcmp : String → String → ℤ
  pub ether_aton : String → Option ℕ
  pub ether_ntoa : ℕ → String
  pub station_reply : LocalNode → ℕ → Option (Option ℕ)

-- The state before the first event, with what the command line sets.
abbrev pub start : ℕ → Bool → Timespec → Store
start debug_level syslog clock = usteer_update_time (record {
  config = record usteer_init_defaults { debug_level = debug_level; syslog = syslog };
  current_time = 0;
  clock = clock;
  stations = [];
  local_nodes = [];
  remote_nodes = [];
  infos = [];
  tq = usteer_timeout_init;
  sent = [];
  ssid_list = none;
})

module _ (lib : Libraries) where
  -- A callback that returns; the time that the clock shows is nobody's to choose.
  pub data Step (s : Store) : Store → Type 0 where
    time_passes : (clock : Timespec) → Step s (record s { clock = clock })
    event :
        {s' : Store} (p : ℕ) (method : String) (msg : EventMsg) (r : EventStatus)
        → usteer_handle_event lib.avl lib.ether_aton p method msg s ≡ some (r, s')
        → Step s s'
    clients :
        {s' : Store} (p : ℕ) (freq : Option ℕ) (cl : Option (List ClientMsg))
        → usteer_local_node_list_cb lib.avl lib.f lib.ether_aton lib.station_reply p freq cl s
          ≡ some s'
        → Step s s'
    neighbor_report :
        {s' : Store} (p : ℕ) (value : Option StringArray)
        → usteer_local_node_rrm_nr_cb lib.ether_aton p value s ≡ some s'
        → Step s s'
    request_complete : (p : ℕ) → Step s (usteer_local_node_req_cb p s)
    request_timer : {s' : Store} (p : ℕ) → usteer_local_node_state_next p s ≡ some s' → Step s s'
    update_timer :
        {s' : Store} (wireless : Option ℕ) (p : ℕ)
        → usteer_local_node_update wireless p s ≡ some s'
        → Step s s'
    node_removed : {s' : Store} (p : ℕ) → usteer_handle_remove p s ≡ some s' → Step s s'
    timeout :
        {s' : Store} (times : List ℕ)
        → usteer_timeout_cb queue_of put_queue usteer_sta_info_timeout times s ≡ some s'
        → Step s s'
    datagrams :
        {s' : Store} (local_id : ℕ) (ifaces : List Interface) (ds : List Datagram)
        → interface_recv lib.avl lib.lookup lib.calloc lib.blob lib.ether_aton local_id ifaces ds s
          ≡ some s'
        → Step s s'
    send_timer :
        {s' : Store} (r r' : Remote)
        → usteer_send_update_timer lib.ether_ntoa s r ≡ some (s', r')
        → Step s s'
    vendor_timer :
        {s' : Store} (buf : StringBuffer) (if_nametoindex : String → ℕ) (ifaces : List Interface)
        (ifaddr : Option (List IfAddr)) (delay : ℕ)
        → usteer_vendor_update_timer buf if_nametoindex ifaces ifaddr s ≡ some (delay, s')
        → Step s s'
    object_added :
        (interface : Option (Option String)) (wireless id : Option ℕ) (path : Option String)
        → Step s (
            usteer_event_handler lib.avl lib.lookup lib.calloc lib.strcmp interface wireless id path
              s)
    status_reply :
        (p : ℕ) (msg : List RadioMsg) → Step s (update_local_node p (netifd_status_cb msg) s)
    -- nl80211.c's survey of the channel, with any result.
    surveyed :
        (p : ℕ) (noise load : ℤ)
        → Step s (update_node p (λ n. record n { noise = noise; load = load }) s)
    settings :
        (method : String) (tb : CfgItem → Option ℕ) (names : Option (List String))
        → Step s (usteer_ubus_set_config method tb names s)

  -- A run of the loop.
  pub data Steps (s : Store) : Store → Type 0 where
    stay : Steps s s
    after : {s' s'' : Store} → Steps s s' → Step s' s'' → Steps s s''

  -- The states that the daemon can be in.
  unfoldable pub IsReachable : Store → Type 0
  IsReachable s =
      (debug_level : ℕ) × (syslog : Bool) × (clock : Timespec) × Steps
        (start debug_level syslog clock) s
