-- ===== src/EventLoop/Sound.antt =====
-- The invariant of stations, entries, timeouts and nodes, over the whole event loop.
use usteer.Base.{Bool, ℕ, ◌∙◌, refl, List, Option, none, some, String, arith}
use usteer.Timeout.{Timespec, usteer_timeout_isset, usteer_timeout_init}
use usteer.State.Station.{ref_key}
use usteer.State.Store.{Store, update_node, usteer_update_time}
use usteer.LocalNode.State.{update_local_node}
use usteer.LocalNode.Requests.{usteer_local_node_req_cb}
use usteer.Sta.Info.Invariant.{IsSound, IsSafe}
use usteer.Sta.Info.Known.{update_node-IsSound}
use usteer.Sta.Info.Nodes.{IsSound-IsSafe}
use usteer.Sta.Info.Timed.{usteer_timeout_cb-IsSound}
use usteer.LocalNode.Events.Sound.{usteer_handle_event-IsSound}
use usteer.LocalNode.Clients.Sound.{usteer_local_node_list_cb-IsSound}
use usteer.Netifd.{netifd_status_cb}
use usteer.Netifd.Limit.{netifd_status_cb-ptr}
use usteer.LocalNode.Register.Sound.{usteer_event_handler-IsSafe}
use usteer.LocalNode.Requests.Sound.{
  update_local_node-IsSound, usteer_handle_remove-IsSafe, usteer_local_node_state_next-IsSound,
  usteer_local_node_req_cb-IsSound, usteer_local_node_rrm_nr_cb-IsSafe,
  usteer_local_node_update-IsSound,
}
use usteer.Remote.Sound.{usteer_send_update_timer-IsSafe}
use usteer.Remote.Receive.Sound.{interface_recv-IsSafe}
use usteer.Ubus.Ssids.{config_set_ssid}
use usteer.Remote.Vendor.Sound.{usteer_vendor_update_timer-IsSafe}
use usteer.Ubus.Settings.{CfgItem, usteer_ubus_set_config}
use usteer.EventLoop.{
  Libraries, start, Step, Steps, IsReachable, time_passes, event, clients, neighbor_report,
  request_complete, request_timer, update_timer, node_removed, timeout, datagrams, send_timer,
  vendor_timer, object_added, status_reply, surveyed, settings, stay, after,
}

config_set_ssid-IsSound :
    {N : ℕ → Bool} (names : Option (List String)) (s : Store)
    → IsSound N s
    → IsSound N (config_set_ssid names s)
unfolding config_set_ssid
config_set_ssid-IsSound none s h = h
config_set_ssid-IsSound (some names) s h = h

settings-IsSound :
    {N : ℕ → Bool} (method : String) (tb : CfgItem → Option ℕ) (names : Option (List String))
    (s : Store)
    → IsSound N s
    → IsSound N (usteer_ubus_set_config method tb names s)
unfolding usteer_ubus_set_config
settings-IsSound method tb names s h = config_set_ssid-IsSound names _ h

start-IsSafe :
    (debug_level : ℕ) (syslog : Bool) (clock : Timespec) → IsSafe (start debug_level syslog clock)
unfolding usteer_timeout_init usteer_timeout_isset usteer_update_time
start-IsSafe debug_level syslog clock = record {
  rooted = λ a. refl;
  unique = tt;
  alive = λ q h. absurd (ground arith);
  linked = λ q h. absurd (ground arith);
  noded = λ p. refl;
  owned = tt;
}

module _ (lib : Libraries) where
  Step-IsSafe : (s s' : Store) → Step lib s s' → IsSafe s → IsSafe s'
  Step-IsSafe s _ (time_passes clock) h = h
  Step-IsSafe s s' (event p method msg r e) h =
      IsSound-IsSafe s' (usteer_handle_event-IsSound lib.avl lib.ether_aton p method msg r s s' e h)
  Step-IsSafe s s' (clients p freq cl e) h = IsSound-IsSafe s' (
      usteer_local_node_list_cb-IsSound lib.avl lib.f lib.ether_aton lib.station_reply p freq cl s
        s' e h)
  Step-IsSafe s s' (neighbor_report p value e) h =
      usteer_local_node_rrm_nr_cb-IsSafe lib.ether_aton p value s s' e h
  Step-IsSafe s _ (request_complete p) h =
      IsSound-IsSafe (usteer_local_node_req_cb p s) (usteer_local_node_req_cb-IsSound p s h)
  Step-IsSafe s s' (request_timer p e) h =
      IsSound-IsSafe s' (usteer_local_node_state_next-IsSound p s s' e h)
  Step-IsSafe s s' (update_timer wireless p e) h =
      IsSound-IsSafe s' (usteer_local_node_update-IsSound wireless p s s' e h)
  Step-IsSafe s s' (node_removed p e) h = usteer_handle_remove-IsSafe p s s' e h
  Step-IsSafe s s' (timeout times e) h =
      IsSound-IsSafe s' (usteer_timeout_cb-IsSound times s s' e h)
  Step-IsSafe s s' (datagrams local_id ifaces ds e) h =
      interface_recv-IsSafe lib.avl lib.lookup lib.calloc lib.blob lib.ether_aton local_id ifaces ds
        s s' e h
  Step-IsSafe s s' (send_timer r r' e) h =
      usteer_send_update_timer-IsSafe lib.ether_ntoa s s' r r' e h
  Step-IsSafe s s' (vendor_timer buf index ifaces ifaddr delay e) h =
      usteer_vendor_update_timer-IsSafe buf index ifaces ifaddr delay s s' e h
  Step-IsSafe s _ (object_added interface wireless id path) h =
      usteer_event_handler-IsSafe lib.avl lib.lookup lib.calloc lib.strcmp interface wireless id
        path s h
  Step-IsSafe s _ (status_reply p msg) h =
      IsSound-IsSafe (update_local_node p (netifd_status_cb msg) s) (
        update_local_node-IsSound p (netifd_status_cb msg) s (λ l e. netifd_status_cb-ptr msg l ∙ e)
          h)
  Step-IsSafe s _ (surveyed p noise load) h =
      IsSound-IsSafe (update_node p (λ n. record n { noise = noise; load = load }) s)
        (update_node-IsSound p (λ n. record n { noise = noise; load = load }) s (λ _. refl) h)
  Step-IsSafe s _ (settings method tb names) h =
      IsSound-IsSafe (usteer_ubus_set_config method tb names s)
        (settings-IsSound method tb names s h)

  Steps-IsSafe : (s s' : Store) → Steps lib s s' → IsSafe s → IsSafe s'
  Steps-IsSafe s _ stay h = h
  Steps-IsSafe s s'' (after {s' = t} run step) h = Step-IsSafe t s'' step (Steps-IsSafe s t run h)

  -- In every state that the daemon can reach by callbacks that return, in any order and with any
  -- inputs, a station is kept exactly while it has an entry, no two entries are of the same
  -- station and node, a timeout is set only for an entry that is there, the node of each entry is
  -- there, and each beacon report points to the entry that holds it.
  pub IsReachable-IsSafe : (s : Store) → IsReachable lib s → IsSafe s
  unfolding IsReachable
  IsReachable-IsSafe s (debug_level, syslog, clock, run) =
      Steps-IsSafe (start debug_level syslog clock) s run (start-IsSafe debug_level syslog clock)
