-- ===== src/Tests/Progress.antt =====
-- A run in which a node comes, and what then cannot fail.
use usteer.Base.{◌≡◌, refl, inl, map, ◌↔◌, true, false, arith, none, some}
use usteer.State.Node.{LocalNode}
use usteer.State.Station.{probe}
use usteer.State.Store.{Store, local_at, node_at, usteer_update_time}
use usteer.LocalNode.State.{update_local_node}
use usteer.LocalNode.Events.{EventMsg, EventStatus, event_type_of, usteer_handle_event}
use usteer.LocalNode.Register.{
  fresh_local, nl80211_init_node, usteer_get_node, usteer_register_node, usteer_event_handler,
}
use usteer.LocalNode.Requests.{usteer_local_node_update}
use usteer.Netifd.{netifd_init_node, netifd_update_node}
use usteer.EventLoop.{start, IsReachable, stay, after, object_added}
use usteer.EventLoop.Progress.{usteer_local_node_update_returns, usteer_handle_event_returns}
use usteer.Tests.Avl.{sorted_list}
use usteer.Tests.Blobs.{first_equal}
use usteer.Tests.Loop.{libraries, clock, told, ready, written, told-config, told-IsReachable}
use usteer.Tests.Data.{run}
use usteer.State.Station.{Sta}
use usteer.Sta.Info.Invariant.{has_entry}
use usteer.Ubus.Methods.{
  Fields, InfoReply, not_found, usteer_ubus_get_clients, usteer_ubus_get_client_info,
}
use usteer.Ubus.Methods.Clients.{
  names, AllFilled, usteer_ubus_get_clients_returns, usteer_ubus_get_client_info_returns,
}

-- hostapd's object for an interface of which the kernel knows no SSID.
abbrev joined : Store
joined =
    usteer_event_handler libraries.avl libraries.lookup libraries.calloc libraries.strcmp
      (some none) none (some 4) (some "hostapd.wlan0") (start 0 false clock)

abbrev wlan : LocalNode
wlan = record (fresh_local 9 "hostapd.wlan0") {
  obj_id = 4;
  iface = "wlan0";
  nl80211_present = true;
}

joined-wlan : local_at joined 9 ≡ some wlan
unfolding usteer_event_handler usteer_register_node usteer_get_node nl80211_init_node
    update_local_node netifd_init_node netifd_update_node usteer_update_time first_equal sorted_list
joined-wlan = refl

joined-node : node_at joined 9 ≡ some wlan.node
unfolding usteer_event_handler usteer_register_node usteer_get_node nl80211_init_node
    update_local_node netifd_init_node netifd_update_node usteer_update_time first_equal sorted_list
joined-node = refl

joined-config : joined.config ≡ (start 0 false clock).config
unfolding usteer_event_handler usteer_register_node usteer_get_node nl80211_init_node
    update_local_node netifd_init_node netifd_update_node usteer_update_time first_equal sorted_list
joined-config = refl

joined-IsReachable : IsReachable libraries joined
unfolding IsReachable
joined-IsReachable =
    (0, false, clock, after stay (object_added (some none) none (some 4) (some "hostapd.wlan0")))

usteer_local_node_update_returns_example :
    (s' : Store) × (usteer_local_node_update none 9 joined ≡ some s')
unfolding usteer_update_time
usteer_local_node_update_returns_example =
    usteer_local_node_update_returns libraries none 9 wlan joined joined-IsReachable joined-wlan
      (rw joined-config (omega arith)) (rw joined-config (omega arith))

abbrev probed : EventMsg
probed = record {
  address = some "00:00:00:00:00:07";
  signal = some 0xffffffc4;
  freq = some 2412;
  report = record {
    address = none;
    op_class = none;
    channel = none;
    rcpi = none;
    rsni = none;
    bssid = none;
  };
}

probe_type : event_type_of "probe" ≡ some probe
unfolding event_type_of
probe_type = refl

usteer_handle_event_returns_example :
    (r : EventStatus) × (s' : Store) × (usteer_handle_event libraries.avl libraries.ether_aton 9
        "probe" probed joined
      ≡ some (r, s'))
unfolding usteer_update_time
usteer_handle_event_returns_example =
    usteer_handle_event_returns libraries 9 "probe" probe probed wlan.node joined joined-IsReachable
      joined-node probe_type (inl refl) (rw joined-config refl)

usteer_ubus_get_clients_returns_example :
    (fs : Fields) × (usteer_ubus_get_clients written (run ready told) ≡ some fs)
    × (names fs ≡ map (λ (t : Sta). written t.addr) (run ready told).stations)
    × AllFilled fs
usteer_ubus_get_clients_returns_example =
    usteer_ubus_get_clients_returns written libraries (run ready told) told-IsReachable

usteer_ubus_get_client_info_returns_example :
    (r : InfoReply) × (usteer_ubus_get_client_info written libraries.avl libraries.ether_aton
        (some "00:00:00:00:00:07")
        (run ready told)
      ≡ some r)
    × ((r ≡ not_found) ↔ (has_entry 7 (run ready told).infos ≡ false))
unfolding usteer_update_time
usteer_ubus_get_client_info_returns_example =
    usteer_ubus_get_client_info_returns written libraries "00:00:00:00:00:07" 7 (run ready told)
      told-IsReachable refl (rw told-config (omega arith))
