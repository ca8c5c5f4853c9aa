-- ===== src/Tests/Loop.antt =====
-- A run of the event loop: the SSIDs are set, and another daemon's message comes.
use usteer.Base.{
  pos, str_eq, if◌then◌else◌, ℕ, ◌≡◌, refl, List, [], ◌∷◌, Option, none, some, String, true, false,
}
use usteer.Timeout.{Timespec}
use usteer.State.Station.{idle}
use usteer.State.Store.{Store, put_info, usteer_update_time}
use usteer.Sta.Info.{
  usteer_sta_del, usteer_sta_info_del, usteer_sta_get, usteer_sta_info_get,
  usteer_sta_info_update_timeout,
}
use usteer.Sta.Info.Invariant.{IsSafe}
use usteer.LocalNode.Requests.Cycle.{round, IsRound, round-IsRound}
use usteer.Remote.Message.{
  parse_apmsg, parse_apmsg_node, parse_apmsg_sta, get_int32, kept_array, rrm_at, rrm_of, script_at,
}
use usteer.Remote.Send.{
  Interface, Remote, message, usteer_send_node, node_attrs, usteer_send_sta_info, rrm_attrs,
  script_attrs, station_attrs,
}
use usteer.Remote.Receive.{
  Datagram, interface_recv, interface_recv_msg, add_nodes, interface_add_node, add_parsed_node,
  interface_get_node, add_stations, interface_add_station, add_parsed_station, stored_info,
  remote_node_cmp,
}
use usteer.Ubus.Settings.{usteer_ubus_set_config, set_each}
use usteer.Ubus.Ssids.{config_set_ssid, usteer_is_valid_ssid, config_get_ssid}
use usteer.Ubus.Ssids.Valid.{config_set_ssid-usteer_is_valid_ssid, config_get_ssid-config_set_ssid}
use usteer.Netifd.{RadioMsg, netifd_status_cb}
use usteer.Netifd.Limit.{with_config, netifd_status_cb_lem}
use usteer.EventLoop.{Libraries, start, IsReachable, stay, after, settings, datagrams}
use usteer.EventLoop.Sound.{IsReachable-IsSafe}
use usteer.Tests.Data.{network, node_a, local_a, run}
use usteer.Tests.Avl.{sorted_list}
use usteer.Tests.Blobs.{first_fitting, first_equal}
use usteer.Tests.Clients.{whole, read_name, no_reply}

abbrev pub written : ℕ → String
written a = "00:00:00:00:00:07"

abbrev pub libraries : Libraries
libraries = record {
  avl = sorted_list;
  lookup = first_equal;
  blob = first_fitting;
  f = whole;
  calloc = λ s. 9;
  strcmp = λ a b. if str_eq a b then pos 0 else pos 1;
  ether_aton = read_name;
  ether_ntoa = written;
  station_reply = no_reply;
}

abbrev pub clock : Timespec
clock = record { tv_sec = 100; tv_nsec = 0 }

abbrev pub ready : Store
ready = usteer_ubus_set_config "update_config" (λ i. none) (some ("net" ∷ [])) (start 0 false clock)

abbrev pub sender : Remote
sender = record { local_id = 5; msg_seq = 0; interfaces = []; out = [] }

-- All entries of the first node, from the daemon with the id 5.
abbrev pub arrived : List Datagram
arrived =
    record {
      scope_id = 2;
      addr = "fe80::1";
      pad_len = 100;
      len = 100;
      contents = message written sender (usteer_send_node written node_a none (network idle) ∷ []);
    }
    ∷ []

abbrev pub wired : List Interface
wired = record { name = "eth0"; ifindex = 2 } ∷ []

abbrev pub told : Option Store
told = interface_recv sorted_list first_equal (λ s. 9) first_fitting read_name 1 wired arrived ready

told-some : told ≡ some (run ready told)
unfolding usteer_ubus_set_config set_each interface_recv config_set_ssid interface_recv_msg
    parse_apmsg first_fitting message add_nodes interface_add_node parse_apmsg_node usteer_send_node
    node_attrs add_parsed_node usteer_is_valid_ssid add_stations interface_add_station
    parse_apmsg_sta usteer_send_sta_info add_parsed_station get_int32 kept_array rrm_at rrm_of
    script_at interface_get_node remote_node_cmp stored_info rrm_attrs script_attrs station_attrs
    usteer_sta_del usteer_sta_get usteer_sta_info_del usteer_sta_info_get
    usteer_sta_info_update_timeout put_info first_equal usteer_update_time
told-some = refl

pub told-IsReachable : IsReachable libraries (run ready told)
unfolding IsReachable
told-IsReachable = (
  0,
  false,
  clock,
  after (after stay (settings "update_config" (λ i. none) (some ("net" ∷ []))))
      (datagrams 1 wired arrived told-some),
)

IsReachable-IsSafe_example : IsSafe (run ready told)
IsReachable-IsSafe_example = IsReachable-IsSafe libraries (run ready told) told-IsReachable

pub told-config : (run ready told).config ≡ (start 0 false clock).config
unfolding usteer_ubus_set_config set_each interface_recv config_set_ssid interface_recv_msg
    parse_apmsg first_fitting message add_nodes interface_add_node parse_apmsg_node usteer_send_node
    node_attrs add_parsed_node usteer_is_valid_ssid add_stations interface_add_station
    parse_apmsg_sta usteer_send_sta_info add_parsed_station get_int32 kept_array rrm_at rrm_of
    script_at interface_get_node remote_node_cmp stored_info rrm_attrs script_attrs station_attrs
    usteer_sta_del usteer_sta_get usteer_sta_info_del usteer_sta_info_get
    usteer_sta_info_update_timeout put_info first_equal usteer_update_time
told-config = refl

-- The first node is in REQ_IDLE.
round-IsRound_example :
    (s' : Store) × (round 1 (network idle) ≡ some s') × IsRound 1 local_a (network idle) s'
round-IsRound_example = round-IsRound 1 local_a (network idle) refl refl

config_set_ssid-usteer_is_valid_ssid_example :
    usteer_is_valid_ssid (config_set_ssid (some ("net" ∷ "guest" ∷ [])) (network idle)) "guest"
    ≡ true
config_set_ssid-usteer_is_valid_ssid_example =
    config_set_ssid-usteer_is_valid_ssid ("net" ∷ "guest" ∷ []) "guest" (network idle)

config_get_ssid-config_set_ssid_example :
    (config_get_ssid (config_set_ssid (some ("net" ∷ "guest" ∷ [])) (network idle))
      ≡ some ("guest" ∷ "net" ∷ []))
    × (config_get_ssid (record (network idle) { ssid_list = none }) ≡ none)
config_get_ssid-config_set_ssid_example =
    config_get_ssid-config_set_ssid ("net" ∷ "guest" ∷ []) (network idle)

abbrev wireless_status : List RadioMsg
wireless_status =
    some (
      some (
        some (record { config = some (some 30); ifname = some "wlan0" })
        ∷ some (record { config = some (some 50); ifname = some "wlan1" })
        ∷ none
        ∷ []))
    ∷ none
    ∷ []

netifd_status_cb_lem_example :
    netifd_status_cb wireless_status local_a
    ≡ with_config (some (some 30)) (record local_a { req_pending = false })
netifd_status_cb_lem_example = netifd_status_cb_lem wireless_status local_a

abbrev told_about : Store
told_about = config_set_ssid (some ("net" ∷ "guest" ∷ [])) (network idle)
