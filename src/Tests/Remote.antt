-- ===== src/Tests/Remote.antt =====
-- The first node and its client, told to another daemon.
use usteer.Base.{
  ℕ, ◌≡◌, refl, true, false, not, List, [], ◌∷◌, Option, none, some, String, arith, ℤ, pos, negsuc,
  to_u32, to_i32, sub32, is_some, ◌/◌, any, subst,
}
use usteer.State.Station.{idle}
use usteer.State.Node.{RemoteNode, StringArray}
use usteer.State.Store.{Store}
use usteer.Remote.Blob.{Attr, inside, nested, of_list, int32}
use usteer.Remote.Ids.{apmsg_sta_signal}
use usteer.Remote.Message.{parse_apmsg_sta, parse_apmsg_node}
use usteer.Remote.Send.{
  Remote, seen_for, usteer_send_sta_info, usteer_send_node, station_attrs, message,
  usteer_check_timeout,
}
use usteer.Remote.Receive.{interface_add_station, interface_recv_msg, fresh_remote}
use usteer.Remote.Trip.Station.{usteer_send_sta_info-parse_apmsg_sta}
use usteer.Remote.Trip.Nodes.{IsSendable, node_attrs-parse_apmsg_node}
use usteer.Remote.Silent.{still_heard, usteer_check_timeout-still_heard}
use usteer.Remote.Refusal.{interface_add_station-lacks, interface_recv_msg-own}
use usteer.Tests.Data.{network, client, node_a}
use usteer.Tests.Avl.{sorted_list}
use usteer.Tests.Blobs.{first_fitting, first_equal}
use usteer.Tests.Clients.{read_name}

usteer_send_sta_info-parse_apmsg_sta_example :
    parse_apmsg_sta first_fitting
      (inside first_fitting (usteer_send_sta_info (client idle) (network idle)))
    ≡ some (
        some (record {
          addr = 7;
          connected = true;
          signal = negsuc 79;
          timeout = to_i32 (
              sub32
                (network idle).config.local_sta_timeout
                (to_u32 (seen_for (client idle) (network idle))));
          seen = seen_for (client idle) (network idle);
        }))
usteer_send_sta_info-parse_apmsg_sta_example =
    usteer_send_sta_info-parse_apmsg_sta first_fitting (client idle) (network idle) (omega arith)
      (omega arith, omega arith)

abbrev written : ℕ → String
written a = "00:00:00:00:00:11"

node_a-IsSendable : IsSendable node_a
node_a-IsSendable = record {
  freq = (omega arith, omega arith);
  noise = (omega arith, omega arith);
  load = (omega arith, omega arith);
  n_assoc = (omega arith, omega arith);
  max_assoc = (omega arith, omega arith);
  rrm_nr = λ es e.
      subst
        (λ (o : Option StringArray).
          any (λ (t : Option String). not (is_some t)) (elim o [ none ↦ [] | some x ↦ x ]) ≡ false)
        e refl;
}

node_attrs-parse_apmsg_node_example :
    parse_apmsg_node first_fitting
      (inside first_fitting (usteer_send_node written node_a none (network idle)))
    ≡ some (
        some (record {
          name = "hostapd.wlan0";
          ssid = "net";
          bssid = some "00:00:00:00:00:11";
          freq = pos 2412;
          n_assoc = pos 20;
          max_assoc = pos 0;
          noise = negsuc 94;
          load = pos 75;
          stations = station_attrs node_a none (network idle);
          rrm_nr = node_a.rrm_nr;
          script_data = none;
        }))
node_attrs-parse_apmsg_node_example =
    node_attrs-parse_apmsg_node first_fitting written node_a none (network idle) node_a-IsSendable

abbrev told : ℕ → ℤ → RemoteNode
told ptr check = let r = fresh_remote ptr "fe80::1" 5 "hostapd.wlan0" in record r { check = check }

-- One node that was just heard, and one that was silent for long.
abbrev silent : Store
silent = record (network idle) { remote_nodes = told 3 (pos 0) ∷ told 4 (pos 200) ∷ [] }

usteer_check_timeout-still_heard_example :
    (s' : Store) × (usteer_check_timeout silent ≡ some s')
    × (s'.remote_nodes
        ≡ still_heard
            (to_i32 (silent.config.remote_node_timeout / silent.config.remote_update_interval))
            silent.remote_nodes)
usteer_check_timeout-still_heard_example =
    usteer_check_timeout-still_heard silent (refl, (refl, tt)) (λ e. absurd (ground arith))

abbrev signal_only : List Attr
signal_only = int32 apmsg_sta_signal 200 ∷ []

interface_add_station-lacks_example :
    interface_add_station sorted_list first_equal
      (λ s. 9)
      first_fitting
      read_name
      node_a
      (nested 0 (of_list signal_only))
      (network idle)
    ≡ some (network idle)
interface_add_station-lacks_example =
    interface_add_station-lacks first_fitting sorted_list first_equal (λ s. 9) read_name node_a 0
      signal_only (network idle) refl

abbrev sender : Remote
sender = record { local_id = 5; msg_seq = 0; interfaces = []; out = [] }

interface_recv_msg-own_example :
    interface_recv_msg sorted_list first_equal
      (λ s. 9)
      first_fitting
      read_name
      5
      "eth0"
      "fe80::1"
      100
      100
      (message written sender (usteer_send_node written node_a none (network idle) ∷ []))
      (network idle)
    ≡ some (network idle)
interface_recv_msg-own_example =
    interface_recv_msg-own first_fitting sorted_list first_equal (λ s. 9) read_name written sender
      (usteer_send_node written node_a none (network idle) ∷ []) "eth0" "fe80::1" 100 100
      (network idle)
