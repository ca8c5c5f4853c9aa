-- ===== src/Remote/Refusal.antt =====
-- The messages that change nothing: those that lack a part, and the daemon's own.
use usteer.Base.{
  ℕ, ◌≡◌, refl, Bool, true, not, any, List, [], ◌∷◌, Option, none, some, String, arith,
}
use usteer.Base.Avl.{AvlTree, AvlLookup}
use usteer.State.Node.{Node}
use usteer.State.Store.{Store}
use usteer.Remote.Blob.{Attr, nested, of_list, to_list-of_list, has_id, BlobParse}
use usteer.Remote.Ids.{
  apmsg_node_name, apmsg_node_freq, apmsg_node_n_assoc, apmsg_node_stations, apmsg_node_ssid,
  apmsg_node_max, apmsg_sta_addr, apmsg_sta_signal, apmsg_sta_timeout, apmsg_sta_seen,
  apmsg_sta_connected, apmsg_sta_max,
}
use usteer.Remote.Message.{apmsg_node_policy, apmsg_sta_policy, parse_apmsg_node, parse_apmsg_sta}
use usteer.Remote.Send.{Remote, message}
use usteer.Remote.Receive.{interface_add_station, interface_add_node, interface_recv_msg}
use usteer.Remote.Trip.Whole.{message-parse_apmsg}

-- One of the ids is missing.
abbrev pub lacks : List ℕ → List Attr → Bool
lacks is l = any (λ i. not (has_id i l)) is

abbrev pub sta_required : List ℕ
sta_required =
    apmsg_sta_addr ∷ apmsg_sta_signal ∷ apmsg_sta_seen ∷ apmsg_sta_timeout ∷ apmsg_sta_connected
    ∷ []

abbrev pub node_required : List ℕ
node_required =
    apmsg_node_name ∷ apmsg_node_freq ∷ apmsg_node_n_assoc ∷ apmsg_node_stations ∷ apmsg_node_ssid
    ∷ []

module _ (blob : BlobParse) where
  parse_apmsg_sta-lacks :
      (l : List Attr) → lacks sta_required l ≡ true → parse_apmsg_sta blob l ≡ some none
  unfolding parse_apmsg_sta
  parse_apmsg_sta-lacks l h =
      let gone = blob.parse_absent apmsg_sta_policy apmsg_sta_max l in
      ground (
        arith,
        gone apmsg_sta_addr,
        gone apmsg_sta_signal,
        gone apmsg_sta_seen,
        gone apmsg_sta_timeout,
        gone apmsg_sta_connected,
      )

  parse_apmsg_node-lacks :
      (l : List Attr) → lacks node_required l ≡ true → parse_apmsg_node blob l ≡ some none
  unfolding parse_apmsg_node
  parse_apmsg_node-lacks l h =
      let gone = blob.parse_absent apmsg_node_policy apmsg_node_max l in
      ground (
        arith,
        gone apmsg_node_name,
        gone apmsg_node_freq,
        gone apmsg_node_n_assoc,
        gone apmsg_node_stations,
        gone apmsg_node_ssid,
      )

  module _ (avl : AvlTree) (lookup : AvlLookup) (calloc : Store → ℕ)
      (ether_aton : String → Option ℕ) where
    -- A station in a message that lacks its address, signal, age, timeout or whether it is
    -- connected changes nothing.
    pub interface_add_station-lacks :
        (n : Node) (i : ℕ) (l : List Attr) (s : Store)
        → lacks sta_required l ≡ true
        → interface_add_station avl lookup calloc blob ether_aton n (nested i (of_list l)) s
          ≡ some s
    unfolding interface_add_station
    interface_add_station-lacks n i l s h = rw (to_list-of_list l, parse_apmsg_sta-lacks l h) refl

    pub interface_add_node-lacks :
        (iface addr : String) (id i : ℕ) (l : List Attr) (s : Store)
        → lacks node_required l ≡ true
        → interface_add_node avl lookup calloc blob ether_aton iface addr id
            (nested i (of_list l))
            s
          ≡ some s
    unfolding interface_add_node
    interface_add_node-lacks iface addr id i l s h =
        rw (to_list-of_list l, parse_apmsg_node-lacks l h) refl

    -- A daemon that hears its own message changes nothing, whatever nodes are in it and whatever
    -- lengths are given.
    pub interface_recv_msg-own :
        (ether_ntoa : ℕ → String) (r : Remote) (nodes : List Attr) (iface addr : String)
        (pad_len len : ℕ) (s : Store)
        → interface_recv_msg avl lookup calloc blob ether_aton r.local_id iface addr pad_len len
            (message ether_ntoa r nodes)
            s
          ≡ some s
    unfolding interface_recv_msg
    interface_recv_msg-own ether_ntoa r nodes iface addr pad_len len s =
        let read = message-parse_apmsg blob ether_ntoa r nodes in ground arith
