-- ===== src/LocalNode/Clients.antt =====
-- local_node.c: the update of a node's entries from the list of its clients.
pub mod Connected
pub mod Sound
use usteer.Base.{
  to_i8, ℕ, suc, ◌+◌, ◌*◌, ◌-◌, Bool, true, false, not, ◌&&◌, List, [], ◌∷◌, Option, none, some,
  String, ◌>>=◌, ◌==◌, if◌then◌else◌, ltb, map, ℤ, pos, negsuc, u32, sub64, to_i32,
}
use usteer.Base.Avl.{AvlTree}
use usteer.State.Config.{Config}
use usteer.State.Node.{Node, LocalNode}
use usteer.State.Station.{Ref, StaInfo}
use usteer.State.Store.{Store, of_node, find_info, local_at, put_info, update_node}
use usteer.Sta.Info.{
  usteer_sta_get, usteer_sta_info_get, usteer_sta_info_update, usteer_sta_info_update_timeout,
  no_signal,
}
use usteer.Sta.Event.{put_seen}
use usteer.HearingMap.Requests.{FloatOps, usteer_beacon_request_check}

-- The "bytes" table of a client, as far as it is there.
pub record BytesMsg : Type 0 where
  pub rx : Option ℕ
  pub tx : Option ℕ

-- An element of the table of clients: its name and what `blobmsg_parse` finds in it.
pub record ClientMsg : Type 0 where
  pub name : String
  pub assoc : Option Bool
  pub bytes : Option BytesMsg

-- `if (si->connected) si->connected = 2` over the node's entries.
mark_stale : ℕ → StaInfo → StaInfo
mark_stale p si =
    if si.self.node == p && not (si.connected == 0) then record si { connected = 2 } else si

says_assoc : Option Bool → Bool
says_assoc none = false
says_assoc (some b) = b

-- Both writes: to the entry and to the station.
usteer_local_node_assoc_update : Node → ClientMsg → StaInfo → Store → StaInfo × Store
unfolding says_assoc
usteer_local_node_assoc_update n cur si s =
    let si' = if says_assoc cur.assoc then record si { connected = 1 } else si in
    (si', put_seen n.freq si.self.sta (put_info si' s))

newer_bytes : ℕ → ℕ → ℕ → StaInfo → StaInfo
newer_bytes now rx tx si = record si {
  active_bytes = record {
    old_rx = si.active_bytes.new_rx;
    old_tx = si.active_bytes.new_tx;
    new_rx = rx;
    new_tx = tx;
    last_time = now;
  };
}

unfoldable pub usteer_update_client_active_bytes : Config → ℕ → ClientMsg → StaInfo → StaInfo
unfolding newer_bytes
usteer_update_client_active_bytes c now cur si =
    if ltb (sub64 now si.active_bytes.last_time) (u32 (c.kick_client_active_sec * 1000))
    then si
    else elim cur.bytes [
      | none ↦ si
      | some b ↦ elim b.rx [
        | none ↦ si
        | some rx ↦ elim b.tx [ none ↦ si | some tx ↦ newer_bytes now rx tx si ]
      ]
    ]

-- The entries that are still 2 are disconnected. Where that deletes one, the loop reads on from freed
-- memory.
module _ (avl : AvlTree) where
  unfoldable pub disconnect_each : List Ref → Store → Option Store
  disconnect_each [] s = some s
  disconnect_each (r ∷ rs) s = do
    si ← find_info r s.infos
    let si' = record si { connected = 0 }
    let left =
        usteer_sta_info_update_timeout avl si' (to_i32 s.config.local_sta_timeout) (put_info si' s)
    let s' = if si.connected == 2 then left else s
    _ ← find_info r s'.infos
    disconnect_each rs s'

-- `station_reply` is the answer of the kernel about a station: `none` where there is none or it does not
-- parse, or the byte SIGNAL_AVG, if it has one. `f` and `ether_aton` are the target's and the C library's.
module _ (avl : AvlTree) (f : FloatOps) (ether_aton : String → Option ℕ)
    (station_reply : LocalNode → ℕ → Option (Option ℕ)) where
  nl80211_update_sta : LocalNode → StaInfo → Store → Store
  nl80211_update_sta ln si s =
      if not ln.nl80211_present then s else elim (station_reply ln si.self.sta) [
        | none ↦ s
        | some none ↦ usteer_sta_info_update avl si no_signal true s
        | some (some v) ↦ usteer_sta_info_update avl si (to_i8 v) true s
      ]

  -- The part of the loop after the entry is found, and the count.
  update_entry : LocalNode → ClientMsg → StaInfo → ℕ → Store → Option (ℕ × Store)
  unfolding nl80211_update_sta usteer_local_node_assoc_update
  update_entry ln cur found n s = do
    let s1 = nl80211_update_sta ln found s
    si ← find_info found.self s1.infos
    let (si1, s2) = usteer_local_node_assoc_update ln.node cur si s1
    let si2 = usteer_update_client_active_bytes s.config s.current_time cur si1
    s3 ← usteer_beacon_request_check f si2 (put_info si2 s2)
    some (if si1.connected == 1 then suc n else n, s3)

  update_client : LocalNode → ClientMsg → ℕ → Store → Option (ℕ × Store)
  unfolding update_entry
  update_client ln cur n s = elim (ether_aton cur.name) [
    | none ↦ some (n, s)
    | some addr ↦ do
      let (_, s1) = usteer_sta_get avl addr true s
      let (found, s2) = usteer_sta_info_get addr ln.node true s1
      (si, _) ← found
      update_entry ln cur si n s2
  ]

  clients_each : LocalNode → List ClientMsg → ℕ → Store → Option (ℕ × Store)
  unfolding update_client
  clients_each ln [] n s = some (n, s)
  clients_each ln (cur ∷ cl) n s = do (n', s') ← update_client ln cur n s; clients_each ln cl n' s'

  unfoldable pub usteer_local_node_set_assoc : ℕ → List ClientMsg → Store → Option Store
  unfolding mark_stale clients_each
  usteer_local_node_set_assoc p cl s = do
    ln ← local_at s p
    (n, s1) ← clients_each ln cl 0 (record s { infos = map (mark_stale p) s.infos })
    let s2 = update_node p (λ node. record node { n_assoc = pos n }) s1
    disconnect_each avl (map (λ (si : StaInfo). si.self) (of_node p s2.infos)) s2

  -- The reply to "get_clients": its "freq" and "clients".
  unfoldable pub usteer_local_node_list_cb :
      ℕ → Option ℕ → Option (List ClientMsg) → Store → Option Store
  usteer_local_node_list_cb p none clients s = some s
  usteer_local_node_list_cb p (some freq) none s = some s
  usteer_local_node_list_cb p (some freq) (some cl) s =
      usteer_local_node_set_assoc p cl
        (update_node p (λ node. record node { freq = to_i32 freq }) s)
