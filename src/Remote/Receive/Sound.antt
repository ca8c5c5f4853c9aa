-- ===== src/Remote/Receive/Sound.antt =====
-- Messages of other daemons keep the invariant of stations, entries, timeouts and nodes.
use usteer.Base.{
  ℕ, ◌≡◌, ◌∙◌, subst, refl, Bool, not, ◌==◌, ==_iff, str_eq, true, List, [], ◌∷◌, Option, none,
  some, String, arith, Option-cases, Bool-cases, ◌⊎◌, inl, inr, pos, leb_ℤ,
}
use usteer.Base.Avl.{AvlTree, AvlLookup}
use usteer.State.Node.{Node, RemoteNode}
use usteer.State.Station.{Ref, ref_eq}
use usteer.State.Store.{Store, all_nodes, put_info}
use usteer.State.Store.Entries.{any-put_info, has_info-find_info}
use usteer.Sta.Info.{usteer_sta_get, usteer_sta_info_get, usteer_sta_info_update_timeout}
use usteer.Sta.Info.Get.{key_of}
use usteer.Sta.Info.Invariant.{IsSound, IsSafe, carry, has_node}
use usteer.Sta.Info.Sound.{put_info-IsSound, usteer_sta_info_update_timeout-IsSound}
use usteer.Sta.Info.Made.{usteer_sta_get-IsSoundWith, usteer_sta_info_get-IsMade}
use usteer.Ubus.Ssids.{usteer_is_valid_ssid}
use usteer.Remote.Blob.{Attr, inside, BlobParse}
use usteer.Remote.Message.{ApmsgNode, ApmsgSta, parse_apmsg, parse_apmsg_node, parse_apmsg_sta}
use usteer.Remote.Send.{Interface}
use usteer.Remote.Receive.{
  stored_info, add_parsed_station, interface_get_node, interface_add_station, add_stations,
  add_parsed_node, interface_add_node, add_nodes, interface_recv_msg, Datagram,
  interface_find_by_ifindex, interface_recv, with_bssid, take_over, update_at, named, fresh_remote,
  remote_node_cmp,
}
use usteer.Timeout.Armed.{any-append, any-avl_insert}
use usteer.Sta.Info.Nodes.{has_remote, remotes_kept, same_remotes, IsSound-IsSafe, trees-has_node}

add_parsed_station-IsSound :
    {N : ℕ → Bool} (avl : AvlTree) (n : Node) (msg : ApmsgSta) (s s' : Store)
    → add_parsed_station avl n msg s ≡ some s'
    → N n.ptr ≡ true
    → IsSound N s
    → IsSound N s'
unfolding add_parsed_station stored_info
add_parsed_station-IsSound avl n msg s s' e node h = elim (Bool-cases (leb_ℤ msg.timeout (pos 0))) [
  | inl q ↦ let p : s ≡ s' = ground arith in carry p h
  | inr q ↦
      let s1 : Store = (usteer_sta_get avl msg.addr true s).1 in
      let m =
        usteer_sta_info_get-IsMade msg.addr n s1 node
          (usteer_sta_get-IsSoundWith avl msg.addr s h) in
      let found = m.found in
      let s2 : Store = (usteer_sta_info_get msg.addr n true s1).1 in
      let si' = stored_info msg s2.current_time m.si in
      let p : usteer_sta_info_update_timeout avl si' msg.timeout (put_info si' s2) ≡ s' =
        ground arith in
      carry p (
        usteer_sta_info_update_timeout-IsSound avl si' msg.timeout (put_info si' s2)
          (any-put_info (λ (t : Ref). ref_eq t m.si.self) si' s2
            ∙ rw m.key (has_info-find_info (key_of msg.addr n) m.si s2.infos m.there))
          (put_info-IsSound si' s2 m.own m.sound))
]

named-has_remote :
    (id : ℕ) (name : String) (r : RemoteNode) (rs : List RemoteNode)
    → named id name rs ≡ some r
    → has_remote r.node.ptr rs ≡ true
unfolding named
named-has_remote id name r [] e = absurd (ground arith)
named-has_remote id name r (x ∷ xs) e =
    let rest = named-has_remote id name r xs in
    elim (Bool-cases (not (x.id == id))) [
      | inl f ↦ absurd (ground arith)
      | inr f ↦ elim (Bool-cases (str_eq x.name name)) [
        | inl g ↦
            let p : x ≡ r = ground arith in rw p (ground (arith, ==_iff r.node.ptr r.node.ptr))
        | inr g ↦ ground (arith, rest)
      ]
    ]

update_at-has_remote :
    (p q : ℕ) (r' : RemoteNode) (rs : List RemoteNode)
    → r'.node.ptr ≡ p
    → has_remote q (update_at p (λ _. r') rs) ≡ has_remote q rs
unfolding update_at
update_at-has_remote p q r' [] e = refl
update_at-has_remote p q r' (r ∷ rs) e =
    ground (arith, update_at-has_remote p q r' rs e, ==_iff r.node.ptr p)

module _ (avl : AvlTree) (lookup : AvlLookup) (calloc : Store → ℕ) where
  abbrev find_node : ℕ → String → Store → Option RemoteNode
  find_node id name s =
      named id name (lookup.avl_find (λ (r : RemoteNode). remote_node_cmp id r.id) s.remote_nodes)

  interface_get_node-IsSafe :
      (addr : String) (id : ℕ) (name : String) (s : Store)
      → IsSafe s
      → IsSafe (interface_get_node avl lookup calloc addr id name s).1
  unfolding interface_get_node
  interface_get_node-IsSafe addr id name s h =
      let cmp = λ (a b : RemoteNode). remote_node_cmp a.id b.id in
      let fresh = fresh_remote (calloc s) addr id name in
      let grown = avl.avl_insert cmp fresh s.remote_nodes in
      let k : IsSafe (record s { remote_nodes = grown }) =
        remotes_kept grown s
          (λ q e there.
            let p : RemoteNode → Bool = λ r. r.node.ptr == q.node in
            ground (arith, any-avl_insert avl p cmp fresh s.remote_nodes))
          h in
      elim (Option-cases (find_node id name s)) [
        | inl q ↦ rw (interface_get_node, q) k
        | inr (r, q) ↦ rw (interface_get_node, q) h
      ]

  -- The node that it gives is in the tree.
  interface_get_node-there :
      (addr : String) (id : ℕ) (name : String) (s : Store)
      → (let got = interface_get_node avl lookup calloc addr id name s in
          has_remote got.0.node.ptr got.1.remote_nodes ≡ true)
  unfolding interface_get_node
  interface_get_node-there addr id name s =
      let cmp = λ (a b : RemoteNode). remote_node_cmp a.id b.id in
      let fresh = fresh_remote (calloc s) addr id name in
      let at = λ (r : RemoteNode). remote_node_cmp id r.id in
      elim (Option-cases (find_node id name s)) [
        | inl q ↦
            rw (interface_get_node, q)
              (let p : RemoteNode → Bool = λ r. r.node.ptr == fresh.node.ptr in
                ground (
                  arith,
                  any-avl_insert avl p cmp fresh s.remote_nodes,
                  ==_iff fresh.node.ptr fresh.node.ptr,
                ))
        | inr (r, q) ↦
            rw (interface_get_node, q)
              (let p : RemoteNode → Bool = λ x. x.node.ptr == r.node.ptr in
                let (xs, whole) = lookup.find_suffix at s.remote_nodes in
                let there = named-has_remote id name r (lookup.avl_find at s.remote_nodes) q in
                rw whole (ground (arith, any-append p xs (lookup.avl_find at s.remote_nodes))))
      ]

  module _ (blob : BlobParse) (ether_aton : String → Option ℕ) where
    add_station-IsSound :
        {N : ℕ → Bool} (n : Node) (data' : Attr) (s s' : Store)
        → interface_add_station avl lookup calloc blob ether_aton n data' s ≡ some s'
        → N n.ptr ≡ true
        → IsSound N s
        → IsSound N s'
    unfolding interface_add_station
    add_station-IsSound n data' s s' e node h =
        elim (Option-cases (parse_apmsg_sta blob (inside blob data'))) [
          | inl q ↦ absurd (ground arith)
          | inr (none, q) ↦ let p : s ≡ s' = ground arith in carry p h
          | inr (some msg, q) ↦ add_parsed_station-IsSound avl n msg s s' (ground arith) node h
        ]

    add_stations-IsSound :
        {N : ℕ → Bool} (n : Node) (l : List Attr) (s s' : Store)
        → add_stations avl lookup calloc blob ether_aton n l s ≡ some s'
        → N n.ptr ≡ true
        → IsSound N s
        → IsSound N s'
    unfolding add_stations
    add_stations-IsSound n [] s s' e node h = let p : s ≡ s' = ground arith in carry p h
    add_stations-IsSound n (a ∷ l) s s' e node h =
        elim (Option-cases (interface_add_station avl lookup calloc blob ether_aton n a s)) [
          | inl q ↦ absurd (ground arith)
          | inr (s1, q) ↦
              add_stations-IsSound n l s1 s' (ground arith) node
                (add_station-IsSound n a s s1 q node h)
        ]

    add_parsed_node-IsSafe :
        (iface addr : String) (id : ℕ) (msg : ApmsgNode) (s s' : Store)
        → add_parsed_node avl lookup calloc blob ether_aton iface addr id msg s ≡ some s'
        → IsSafe s
        → IsSafe s'
    unfolding add_parsed_node
    add_parsed_node-IsSafe iface addr id msg s s' e h =
        elim (Bool-cases (usteer_is_valid_ssid s msg.ssid)) [
          | inr q ↦ let p : s ≡ s' = ground arith in subst IsSafe p h
          | inl q ↦ elim (Option-cases msg.bssid) [
            | inl t ↦ absurd (ground arith)
            | inr (text, t) ↦ elim (Option-cases (ether_aton text)) [
              | inl u ↦ absurd (ground arith)
              | inr (bssid, u) ↦
                  let s1 : Store = (interface_get_node avl lookup calloc addr id msg.name s).1 in
                  let r = (interface_get_node avl lookup calloc addr id msg.name s).0 in
                  let r' = with_bssid bssid (take_over iface msg r) in
                  let nodes = update_at r.node.ptr (λ _. r') s1.remote_nodes in
                  let s2 : Store = record s1 { remote_nodes = nodes } in
                  let same : (q : ℕ) → has_remote q nodes ≡ has_remote q s1.remote_nodes =
                    λ q. update_at-has_remote r.node.ptr q r' s1.remote_nodes refl in
                  let there : has_node r.node.ptr (all_nodes s2) ≡ true = ground (
                    arith,
                    trees-has_node r.node.ptr s1.local_nodes nodes,
                    same r.node.ptr,
                    interface_get_node-there addr id msg.name s,
                  ) in
                  let k2 : IsSafe s2 =
                    IsSound-IsSafe s2 (
                      same_remotes nodes s1 same
                        (interface_get_node-IsSafe addr id msg.name s h)) in
                  IsSound-IsSafe s'
                    (add_stations-IsSound r'.node msg.stations s2 s' (ground arith) there k2)
            ]
          ]
        ]

    add_node-IsSafe :
        (iface addr : String) (id : ℕ) (data' : Attr) (s s' : Store)
        → interface_add_node avl lookup calloc blob ether_aton iface addr id data' s ≡ some s'
        → IsSafe s
        → IsSafe s'
    unfolding interface_add_node
    add_node-IsSafe iface addr id data' s s' e h =
        elim (Option-cases (parse_apmsg_node blob (inside blob data'))) [
          | inl q ↦ absurd (ground arith)
          | inr (none, q) ↦ let p : s ≡ s' = ground arith in subst IsSafe p h
          | inr (some msg, q) ↦ add_parsed_node-IsSafe iface addr id msg s s' (ground arith) h
        ]

    add_nodes-IsSafe :
        (iface addr : String) (id : ℕ) (l : List Attr) (s s' : Store)
        → add_nodes avl lookup calloc blob ether_aton iface addr id l s ≡ some s'
        → IsSafe s
        → IsSafe s'
    unfolding add_nodes
    add_nodes-IsSafe iface addr id [] s s' e h = let p : s ≡ s' = ground arith in subst IsSafe p h
    add_nodes-IsSafe iface addr id (a ∷ l) s s' e h =
        elim (Option-cases
          (interface_add_node avl lookup calloc blob ether_aton iface addr id a s)) [
            | inl q ↦ absurd (ground arith)
            | inr (s1, q) ↦
                add_nodes-IsSafe iface addr id l s1 s' (ground arith)
                  (add_node-IsSafe iface addr id a s s1 q h)
          ]

    recv_msg-IsSafe :
        (local_id : ℕ) (iface addr : String) (pad_len len : ℕ) (data' : List Attr) (s s' : Store)
        → interface_recv_msg avl lookup calloc blob ether_aton local_id iface addr pad_len len data'
            s
          ≡ some s'
        → IsSafe s
        → IsSafe s'
    unfolding interface_recv_msg
    recv_msg-IsSafe local_id iface addr pad_len len data' s s' e h =
        elim (Option-cases (parse_apmsg blob data')) [
          | inl q ↦ let p : s ≡ s' = ground arith in subst IsSafe p h
          | inr (none, q) ↦ let p : s ≡ s' = ground arith in subst IsSafe p h
          | inr (some msg, q) ↦
              let end : (s ≡ s')
                  ⊎ (add_nodes avl lookup calloc blob ether_aton iface addr msg.id msg.nodes s
                      ≡ some s') =
                ground arith in
              elim end [
                | inl p ↦ subst IsSafe p h
                | inr p ↦ add_nodes-IsSafe iface addr msg.id msg.nodes s s' p h
              ]
        ]

    pub interface_recv-IsSafe :
        (local_id : ℕ) (ifaces : List Interface) (ds : List Datagram) (s s' : Store)
        → interface_recv avl lookup calloc blob ether_aton local_id ifaces ds s ≡ some s'
        → IsSafe s
        → IsSafe s'
    unfolding interface_recv
    interface_recv-IsSafe local_id ifaces [] s s' e h =
        let p : s ≡ s' = ground arith in subst IsSafe p h
    interface_recv-IsSafe local_id ifaces (d ∷ ds) s s' e h =
        elim (Bool-cases s.config.remote_disabled) [
          | inl q ↦ let p : s ≡ s' = ground arith in subst IsSafe p h
          | inr q ↦ elim (Option-cases (interface_find_by_ifindex d.scope_id ifaces)) [
            | inl t ↦ interface_recv-IsSafe local_id ifaces ds s s' (ground arith) h
            | inr (i, t) ↦
                elim (Option-cases (
                  interface_recv_msg avl lookup calloc blob ether_aton local_id i.name d.addr
                    d.pad_len d.len d.contents s)) [
                      | inl u ↦ absurd (ground arith)
                      | inr (s1, u) ↦
                          interface_recv-IsSafe local_id ifaces ds s1 s' (ground arith) (
                            recv_msg-IsSafe local_id i.name d.addr d.pad_len d.len d.contents s s1 u
                              h)
                    ]
          ]
        ]
