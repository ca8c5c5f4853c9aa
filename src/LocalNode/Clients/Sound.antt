-- ===== src/LocalNode/Clients/Sound.antt =====
-- The update from the list of clients keeps the invariant of stations, entries, timeouts and nodes.
use usteer.Base.{
  to_i8, ltb, sub64, u32, ◌*◌, ◌&&◌, ℕ, ◌≡◌, ◌∙◌, refl, sym, Bool, true, List, [], ◌∷◌, map, any,
  All, Option, none, some, String, arith, Option-cases, Bool-cases, ◌⊎◌, inl, inr, ◌==◌, pos,
  to_i32, if◌then◌else◌, not,
}
use usteer.Base.Avl.{AvlTree}
use usteer.State.Config.{Config}
use usteer.State.Node.{LocalNode}
use usteer.State.Station.{Ref, ref_eq, StaInfo}
use usteer.State.Store.{Store, of_node, find_info, put_info, local_at, update_node}
use usteer.State.Store.Entries.{
  any-put_info, has_info, has_info-find_info, find_info-self, HasUniqueKeys,
}
use usteer.Sta.Info.{no_signal, usteer_sta_get, usteer_sta_info_get, usteer_sta_info_update_timeout}
use usteer.Sta.Info.Get.{key_of}
use usteer.Sta.Info.Invariant.{IsOwn, IsSound, carry}
use usteer.Sta.Info.Known.{update_node-IsSound, find_info-IsOwn, local_at-known}
use usteer.Sta.Info.Sound.{
  put_info-IsSound, usteer_sta_info_update-IsSound, usteer_sta_info_update_timeout-IsSound,
}
use usteer.Sta.Info.Made.{usteer_sta_get-IsSoundWith, usteer_sta_info_get-IsMade}
use usteer.Sta.Event.{put_seen}
use usteer.Sta.Event.Sound.{put_seen-IsSound}
use usteer.HearingMap.Requests.{FloatOps, usteer_beacon_request_check}
use usteer.HearingMap.Requests.Sound.{usteer_beacon_request_check-IsSound}
use usteer.LocalNode.Clients.{
  newer_bytes, ClientMsg, mark_stale, says_assoc, usteer_local_node_assoc_update,
  usteer_update_client_active_bytes, nl80211_update_sta, update_entry, update_client, clients_each,
  disconnect_each, usteer_local_node_set_assoc, usteer_local_node_list_cb,
}

mark_stale-any :
    (f : Ref → Bool) (p : ℕ) (xs : List StaInfo)
    → any (λ x. f x.self) (map (mark_stale p) xs) ≡ any (λ x. f x.self) xs
unfolding mark_stale
mark_stale-any f p [] = refl
mark_stale-any f p (x ∷ xs) = ground (arith, mark_stale-any f p xs)

mark_stale-self : (p : ℕ) (x : StaInfo) → (mark_stale p x).self ≡ x.self
unfolding mark_stale
mark_stale-self p x = ground arith

mark_stale-HasUniqueKeys :
    (p : ℕ) (xs : List StaInfo) → HasUniqueKeys xs → HasUniqueKeys (map (mark_stale p) xs)
mark_stale-HasUniqueKeys p [] h = tt
mark_stale-HasUniqueKeys p (x ∷ xs) h = (
  mark_stale-any (λ q. ref_eq q (mark_stale p x).self) p xs ∙ rw (mark_stale-self p x) h.0,
  mark_stale-HasUniqueKeys p xs h.1,
)

mark_stale-IsOwn : (p : ℕ) (xs : List StaInfo) → All IsOwn xs → All IsOwn (map (mark_stale p) xs)
unfolding mark_stale
mark_stale-IsOwn p [] h = tt
mark_stale-IsOwn p (x ∷ xs) h = elim (Bool-cases (x.self.node == p && not (x.connected == 0))) [
  | inl e ↦ rw e (h.0, mark_stale-IsOwn p xs h.1)
  | inr e ↦ rw e (h.0, mark_stale-IsOwn p xs h.1)
]

mark_stale-IsSound :
    {N : ℕ → Bool} (p : ℕ) (s : Store)
    → IsSound N s
    → IsSound N (record s { infos = map (mark_stale p) s.infos })
mark_stale-IsSound p s h = record {
  rooted = λ a. h.rooted a ∙ sym (mark_stale-any (λ (q : Ref). q.sta == a) p s.infos);
  unique = mark_stale-HasUniqueKeys p s.infos h.unique;
  alive = λ q e. mark_stale-any (λ (r : Ref). ref_eq r q) p s.infos ∙ h.alive q e;
  linked = λ q e. h.linked q (sym (mark_stale-any (λ (r : Ref). ref_eq r q) p s.infos) ∙ e);
  noded = h.noded;
  owned = mark_stale-IsOwn p s.infos h.owned;
}

module _ (avl : AvlTree) where
  disconnect_each-IsSound :
      {N : ℕ → Bool} (rs : List Ref) (s s' : Store)
      → disconnect_each avl rs s ≡ some s'
      → IsSound N s
      → IsSound N s'
  unfolding disconnect_each
  disconnect_each-IsSound [] s s' e h = let p : s ≡ s' = ground arith in carry p h
  disconnect_each-IsSound (r ∷ rs) s s' e h = elim (Option-cases (find_info r s.infos)) [
    | inl q ↦ absurd (ground arith)
    | inr (si, q) ↦
        let si' : StaInfo = record si { connected = 0 } in
        let left : Store =
          usteer_sta_info_update_timeout avl si' (to_i32 s.config.local_sta_timeout)
            (put_info si' s) in
        let end : (disconnect_each avl rs s ≡ some s') ⊎ (disconnect_each avl rs left ≡ some s') =
          ground arith in
        let there =
          any-put_info (λ (t : Ref). ref_eq t si.self) si' s
          ∙ rw (find_info-self r si s.infos q) (has_info-find_info r si s.infos q) in
        let k =
          usteer_sta_info_update_timeout-IsSound avl si' (to_i32 s.config.local_sta_timeout)
            (put_info si' s) there
            (put_info-IsSound si' s (find_info-IsOwn r si s.infos q h.owned) h) in
        elim end [
          | inl t ↦ disconnect_each-IsSound rs s s' t h
          | inr t ↦ disconnect_each-IsSound rs left s' t k
        ]
  ]

module _ (avl : AvlTree) (f : FloatOps) (ether_aton : String → Option ℕ)
    (station_reply : LocalNode → ℕ → Option (Option ℕ)) where
  nl80211_update_sta-IsSound :
      {N : ℕ → Bool} (ln : LocalNode) (si : StaInfo) (s : Store)
      → has_info si.self s.infos ≡ true
      → IsOwn si
      → IsSound N s
      → IsSound N (nl80211_update_sta avl f ether_aton station_reply ln si s)
  unfolding nl80211_update_sta
  nl80211_update_sta-IsSound ln si s e own h = elim (Bool-cases (not ln.nl80211_present)) [
    | inl p ↦ rw p h
    | inr p ↦ elim (Option-cases (station_reply ln si.self.sta)) [
      | inl q ↦ rw (p, q) h
      | inr (none, q) ↦ rw (p, q) (usteer_sta_info_update-IsSound avl si no_signal true s e own h)
      | inr (some v, q) ↦ rw (p, q) (usteer_sta_info_update-IsSound avl si (to_i8 v) true s e own h)
    ]
  ]

  says_assoc-IsOwn :
      (cur : ClientMsg) (si : StaInfo)
      → IsOwn si
      → IsOwn (if says_assoc cur.assoc then record si { connected = 1 } else si)
  says_assoc-IsOwn cur si h = elim (Bool-cases (says_assoc cur.assoc)) [
    | inl e ↦ rw e h
    | inr e ↦ rw e h
  ]

  active_bytes-IsOwn :
      (c : Config) (now : ℕ) (cur : ClientMsg) (si : StaInfo)
      → IsOwn si
      → IsOwn (usteer_update_client_active_bytes c now cur si)
  unfolding usteer_update_client_active_bytes newer_bytes
  active_bytes-IsOwn c now cur si h =
      elim (Bool-cases
        (ltb (sub64 now si.active_bytes.last_time) (u32 (c.kick_client_active_sec * 1000)))) [
          | inl e ↦ rw e h
          | inr e ↦ elim (Option-cases cur.bytes) [
            | inl f ↦ rw (e, f) h
            | inr (b, f) ↦ elim (Option-cases b.rx) [
              | inl g ↦ rw (e, f, g) h
              | inr (rx, g) ↦ elim (Option-cases b.tx) [
                | inl t ↦ rw (e, f, g, t) h
                | inr (tx, t) ↦ rw (e, f, g, t) h
              ]
            ]
          ]
        ]

  update_entry-IsSound :
      {N : ℕ → Bool} (ln : LocalNode) (cur : ClientMsg) (found : StaInfo) (n n' : ℕ) (s s' : Store)
      → update_entry avl f ether_aton station_reply ln cur found n s ≡ some (n', s')
      → has_info found.self s.infos ≡ true
      → IsOwn found
      → IsSound N s
      → IsSound N s'
  unfolding update_entry usteer_local_node_assoc_update
  update_entry-IsSound ln cur found n n' s s' e there own h =
      let s1 = nl80211_update_sta avl f ether_aton station_reply ln found s in
      let k1 = nl80211_update_sta-IsSound ln found s there own h in
      elim (Option-cases (find_info found.self s1.infos)) [
        | inl q ↦ absurd (ground arith)
        | inr (si, q) ↦
            let own1 = find_info-IsOwn found.self si s1.infos q k1.owned in
            let si1 : StaInfo = if says_assoc cur.assoc then record si { connected = 1 } else si in
            let own2 = says_assoc-IsOwn cur si own1 in
            let s2 = put_seen ln.node.freq si.self.sta (put_info si1 s1) in
            let k2 =
              put_seen-IsSound ln.node.freq si.self.sta (put_info si1 s1)
                (put_info-IsSound si1 s1 own2 k1) in
            let si2 = usteer_update_client_active_bytes s.config s.current_time cur si1 in
            let own3 = active_bytes-IsOwn s.config s.current_time cur si1 own2 in
            elim (Option-cases (usteer_beacon_request_check f si2 (put_info si2 s2))) [
              | inl t ↦ absurd (ground arith)
              | inr (s3, t) ↦
                  let k3 =
                    usteer_beacon_request_check-IsSound f si2 (put_info si2 s2) s3 t own3
                      (put_info-IsSound si2 s2 own3 k2) in
                  let p : s3 ≡ s' = ground arith in carry p k3
            ]
      ]

  update_client-IsSound :
      {N : ℕ → Bool} (ln : LocalNode) (cur : ClientMsg) (n n' : ℕ) (s s' : Store)
      → update_client avl f ether_aton station_reply ln cur n s ≡ some (n', s')
      → N ln.node.ptr ≡ true
      → IsSound N s
      → IsSound N s'
  unfolding update_client
  update_client-IsSound ln cur n n' s s' e node h = elim (Option-cases (ether_aton cur.name)) [
    | inl q ↦ let p : s ≡ s' = ground arith in carry p h
    | inr (addr, q) ↦
        let s1 : Store = (usteer_sta_get avl addr true s).1 in
        let m =
          usteer_sta_info_get-IsMade addr ln.node s1 node
            (usteer_sta_get-IsSoundWith avl addr s h) in
        let found = m.found in
        let s2 : Store = (usteer_sta_info_get addr ln.node true s1).1 in
        update_entry-IsSound ln cur m.si n n' s2 s' (ground arith)
          (rw m.key (has_info-find_info (key_of addr ln.node) m.si s2.infos m.there)) m.own m.sound
  ]

  clients_each-IsSound :
      {N : ℕ → Bool} (ln : LocalNode) (cl : List ClientMsg) (n n' : ℕ) (s s' : Store)
      → clients_each avl f ether_aton station_reply ln cl n s ≡ some (n', s')
      → N ln.node.ptr ≡ true
      → IsSound N s
      → IsSound N s'
  unfolding clients_each
  clients_each-IsSound ln [] n n' s s' e node h = let p : s ≡ s' = ground arith in carry p h
  clients_each-IsSound ln (cur ∷ cl) n n' s s' e node h =
      elim (Option-cases (update_client avl f ether_aton station_reply ln cur n s)) [
        | inl q ↦ absurd (ground arith)
        | inr ((n1, s1), q) ↦
            clients_each-IsSound ln cl n1 n' s1 s' (ground arith) node
              (update_client-IsSound ln cur n n1 s s1 q node h)
      ]

  usteer_local_node_set_assoc-IsSound :
      {N : ℕ → Bool} (p : ℕ) (cl : List ClientMsg) (s s' : Store)
      → usteer_local_node_set_assoc avl f ether_aton station_reply p cl s ≡ some s'
      → IsSound N s
      → IsSound N s'
  unfolding usteer_local_node_set_assoc
  usteer_local_node_set_assoc-IsSound p cl s s' e h = elim (Option-cases (local_at s p)) [
    | inl q ↦ absurd (ground arith)
    | inr (ln, q) ↦
        let s0 : Store = record s { infos = map (mark_stale p) s.infos } in
        elim (Option-cases (clients_each avl f ether_aton station_reply ln cl 0 s0)) [
          | inl t ↦ absurd (ground arith)
          | inr ((n, s1), t) ↦
              let k1 =
                clients_each-IsSound ln cl 0 n s0 s1 t (local_at-known p ln s q h)
                  (mark_stale-IsSound p s h) in
              let s2 = update_node p (λ node. record node { n_assoc = pos n }) s1 in
              disconnect_each-IsSound avl (map (λ (si : StaInfo). si.self) (of_node p s2.infos)) s2
                s' (ground arith)
                (update_node-IsSound p (λ node. record node { n_assoc = pos n }) s1 (λ _. refl) k1)
        ]
  ]

  pub usteer_local_node_list_cb-IsSound :
      {N : ℕ → Bool} (p : ℕ) (freq : Option ℕ) (clients : Option (List ClientMsg)) (s s' : Store)
      → usteer_local_node_list_cb avl f ether_aton station_reply p freq clients s ≡ some s'
      → IsSound N s
      → IsSound N s'
  unfolding usteer_local_node_list_cb
  usteer_local_node_list_cb-IsSound p none clients s s' e h =
      let q : s ≡ s' = ground arith in carry q h
  usteer_local_node_list_cb-IsSound p (some v) none s s' e h =
      let q : s ≡ s' = ground arith in carry q h
  usteer_local_node_list_cb-IsSound p (some v) (some cl) s s' e h =
      usteer_local_node_set_assoc-IsSound p cl
        (update_node p (λ node. record node { freq = to_i32 v }) s) s' e
        (update_node-IsSound p (λ node. record node { freq = to_i32 v }) s (λ _. refl) h)
