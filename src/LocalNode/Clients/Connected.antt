-- ===== src/LocalNode/Clients/Connected.antt =====
-- What the update from the list of clients leaves of `connected`.
use usteer.Base.{
  pos, ℕ, ◌≡◌, ◌≢◌, Bool, true, false, List, [], ◌∷◌, Option, some, ◌==◌, arith, any, map, String,
  Bool-cases, Option-cases, inl, inr, to_i32,
}
use usteer.Base.Avl.{AvlTree}
use usteer.State.Node.{LocalNode}
use usteer.State.Station.{Ref, ref_eq, ref_eq_iff, StaInfo}
use usteer.State.Store.{Store, of_node, find_info, put_info, local_at, update_node}
use usteer.State.Store.Entries.{find_info-put_info, find_info-self}
use usteer.Sta.Info.{remove_info, usteer_sta_info_update_timeout}
use usteer.Sta.Info.Cleanup.{find_info-remove_info, update_timeout-infos}
use usteer.HearingMap.Requests.{FloatOps}
use usteer.LocalNode.Clients.{
  ClientMsg, mark_stale, clients_each, disconnect_each, usteer_local_node_set_assoc,
}

-- Where the disconnected entry is still there, its `connected` is 0 and other entries are as before.
left-find_info :
    (avl : AvlTree) (r q : Ref) (si x y : StaInfo) (s : Store)
    → find_info r s.infos ≡ some si
    → find_info r
        (usteer_sta_info_update_timeout avl
          (record si { connected = 0 })
          (to_i32 s.config.local_sta_timeout)
          (put_info (record si { connected = 0 }) s)).infos
      ≡ some y
    → find_info q
        (usteer_sta_info_update_timeout avl
          (record si { connected = 0 })
          (to_i32 s.config.local_sta_timeout)
          (put_info (record si { connected = 0 }) s)).infos
      ≡ some x
    → x.connected ≡ 2
    → (find_info q s.infos ≡ some x) × (ref_eq r q ≡ false)
left-find_info avl r q si x y s f g h e =
    let si' : StaInfo = record si { connected = 0 } in
    let p : si.self ≡ r = find_info-self r si s.infos f in
    elim (update_timeout-infos avl si' (to_i32 s.config.local_sta_timeout) (put_info si' s)) [
      | inl same ↦
          let h' : find_info q (put_info si' s).infos ≡ some x = rw same at h in
          ground (arith, find_info-put_info q si' s)
      | inr gone ↦
          let g' : find_info r (remove_info si.self (put_info si' s).infos) ≡ some y =
            rw gone at g in
          absurd (ground (arith, find_info-remove_info r (put_info si' s).infos))
    ]

abbrev is_in : Ref → List Ref → Bool
is_in q = any (λ r. ref_eq r q)

-- An entry that is 2 after the loop was so before it, and is none that the loop came to.
disconnect_each-find_info :
    (avl : AvlTree) (rs : List Ref) (q : Ref) (x : StaInfo) (s s' : Store)
    → disconnect_each avl rs s ≡ some s'
    → find_info q s'.infos ≡ some x
    → x.connected ≡ 2
    → (find_info q s.infos ≡ some x) × (is_in q rs ≡ false)
unfolding disconnect_each
disconnect_each-find_info avl [] q x s s' h g e = ground arith
disconnect_each-find_info avl (r ∷ rs) q x s s' h g e = elim (Option-cases (find_info r s.infos)) [
  | inl gone ↦ absurd (ground arith)
  | inr (si, f) ↦
      let si' : StaInfo = record si { connected = 0 } in
      let left : Store =
        usteer_sta_info_update_timeout avl si' (to_i32 s.config.local_sta_timeout)
          (put_info si' s) in
      elim (Bool-cases (si.connected == 2)) [
        | inl stale ↦ elim (Option-cases (find_info r left.infos)) [
          | inl gone ↦ absurd (ground arith)
          | inr (y, k) ↦
              let (b, c) = disconnect_each-find_info avl rs q x left s' (ground arith) g e in
              let (b', c') = left-find_info avl r q si x y s f k b e in (b', ground arith)
        ]
        | inr other ↦
            let (b, c) = disconnect_each-find_info avl rs q x s s' (ground arith) g e in
            (b, ground (arith, ref_eq_iff r q))
      ]
]

of_node-is_in :
    (q : Ref) (p : ℕ) (x : StaInfo) (xs : List StaInfo)
    → find_info q xs ≡ some x
    → q.node ≡ p
    → is_in q (map (λ (si : StaInfo). si.self) (of_node p xs)) ≡ true
of_node-is_in q p x [] f e = absurd (ground arith)
of_node-is_in q p x (y ∷ ys) f e = ground (arith, of_node-is_in q p x ys, ref_eq_iff y.self q)

-- After an update of a node from a list of its clients that returns, no entry of the node has
-- connected at 2, the mark of those that the list may not have.
pub usteer_local_node_set_assoc-connected :
    (avl : AvlTree) (f : FloatOps) (ether_aton : String → Option ℕ)
    (station_reply : LocalNode → ℕ → Option (Option ℕ)) (p : ℕ) (cl : List ClientMsg) (q : Ref)
    (x : StaInfo) (s s' : Store)
    → usteer_local_node_set_assoc avl f ether_aton station_reply p cl s ≡ some s'
    → q.node ≡ p
    → find_info q s'.infos ≡ some x
    → x.connected ≢ 2
unfolding usteer_local_node_set_assoc
usteer_local_node_set_assoc-connected avl f ether_aton station_reply p cl q x s s' h e g two =
    elim (Option-cases (local_at s p)) [
      | inl gone ↦ absurd (ground arith)
      | inr (ln, at) ↦
          elim (Option-cases (
            clients_each avl f ether_aton station_reply ln cl 0
              (record s { infos = map (mark_stale p) s.infos }))) [
                | inl gone ↦ absurd (ground arith)
                | inr ((n, s1), run) ↦
                    let s2 = update_node p (λ node. record node { n_assoc = pos n }) s1 in
                    let rs = map (λ (si : StaInfo). si.self) (of_node p s2.infos) in
                    let (b, c) = disconnect_each-find_info avl rs q x s2 s' (ground arith) g two in
                    absurd (ground (arith, of_node-is_in q p x s2.infos b e))
              ]
    ]
