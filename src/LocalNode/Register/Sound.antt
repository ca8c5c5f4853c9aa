-- ===== src/LocalNode/Register/Sound.antt =====
-- A node that comes keeps the invariant of stations, entries, timeouts and nodes.
use usteer.Base.{
  ℕ, ◌≡◌, ◌⊎◌, inl, inr, subst, refl, Bool, ◌==◌, false, Option, none, some, String, not, str_eq,
  truncate, Bool-cases, ℤ, arith,
}
use usteer.Base.Avl.{AvlTree, AvlLookup}
use usteer.State.Node.{LocalNode}
use usteer.State.Store.{Store}
use usteer.Sta.Info.Invariant.{IsSound, IsSafe}
use usteer.Sta.Info.Nodes.{locals_kept, IsSound-IsSafe}
use usteer.Timeout.Armed.{any-avl_insert}
use usteer.LocalNode.Requests.Sound.{update_local_node-IsSound, netifd_update_node-IsSound}
use usteer.Netifd.{netifd_init_node}
use usteer.LocalNode.Register.{
  fresh_local, nl80211_init_node, from_byte, usteer_get_node, connect_node, usteer_register_node,
  usteer_event_handler,
}

netifd_init_node-IsSound :
    {N : ℕ → Bool} (wireless : Option ℕ) (ln : LocalNode) (s : Store)
    → IsSound N s
    → IsSound N (netifd_init_node wireless ln s)
unfolding netifd_init_node
netifd_init_node-IsSound wireless ln s h =
    netifd_update_node-IsSound wireless (record ln { status_complete = false }) _
      (update_local_node-IsSound ln.node.ptr (λ l. record l { status_complete = false }) s
        (λ l e. e) h)

nl80211_init_node-ptr :
    (interface : Option (Option String)) (ln : LocalNode)
    → (nl80211_init_node interface ln).node.ptr ≡ ln.node.ptr
unfolding nl80211_init_node
nl80211_init_node-ptr none ln = refl
nl80211_init_node-ptr (some none) ln = refl
nl80211_init_node-ptr (some (some ssid)) ln = refl

module _ (avl : AvlTree) (lookup : AvlLookup) (calloc : Store → ℕ)
    (strcmp : String → String → ℤ) where
  usteer_get_node-IsSafe :
      (name : String) (s : Store)
      → IsSafe s
      → IsSafe (usteer_get_node avl lookup calloc strcmp name s).1
  unfolding usteer_get_node
  usteer_get_node-IsSafe name s h =
      let cmp = λ (a b : LocalNode). strcmp a.node.name b.node.name in
      let fresh = fresh_local (calloc s) name in
      let grown = avl.avl_insert cmp fresh s.local_nodes in
      let grows : Store = record s { local_nodes = grown } in
      let end : (s ≡ (usteer_get_node avl lookup calloc strcmp name s).1)
          ⊎ (grows ≡ (usteer_get_node avl lookup calloc strcmp name s).1) =
        ground arith in
      elim end [
        | inl p ↦ subst IsSafe p h
        | inr p ↦ subst IsSafe p (
            locals_kept grown s
              (λ q e there.
                let p : LocalNode → Bool = λ l. l.node.ptr == q.node in
                ground (arith, any-avl_insert avl p cmp fresh s.local_nodes))
              h)
      ]

  connect_node-IsSound :
      {N : ℕ → Bool} (interface : Option (Option String)) (wireless : Option ℕ) (ln : LocalNode)
      (id : ℕ) (s : Store)
      → IsSound N s
      → IsSound N (connect_node avl lookup calloc strcmp interface wireless ln id s)
  unfolding connect_node
  connect_node-IsSound interface wireless ln id s h =
      let ln0 : LocalNode = record ln { obj_id = id; iface = from_byte 8 ln.node.name } in
      let ln' = nl80211_init_node interface ln0 in
      netifd_init_node-IsSound wireless ln' _ (
        update_local_node-IsSound ln.node.ptr (λ _. ln') s
          (λ _ _. nl80211_init_node-ptr interface ln0) h)

  usteer_register_node-IsSafe :
      (interface : Option (Option String)) (wireless : Option ℕ) (name : String) (id : ℕ)
      (s : Store)
      → IsSafe s
      → IsSafe (usteer_register_node avl lookup calloc strcmp interface wireless name id s)
  unfolding usteer_register_node
  usteer_register_node-IsSafe interface wireless name id s h =
      elim (Bool-cases (not (str_eq (truncate 8 name) "hostapd."))) [
        | inl p ↦ rw p h
        | inr p ↦ rw p (
            let got = usteer_get_node avl lookup calloc strcmp name s in
            IsSound-IsSafe (connect_node avl lookup calloc strcmp interface wireless got.0 id got.1)
              (connect_node-IsSound interface wireless got.0 id got.1
                (usteer_get_node-IsSafe name s h)))
      ]

  pub usteer_event_handler-IsSafe :
      (interface : Option (Option String)) (wireless : Option ℕ) (id : Option ℕ)
      (path : Option String) (s : Store)
      → IsSafe s
      → IsSafe (usteer_event_handler avl lookup calloc strcmp interface wireless id path s)
  unfolding usteer_event_handler
  usteer_event_handler-IsSafe interface wireless none path s h = h
  usteer_event_handler-IsSafe interface wireless (some id) none s h = h
  usteer_event_handler-IsSafe interface wireless (some id) (some path) s h =
      usteer_register_node-IsSafe interface wireless path id s h
