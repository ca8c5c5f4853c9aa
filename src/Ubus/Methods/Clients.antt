-- ===== src/Ubus/Methods/Clients.antt =====
-- The replies about clients, in the states that the daemon can reach.
use usteer.Base.{
  ℕ, ◌≡◌, ◌≢◌, ◌<◌, ◌∙◌, refl, Bool, true, false, List, [], ◌∷◌, map, All, none, some, String,
  find?, ◌↔◌, sym, ap, ◌==◌, ==_iff, arith, Option-cases, inl, inr,
}
use usteer.State.Node.{Node}
use usteer.State.Station.{StaInfo, Sta}
use usteer.State.Store.{Store, node_at, of_sta}
use usteer.Sta.Info.Invariant.{has_sta, has_entry, IsSound}
use usteer.Sta.Info.Made.{find_sta-none, find_sta-some}
use usteer.Sta.Info.Kept.{usteer_sta_get-find}
use usteer.Policy.Candidate.Effect.{IsLinkedInfo, All-of_sta}
use usteer.Policy.Candidate.Linked.{IsSound-IsLinked}
use usteer.Policy.Roam.{usteer_get_client_active_bits}
use usteer.Ubus.Methods.{
  Value, Fields, done, field, as_table, both, client_nodes, clients_of, usteer_ubus_get_clients,
  more_of, info_nodes, InfoReply, not_found, reply, info_fields, usteer_ubus_get_client_info,
}
use usteer.EventLoop.{Libraries, IsReachable}
use usteer.EventLoop.Sound.{IsReachable-IsSafe}

abbrev pub names : Fields → List String
names done = []
names (field k v fs) = k ∷ names fs

abbrev pub is_filled : Value → Bool
is_filled (as_table done) = false
is_filled _ = true

-- No table is empty.
abbrev pub AllFilled : Fields → Type 0
AllFilled done = Unit {0}
AllFilled (field k v fs) = (is_filled v ≡ true) × AllFilled fs

abbrev any_left : List StaInfo → Bool
any_left [] = false
any_left (x ∷ xs) = true

of_sta-any_left : (addr : ℕ) (xs : List StaInfo) → any_left (of_sta addr xs) ≡ has_entry addr xs
of_sta-any_left addr [] = refl
of_sta-any_left addr (x ∷ xs) = ground (arith, of_sta-any_left addr xs)

module _ (mac_text : ℕ → String) where
  client_nodes_total :
      (s : Store) (sis : List StaInfo)
      → All (IsLinkedInfo s) sis
      → (fs : Fields) × (client_nodes mac_text s sis ≡ some fs)
        × (is_filled (as_table fs) ≡ any_left sis)
  unfolding client_nodes
  client_nodes_total s [] h = (done, refl, refl)
  client_nodes_total s (x ∷ xs) h =
      let (fs, p, _) = client_nodes_total s xs h.1 in
      elim (Option-cases (node_at s x.self.node)) [
        | inl q ↦ absurd (h.0.0 q)
        | inr (n, q) ↦
            (field n.name (as_table (both x.connected x.signal done)) fs, rw (q, p) refl, refl)
      ]

  clients_of_total :
      {N : ℕ → Bool} (s : Store) (ts : List Sta)
      → ((a : ℕ) → has_sta a ts ≡ true → has_entry a s.infos ≡ true)
      → IsSound N s
      → (fs : Fields) × (clients_of mac_text s ts ≡ some fs)
        × (names fs ≡ map (λ (t : Sta). mac_text t.addr) ts)
        × AllFilled fs
  unfolding clients_of
  clients_of_total s [] k h = (done, refl, refl, tt)
  clients_of_total s (t ∷ ts) k h =
      let (nodes, p, f) =
        client_nodes_total s (of_sta t.addr s.infos)
          (All-of_sta s t.addr s.infos (IsSound-IsLinked s h)) in
      let (fs, q, e, g) = clients_of_total s ts (λ a there. k a (ground arith)) h in
      let known = k t.addr (ground (arith, ==_iff t.addr t.addr)) in
      (
        field (mac_text t.addr) (as_table nodes) fs,
        rw (p, q) refl,
        ap (λ l. mac_text t.addr ∷ l) e,
        (f ∙ of_sta-any_left t.addr s.infos ∙ known, g),
      )

  -- In every state that the daemon can reach, get_clients is answered: with a table for each
  -- station, in the order of the tree and by its address, and none of them is empty.
  pub usteer_ubus_get_clients_returns :
      (lib : Libraries) (s : Store)
      → IsReachable lib s
      → (fs : Fields) × (usteer_ubus_get_clients mac_text s ≡ some fs)
        × (names fs ≡ map (λ (t : Sta). mac_text t.addr) s.stations)
        × AllFilled fs
  unfolding usteer_ubus_get_clients
  usteer_ubus_get_clients_returns lib s h =
      let safe = IsReachable-IsSafe lib s h in
      clients_of_total s s.stations (λ a e. sym (safe.rooted a) ∙ e) safe

  more_of_total :
      (s : Store) (n : Node) (si : StaInfo)
      → 0 < s.config.kick_client_active_sec
      → more_of mac_text s n si ≢ none
  unfolding more_of usteer_get_client_active_bits
  more_of_total s n si h e = ground arith

  info_nodes_total :
      (s : Store) (sis : List StaInfo)
      → 0 < s.config.kick_client_active_sec
      → All (IsLinkedInfo s) sis
      → info_nodes mac_text s sis ≢ none
  unfolding info_nodes
  info_nodes_total s [] c h e = ground arith
  info_nodes_total s (x ∷ xs) c h e = elim (Option-cases (node_at s x.self.node)) [
    | inl q ↦ h.0.0 q
    | inr (n, q) ↦ ground (arith, more_of_total s n x c, info_nodes_total s xs c h.1)
  ]

  -- In every state that the daemon can reach, get_client_info with a text that is an address is
  -- answered, if kick_client_active_sec is not 0; the answer is that the station is not found
  -- exactly if it has no entry.
  pub usteer_ubus_get_client_info_returns :
      (lib : Libraries) (text : String) (mac : ℕ) (s : Store)
      → IsReachable lib s
      → lib.ether_aton text ≡ some mac
      → 0 < s.config.kick_client_active_sec
      → (r : InfoReply) × (usteer_ubus_get_client_info mac_text lib.avl lib.ether_aton (some text) s
          ≡ some r)
        × ((r ≡ not_found) ↔ (has_entry mac s.infos ≡ false))
  unfolding usteer_ubus_get_client_info
  usteer_ubus_get_client_info_returns lib text mac s h a c =
      let safe = IsReachable-IsSafe lib s h in
      elim (Option-cases (find? (λ (t : Sta). t.addr == mac) s.stations)) [
        | inl q ↦
            let gone : has_entry mac s.infos ≡ false =
              sym (safe.rooted mac) ∙ find_sta-none mac s.stations q in
            (not_found, ground (arith, usteer_sta_get-find lib.avl mac s), ((λ _. gone), λ _. refl))
        | inr (t, q) ↦
            let there : has_entry mac s.infos ≡ true =
              sym (safe.rooted mac) ∙ find_sta-some mac t s.stations q in
            let linked = All-of_sta s t.addr s.infos (IsSound-IsLinked s safe) in
            elim (Option-cases (info_nodes mac_text s (of_sta t.addr s.infos))) [
              | inl e ↦ absurd (info_nodes_total s (of_sta t.addr s.infos) c linked e)
              | inr (nodes, e) ↦ (
                reply (info_fields t nodes),
                ground (arith, usteer_sta_get-find lib.avl mac s),
                ((λ n. ground arith), λ n. ground arith),
              )
            ]
      ]
