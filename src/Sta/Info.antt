-- ===== src/Sta/Info.antt =====
-- sta.c: creating, finding and deleting stations and their entries for nodes.
pub mod Get
pub mod Invariant
pub mod Known
pub mod Sound
pub mod Cleanup
pub mod Made
pub mod Kept
pub mod Expiry
pub mod Timed
pub mod Nodes
use usteer.Base.{
  ℕ, ◌-◌, Bool, true, false, not, ◌&&◌, List, [], ◌∷◌, Option, none, some, ◌==◌, if◌then◌else◌,
  filter, find?, ltb, ℤ, pos, negsuc, ltb_ℤ, to_i32,
}
use usteer.Base.Avl.{AvlTree}
use usteer.Timeout.{usteer_timeout_cancel, usteer_timeout_set, ampgr_timeout_current_time}
use usteer.State.Node.{Node}
use usteer.State.Station.{Ref, ref_eq, ref_key, StaInfo, Sta, zero_sta_info}
use usteer.State.Store.{Store, of_sta, of_node, find_info, put_info, update_node}

-- `memcmp` of two addresses.
pub avl_macaddr_cmp : ℕ → ℕ → ℤ
avl_macaddr_cmp k1 k2 = if ltb k1 k2 then negsuc 0 else if ltb k2 k1 then pos 1 else pos 0

-- An entry as it is made: its list of reports is empty, and it has no timeout.
abbrev pub fresh_info : Ref → ℤ → ℕ → StaInfo
fresh_info r freq now =
    let blank = zero_sta_info r in
    record blank { beacon_request = record (blank.beacon_request) { band = freq }; created = now }

-- The entry of a station for a node. With `create` null a missing entry is not made; the second
-- result is what is written to `*create`.
unfoldable pub usteer_sta_info_get : ℕ → Node → Bool → Store → Option (StaInfo × Bool) × Store
usteer_sta_info_get sta node create s =
    let fresh = fresh_info (record { sta = sta; node = node.ptr }) node.freq s.current_time in
    elim (find? (λ si. si.self.node == node.ptr) (of_sta sta s.infos)) [
      | some si ↦ (some (si, false), s)
      | none ↦
          if not create
          then (none, s)
          else (some (fresh, true), record s { infos = fresh ∷ s.infos })
    ]

pub remove_info : Ref → List StaInfo → List StaInfo
remove_info r = filter (λ si. not (ref_eq si.self r))

abbrev remove_sta : ℕ → List Sta → List Sta
remove_sta addr = filter (λ t. not (t.addr == addr))

abbrev is_empty {ℓ} : {A : Type ℓ} → List A → Bool
is_empty [] = true
is_empty (x ∷ xs) = false

unfoldable pub usteer_sta_del : ℕ → Store → Store
usteer_sta_del addr s = record s { stations = remove_sta addr s.stations }

-- The entry goes with its beacon reports and its timeout, and a station without entries goes too.
unfoldable pub usteer_sta_info_del : Ref → Store → Store
unfolding usteer_sta_del remove_info
usteer_sta_info_del r s =
    let s' : Store = record s {
      tq = usteer_timeout_cancel s.tq r;
      infos = remove_info r s.infos;
    } in
    if is_empty (of_sta r.sta s'.infos) then usteer_sta_del r.sta s' else s'

-- `list_for_each_entry_safe` over the node's entries.
unfoldable pub del_each : List StaInfo → Store → Store
del_each [] s = s
del_each (si ∷ sis) s = del_each sis (usteer_sta_info_del si.self s)

abbrev pub drop_rrm_nr : Node → Node
drop_rrm_nr n = record n { rrm_nr = none }

unfoldable pub usteer_sta_node_cleanup : ℕ → Store → Store
unfolding del_each
usteer_sta_node_cleanup node s = del_each (of_node node s.infos) (update_node node drop_rrm_nr s)

-- The callback of `tq`.
pub usteer_sta_info_timeout : Ref → Store → Store
usteer_sta_info_timeout r s = usteer_sta_info_del r s

abbrev pub no_signal : ℤ
no_signal = pos 0xff

module _ (avl : AvlTree) where
  by_addr : Sta → Sta → ℤ
  by_addr a b = avl_macaddr_cmp a.addr b.addr

  find_sta : ℕ → Store → Option Sta
  find_sta addr s = find? (λ t. t.addr == addr) s.stations

  unfoldable pub usteer_sta_get : ℕ → Bool → Store → Option Sta × Store
  unfolding find_sta by_addr
  usteer_sta_get addr create s =
      let fresh : Sta = record { addr = addr; seen_2ghz = false; seen_5ghz = false } in
      elim (find_sta addr s) [
        | some t ↦ (some t, s)
        | none ↦
            if not create
            then (none, s)
            else (some fresh, record s { stations = avl.avl_insert by_addr fresh s.stations })
      ]

  unfoldable pub usteer_sta_info_update_timeout : StaInfo → ℤ → Store → Store
  usteer_sta_info_update_timeout si timeout s =
      if si.connected == 1
      then record s { tq = usteer_timeout_cancel s.tq si.self }
      else if ltb_ℤ (pos 0) timeout
      then record s {
        tq = usteer_timeout_set avl (ampgr_timeout_current_time s.clock) s.tq si.self timeout;
      }
      else usteer_sta_info_del si.self s

  abbrev is_no_signal : ℤ → Bool
  is_no_signal (pos n) = n == 0xff
  is_no_signal (negsuc n) = false

  -- The fields that `usteer_sta_info_update` writes.
  updated_info : StaInfo → ℤ → Bool → ℕ → StaInfo
  updated_info si signal avg now =
      let signal' =
        if si.connected == 1 && not (is_no_signal si.signal) && not avg
        then no_signal
        else signal in
      record si { signal = if is_no_signal signal' then si.signal else signal'; seen = now }

  pub usteer_sta_info_update : StaInfo → ℤ → Bool → Store → Store
  unfolding updated_info
  usteer_sta_info_update si signal avg s =
      let si' = updated_info si signal avg s.current_time in
      usteer_sta_info_update_timeout si' (to_i32 s.config.local_sta_timeout) (put_info si' s)
