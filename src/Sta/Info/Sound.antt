-- ===== src/Sta/Info/Sound.antt =====
-- The invariant of the stations, their entries and the timeouts.
use usteer.Base.{
  subst, All, to_i32, none, some, ◌||◌, ℕ, ◌≡◌, inl, inr, refl, sym, ◌∙◌, Bool, true, false, not,
  ◌&&◌, List, [], ◌∷◌, ◌==◌, arith, Bool-cases, ==_iff, ℤ, pos, ltb_ℤ,
}
use usteer.Base.Avl.{AvlTree}
use usteer.Timeout.{
  usteer_timeout_isset, usteer_timeout_cancel, usteer_timeout_set, ampgr_timeout_current_time,
}
use usteer.Timeout.Armed.{isset-cancel, isset-set}
use usteer.State.Station.{Ref, ref_eq, ref_eq_iff, ref_key, StaInfo, Sta}
use usteer.State.Store.{replace, find_info, Store, of_sta, of_node, put_info, update_node}
use usteer.State.Store.Entries.{
  find_info-none, find_info-self, any-put_info, put_info-rest, put_info-HasUniqueKeys, has_info,
  HasUniqueKeys,
}
use usteer.State.Node.{Node}
use usteer.Sta.Info.Invariant.{has_sta, has_entry, IsOwn, IsSound}
use usteer.Sta.Info.Known.{update_node-IsSound, find_info-IsOwn}
use usteer.Sta.Info.Get.{find_by_node, key_of, made}
use usteer.Sta.Info.{
  usteer_sta_info_get, usteer_sta_info_update, updated_info, remove_info, remove_sta, is_empty,
  usteer_sta_info_del, usteer_sta_info_update_timeout, del_each, usteer_sta_node_cleanup,
  drop_rrm_nr,
}

pub remove_info-has_info :
    (r q : Ref) (xs : List StaInfo)
    → has_info q (remove_info r xs) ≡ (has_info q xs && not (ref_eq r q))
unfolding remove_info
remove_info-has_info r q [] = refl
remove_info-has_info r q (x ∷ xs) = ground (arith, remove_info-has_info r q xs)

remove_info-HasUniqueKeys :
    (r : Ref) (xs : List StaInfo) → HasUniqueKeys xs → HasUniqueKeys (remove_info r xs)
unfolding remove_info
remove_info-HasUniqueKeys r [] h = tt
remove_info-HasUniqueKeys r (x ∷ xs) h = elim (Bool-cases (ref_eq x.self r)) [
  | inl e ↦ rw e (remove_info-HasUniqueKeys r xs h.1)
  | inr e ↦
      rw e
        (ground (arith, h.0, remove_info-has_info r x.self xs), remove_info-HasUniqueKeys r xs h.1)
]

-- Entries of other stations stay.
remove_info-has_entry :
    (r : Ref) (addr : ℕ) (xs : List StaInfo)
    → (r.sta == addr) ≡ false
    → has_entry addr (remove_info r xs) ≡ has_entry addr xs
unfolding remove_info
remove_info-has_entry r addr [] h = refl
remove_info-has_entry r addr (x ∷ xs) h = ground (arith, remove_info-has_entry r addr xs h)

is_empty-of_sta :
    (addr : ℕ) (xs : List StaInfo) → is_empty (of_sta addr xs) ≡ not (has_entry addr xs)
is_empty-of_sta addr [] = refl
is_empty-of_sta addr (x ∷ xs) = ground (arith, is_empty-of_sta addr xs)

remove_sta-has_sta :
    (a addr : ℕ) (ts : List Sta)
    → has_sta addr (remove_sta a ts) ≡ (has_sta addr ts && not (a == addr))
remove_sta-has_sta a addr [] = refl
remove_sta-has_sta a addr (t ∷ ts) = ground (arith, remove_sta-has_sta a addr ts)

remove_info-has_entry_sub :
    (r : Ref) (addr : ℕ) (xs : List StaInfo)
    → has_entry addr (remove_info r xs) ≡ true
    → has_entry addr xs ≡ true
unfolding remove_info
remove_info-has_entry_sub r addr [] h = h
remove_info-has_entry_sub r addr (x ∷ xs) h = ground (arith, remove_info-has_entry_sub r addr xs)

-- With the station's last entry the station goes.
rooted_gone :
    {N : ℕ → Bool} (r : Ref) (s : Store) (addr : ℕ)
    → IsSound N s
    → is_empty (of_sta r.sta (remove_info r s.infos)) ≡ true
    → has_sta addr (remove_sta r.sta s.stations) ≡ has_entry addr (remove_info r s.infos)
rooted_gone r s addr h e = elim (Bool-cases (r.sta == addr)) [
  | inl p ↦
      let q : r.sta ≡ addr = (==_iff r.sta addr).0 p in
      let none_left : has_entry addr (remove_info r s.infos) ≡ false =
        rw (← q) (ground (arith, is_empty-of_sta r.sta (remove_info r s.infos))) in
      ground (arith, none_left, remove_sta-has_sta r.sta addr s.stations)
  | inr p ↦ ground (
    arith,
    remove_sta-has_sta r.sta addr s.stations,
    remove_info-has_entry r addr s.infos p,
    h.rooted addr,
  )
]

rooted_kept :
    {N : ℕ → Bool} (r : Ref) (s : Store) (addr : ℕ)
    → IsSound N s
    → is_empty (of_sta r.sta (remove_info r s.infos)) ≡ false
    → has_sta addr s.stations ≡ has_entry addr (remove_info r s.infos)
rooted_kept r s addr h e = elim (Bool-cases (r.sta == addr)) [
  | inl p ↦
      let q : r.sta ≡ addr = (==_iff r.sta addr).0 p in
      let some_left : has_entry addr (remove_info r s.infos) ≡ true =
        rw (← q) (ground (arith, is_empty-of_sta r.sta (remove_info r s.infos))) in
      ground (arith, some_left, h.rooted addr, remove_info-has_entry_sub r addr s.infos)
  | inr p ↦ ground (arith, remove_info-has_entry r addr s.infos p, h.rooted addr)
]

alive_del :
    {N : ℕ → Bool} (r q : Ref) (s : Store)
    → IsSound N s
    → usteer_timeout_isset (usteer_timeout_cancel s.tq r) q ≡ true
    → has_info q (remove_info r s.infos) ≡ true
alive_del r q s h e =
    ground (arith, isset-cancel s.tq r q, remove_info-has_info r q s.infos, h.alive q)

linked_del :
    {N : ℕ → Bool} (r q : Ref) (s : Store)
    → IsSound N s
    → has_info q (remove_info r s.infos) ≡ true
    → N q.node ≡ true
linked_del r q s h e = ground (arith, remove_info-has_info r q s.infos, h.linked q)

remove_info-owned : (r : Ref) (xs : List StaInfo) → All IsOwn xs → All IsOwn (remove_info r xs)
unfolding remove_info
remove_info-owned r [] h = tt
remove_info-owned r (x ∷ xs) h = elim (Bool-cases (ref_eq x.self r)) [
  | inl e ↦ rw e (remove_info-owned r xs h.1)
  | inr e ↦ rw e (h.0, remove_info-owned r xs h.1)
]

-- Deleting an entry keeps the invariant of stations, entries, timeouts and nodes: a station is kept
-- exactly while it has an entry, no two entries have the same station and node, and a timeout is
-- only set for an entry that is there.
pub usteer_sta_info_del-IsSound :
    {N : ℕ → Bool} (r : Ref) (s : Store) → IsSound N s → IsSound N (usteer_sta_info_del r s)
unfolding usteer_sta_info_del
usteer_sta_info_del-IsSound r s h =
    elim (Bool-cases (is_empty (of_sta r.sta (remove_info r s.infos)))) [
      | inl e ↦ rw e (record {
        rooted = λ addr. rooted_gone r s addr h e;
        unique = remove_info-HasUniqueKeys r s.infos h.unique;
        alive = λ q. alive_del r q s h;
        linked = λ q. linked_del r q s h;
        noded = h.noded;
        owned = remove_info-owned r s.infos h.owned;
      })
      | inr e ↦ rw e (record {
        rooted = λ addr. rooted_kept r s addr h e;
        unique = remove_info-HasUniqueKeys r s.infos h.unique;
        alive = λ q. alive_del r q s h;
        linked = λ q. linked_del r q s h;
        noded = h.noded;
        owned = remove_info-owned r s.infos h.owned;
      })
    ]

-- Freeing a node's entries keeps the invariant.
del_each-IsSound :
    {N : ℕ → Bool} (sis : List StaInfo) (s : Store) → IsSound N s → IsSound N (del_each sis s)
unfolding del_each
del_each-IsSound [] s h = h
del_each-IsSound (x ∷ xs) s h =
    del_each-IsSound xs (usteer_sta_info_del x.self s) (usteer_sta_info_del-IsSound x.self s h)

-- Freeing the entries of a node keeps the invariant of stations, entries, timeouts and nodes.
pub usteer_sta_node_cleanup-IsSound :
    {N : ℕ → Bool} (p : ℕ) (s : Store) → IsSound N s → IsSound N (usteer_sta_node_cleanup p s)
unfolding usteer_sta_node_cleanup
usteer_sta_node_cleanup-IsSound p s h =
    del_each-IsSound (of_node p s.infos) (update_node p drop_rrm_nr s)
      (update_node-IsSound p drop_rrm_nr s (λ n. refl) h)

replace-owned :
    (si : StaInfo) (xs : List StaInfo) → IsOwn si → All IsOwn xs → All IsOwn (replace si xs)
unfolding replace
replace-owned si [] own h = tt
replace-owned si (x ∷ xs) own h = elim (Bool-cases (ref_eq x.self si.self)) [
  | inl e ↦ rw e (own, h.1)
  | inr e ↦ rw e (h.0, replace-owned si xs own h.1)
]

put_info-owned :
    (si : StaInfo) (s : Store) → IsOwn si → All IsOwn s.infos → All IsOwn (put_info si s).infos
unfolding put_info
put_info-owned si s own h = replace-owned si s.infos own h

-- An entry that is found has reports of its own.
-- A write to an entry keeps the invariant.
pub put_info-IsSound :
    {N : ℕ → Bool} (si : StaInfo) (s : Store) → IsOwn si → IsSound N s → IsSound N (put_info si s)
put_info-IsSound si s own h = rw (put_info-rest si s) (record {
  rooted = λ addr. h.rooted addr ∙ sym (any-put_info (λ (q : Ref). q.sta == addr) si s);
  unique = put_info-HasUniqueKeys si s h.unique;
  alive = λ q e. any-put_info (λ (r : Ref). ref_eq r q) si s ∙ h.alive q e;
  linked = λ q e. h.linked q (sym (any-put_info (λ (r : Ref). ref_eq r q) si s) ∙ e);
  noded = h.noded;
  owned = put_info-owned si s own h.owned;
})

alive_set :
    {N : ℕ → Bool} (avl : AvlTree) (time : ℕ) (r q : Ref) (timeout : ℤ) (s : Store)
    → has_info r s.infos ≡ true
    → IsSound N s
    → usteer_timeout_isset (usteer_timeout_set avl time s.tq r timeout) q ≡ true
    → has_info q s.infos ≡ true
alive_set avl time r q timeout s e h set = elim (Bool-cases (ref_eq r q)) [
  | inl same ↦ let p : r ≡ q = (ref_eq_iff r q).0 same in rw (← p) e
  | inr other ↦ ground (arith, isset-set avl time s.tq r q timeout, h.alive q)
]

-- Renewing the timeout of an entry that is there keeps the invariant of stations, entries and
-- timeouts, whether it sets a timeout, cancels one or deletes the entry.
pub usteer_sta_info_update_timeout-IsSound :
    {N : ℕ → Bool} (avl : AvlTree) (si : StaInfo) (timeout : ℤ) (s : Store)
    → has_info si.self s.infos ≡ true
    → IsSound N s
    → IsSound N (usteer_sta_info_update_timeout avl si timeout s)
unfolding usteer_sta_info_update_timeout
usteer_sta_info_update_timeout-IsSound avl si timeout s e h =
    elim (Bool-cases (si.connected == 1)) [
      | inl stays ↦ rw stays (record {
        rooted = h.rooted;
        unique = h.unique;
        alive = λ q set. ground (arith, isset-cancel s.tq si.self q, h.alive q);
        linked = h.linked;
        noded = h.noded;
        owned = h.owned;
      })
      | inr leaves ↦ elim (Bool-cases (ltb_ℤ (pos 0) timeout)) [
        | inl armed ↦
            rw (leaves, armed)
              (record {
                rooted = h.rooted;
                unique = h.unique;
                alive = λ q set.
                    alive_set avl (ampgr_timeout_current_time s.clock) si.self q timeout s e h set;
                linked = h.linked;
                noded = h.noded;
                owned = h.owned;
              })
        | inr now ↦ rw (leaves, now) (usteer_sta_info_del-IsSound si.self s h)
      ]
    ]

pub find_info-has_entry :
    (q : Ref) (x : StaInfo) (xs : List StaInfo)
    → find_info q xs ≡ some x
    → has_entry q.sta xs ≡ true
find_info-has_entry q x [] h = absurd (ground arith)
find_info-has_entry q x (y ∷ ys) h = ground (arith, find_info-has_entry q x ys, ref_eq_iff y.self q)

pub find_info-has_entry_self :
    (q : Ref) (x : StaInfo) (xs : List StaInfo)
    → find_info q xs ≡ some x
    → has_entry x.self.sta xs ≡ true
find_info-has_entry_self q x xs h =
    let p : x.self ≡ q = find_info-self q x xs h in rw p (find_info-has_entry q x xs h)

made_rooted :
    {N : ℕ → Bool} (addr a : ℕ) (s : Store)
    → has_entry addr s.infos ≡ true
    → IsSound N s
    → has_sta a s.stations ≡ ((addr == a) || has_entry a s.infos)
made_rooted addr a s known h = elim (Bool-cases (addr == a)) [
  | inl p ↦
      let q : addr ≡ a = (==_iff addr a).0 p in
      let k : has_entry a s.infos ≡ true = rw (← q) known in ground (arith, h.rooted a)
  | inr p ↦ ground (arith, h.rooted a)
]

pub made_linked :
    (N : ℕ → Bool) (addr : ℕ) (n : Node) (s : Store)
    → N n.ptr ≡ true
    → ((q : Ref) → has_info q s.infos ≡ true → N q.node ≡ true)
    → (q : Ref) → has_info q (made addr n s ∷ s.infos) ≡ true
    → N q.node ≡ true
made_linked N addr n s there h q e = elim (Bool-cases (ref_eq (key_of addr n) q)) [
  | inl f ↦
      let p : key_of addr n ≡ q = (ref_eq_iff (key_of addr n) q).0 f in
      subst (λ (r : Ref). N r.node ≡ true) p there
  | inr f ↦ h q (ground arith)
]

-- A new entry of a station that has one.
pub made-IsSound :
    {N : ℕ → Bool} (addr : ℕ) (n : Node) (s : Store)
    → has_entry addr s.infos ≡ true
    → find_info (key_of addr n) s.infos ≡ none
    → N n.ptr ≡ true
    → IsSound N s
    → IsSound N (record s { infos = made addr n s ∷ s.infos })
made-IsSound addr n s known e there h = record {
  rooted = λ a. made_rooted addr a s known h;
  unique = (find_info-none (key_of addr n) s.infos e, h.unique);
  alive = λ q set. ground (arith, h.alive q);
  linked = made_linked _ addr n s there h.linked;
  noded = h.noded;
  owned = (tt, h.owned);
}

-- An update of an entry that is there.
pub usteer_sta_info_update-IsSound :
    {N : ℕ → Bool} (avl : AvlTree) (si : StaInfo) (signal : ℤ) (avg : Bool) (s : Store)
    → has_info si.self s.infos ≡ true
    → IsOwn si
    → IsSound N s
    → IsSound N (usteer_sta_info_update avl si signal avg s)
unfolding usteer_sta_info_update updated_info
usteer_sta_info_update-IsSound avl si signal avg s e own h =
    let si' = updated_info avl si signal avg s.current_time in
    usteer_sta_info_update_timeout-IsSound avl si' (to_i32 s.config.local_sta_timeout)
      (put_info si' s) (any-put_info (λ q. ref_eq q si.self) si' s ∙ e)
      (put_info-IsSound si' s own h)

-- Without `create`, `usteer_sta_info_get` gives an entry of the list.
pub usteer_sta_info_get-IsOwn :
    (addr : ℕ) (n : Node) (s : Store) (si : StaInfo) (create : Bool)
    → (usteer_sta_info_get addr n false s).0 ≡ some (si, create)
    → All IsOwn s.infos
    → IsOwn si
unfolding usteer_sta_info_get
usteer_sta_info_get-IsOwn addr n s si create e h =
    find_info-IsOwn (key_of addr n) si s.infos (ground (arith, find_by_node addr n.ptr s.infos)) h
