-- ===== src/Sta/Info/Made.antt =====
-- A station and its entry for a node are made together: the invariant holds after both.
use usteer.Base.{
  ℕ, ◌≡◌, refl, Bool, true, false, ◌||◌, List, [], ◌∷◌, Option, none, some, ◌==◌, arith, find?,
  Option-cases, inl, inr, ==_iff, Bool-cases,
}
use usteer.Base.Avl.{AvlTree}
use usteer.Timeout.Armed.{any-avl_insert}
use usteer.State.Node.{Node}
use usteer.State.Station.{Ref, ref_key, ref_eq_iff, StaInfo, Sta}
use usteer.State.Store.{Store, find_info}
use usteer.State.Store.Entries.{find_info-none, find_info-self}
use usteer.Sta.Info.{usteer_sta_get, usteer_sta_info_get, find_sta, by_addr}
use usteer.Sta.Info.Get.{key_of, made, usteer_sta_info_get_create}
use usteer.Sta.Info.Invariant.{IsOwn, IsSound, IsSoundWith, has_sta, has_entry}
use usteer.Sta.Info.Known.{find_info-IsOwn}
use usteer.Sta.Info.Sound.{find_info-has_entry, made_linked}

pub find_sta-none :
    (addr : ℕ) (ts : List Sta) → find? (λ t. t.addr == addr) ts ≡ none → has_sta addr ts ≡ false
find_sta-none addr [] h = refl
find_sta-none addr (t ∷ ts) h = ground (arith, find_sta-none addr ts)

pub find_sta-some :
    (addr : ℕ) (t : Sta) (ts : List Sta)
    → find? (λ t. t.addr == addr) ts ≡ some t
    → has_sta addr ts ≡ true
find_sta-some addr t [] h = absurd (ground arith)
find_sta-some addr t (u ∷ ts) h = ground (arith, find_sta-some addr t ts)

kept_with :
    {N : ℕ → Bool} (addr a : ℕ) (s : Store)
    → has_sta addr s.stations ≡ true
    → IsSound N s
    → has_sta a s.stations ≡ (has_entry a s.infos || (addr == a))
kept_with addr a s e h = elim (Bool-cases (addr == a)) [
  | inl p ↦
      let q : addr ≡ a = (==_iff addr a).0 p in
      let e' : has_sta a s.stations ≡ true = rw (← q) e in ground arith
  | inr p ↦ ground (arith, h.rooted a)
]

got_stations :
    {N : ℕ → Bool} (avl : AvlTree) (addr a : ℕ) (s : Store)
    → IsSound N s
    → has_sta a (usteer_sta_get avl addr true s).1.stations ≡ (has_entry a s.infos || (addr == a))
unfolding usteer_sta_get find_sta by_addr
got_stations avl addr a s h = elim (Option-cases (find? (λ t. t.addr == addr) s.stations)) [
  | inl e ↦ ground (
    arith,
    any-avl_insert avl (λ (t : Sta). t.addr == a) (by_addr avl)
        (record { addr = addr; seen_2ghz = false; seen_5ghz = false }) s.stations,
    h.rooted a,
  )
  | inr (t, e) ↦ ground (arith, kept_with addr a s (find_sta-some addr t s.stations e) h)
]

usteer_sta_get-rest :
    (avl : AvlTree) (addr : ℕ) (s : Store)
    → (usteer_sta_get avl addr true s).1
      ≡ record s { stations = (usteer_sta_get avl addr true s).1.stations }
unfolding usteer_sta_get find_sta by_addr
usteer_sta_get-rest avl addr s = ground arith

pub usteer_sta_get-IsSoundWith :
    {N : ℕ → Bool} (avl : AvlTree) (addr : ℕ) (s : Store)
    → IsSound N s
    → IsSoundWith addr N (usteer_sta_get avl addr true s).1
usteer_sta_get-IsSoundWith avl addr s h = rw (usteer_sta_get-rest avl addr s) (record {
  rooted = λ a. got_stations avl addr a s h;
  unique = h.unique;
  alive = h.alive;
  linked = h.linked;
  noded = h.noded;
  owned = h.owned;
})

-- What `usteer_sta_info_get` with `create` gives: an entry that is there, for that station and node.
pub record IsMade (N : ℕ → Bool) (r : Ref) (x : Option (StaInfo × Bool) × Store) : Type 0 where
  pub si : StaInfo
  pub create : Bool
  pub found : x.0 ≡ some (si, create)
  pub key : si.self ≡ r
  pub there : find_info r x.1.infos ≡ some si
  pub own : IsOwn si
  pub sound : IsSound N x.1

rooted_found :
    {N : ℕ → Bool} (r : Ref) (a : ℕ) (s : Store) (x : StaInfo)
    → find_info r s.infos ≡ some x
    → IsSoundWith r.sta N s
    → has_sta a s.stations ≡ has_entry a s.infos
rooted_found r a s x e h = elim (Bool-cases (r.sta == a)) [
  | inl p ↦
      let q : r.sta ≡ a = (==_iff r.sta a).0 p in
      let e' : has_entry a s.infos ≡ true = rw (← q) (find_info-has_entry r x s.infos e) in
      ground (arith, h.rooted a)
  | inr p ↦ ground (arith, h.rooted a)
]

info_found :
    {N : ℕ → Bool} (r : Ref) (s : Store) (x : StaInfo)
    → find_info r s.infos ≡ some x
    → IsSoundWith r.sta N s
    → IsSound N s
info_found r s x e h = record {
  rooted = λ a. rooted_found r a s x e h;
  unique = h.unique;
  alive = h.alive;
  linked = h.linked;
  noded = h.noded;
  owned = h.owned;
}

info_made :
    {N : ℕ → Bool} (addr : ℕ) (n : Node) (s : Store)
    → find_info (key_of addr n) s.infos ≡ none
    → N n.ptr ≡ true
    → IsSoundWith addr N s
    → IsSound N (record s { infos = made addr n s ∷ s.infos })
info_made addr n s e there h = record {
  rooted = λ a. ground (arith, h.rooted a);
  unique = (find_info-none (key_of addr n) s.infos e, h.unique);
  alive = λ q set. ground (arith, h.alive q);
  linked = made_linked _ addr n s there h.linked;
  noded = h.noded;
  owned = (tt, h.owned);
}

pub usteer_sta_info_get-IsMade :
    {N : ℕ → Bool} (addr : ℕ) (n : Node) (s : Store)
    → N n.ptr ≡ true
    → IsSoundWith addr N s
    → IsMade N (key_of addr n) (usteer_sta_info_get addr n true s)
usteer_sta_info_get-IsMade addr n s node h =
    elim (Option-cases (find_info (key_of addr n) s.infos)) [
      | inl e ↦ rw (usteer_sta_info_get_create addr n s) (
          rw e (record {
            si = made addr n s;
            create = true;
            found = refl;
            key = refl;
            there = ground (arith, ref_eq_iff (key_of addr n) (key_of addr n));
            own = tt;
            sound = info_made addr n s e node h;
          }))
      | inr (x, e) ↦ rw (usteer_sta_info_get_create addr n s) (
          rw e (record {
            si = x;
            create = false;
            found = refl;
            key = find_info-self (key_of addr n) x s.infos e;
            there = e;
            own = find_info-IsOwn (key_of addr n) x s.infos e h.owned;
            sound = info_found (key_of addr n) s x e h;
          }))
    ]
