-- ===== src/Sta/Info/Get.antt =====
-- `usteer_sta_info_get` finds the entry of a station for a node, or makes it.
use usteer.Base.{ℕ, ◌≡◌, true, false, List, [], ◌∷◌, none, some, ◌==◌, find?, arith}
use usteer.State.Node.{Node}
use usteer.State.Station.{Ref, StaInfo}
use usteer.State.Store.{Store, of_sta, find_info}
use usteer.Sta.Info.{fresh_info, usteer_sta_info_get}

-- A walk over `sta->nodes` is a search for the pair.
pub find_by_node :
    (addr p : ℕ) (xs : List StaInfo)
    → find? (λ si. si.self.node == p) (of_sta addr xs)
      ≡ find_info (record { sta = addr; node = p }) xs
find_by_node addr p [] = ground arith
find_by_node addr p (x ∷ xs) = ground (arith, find_by_node addr p xs)

abbrev pub key_of : ℕ → Node → Ref
key_of addr n = record { sta = addr; node = n.ptr }

abbrev pub made : ℕ → Node → Store → StaInfo
made addr n s = fresh_info (key_of addr n) n.freq s.current_time

-- With `create` the result is the entry that there is, or one made and put in front.
pub usteer_sta_info_get_create :
    (addr : ℕ) (n : Node) (s : Store)
    → usteer_sta_info_get addr n true s ≡ elim (find_info (key_of addr n) s.infos) [
      | some x ↦ (some (x, false), s)
      | none ↦ (some (made addr n s, true), record s { infos = made addr n s ∷ s.infos })
    ]
unfolding usteer_sta_info_get
usteer_sta_info_get_create addr n s = ground (arith, find_by_node addr n.ptr s.infos)
