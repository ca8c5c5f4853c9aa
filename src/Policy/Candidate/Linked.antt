-- ===== src/Policy/Candidate/Linked.antt =====
-- The pointers that the search for a better node follows, under the invariant.
use usteer.Base.{ℕ, ◌≡◌, ◌≢◌, ◌∙◌, Bool, true, List, [], ◌∷◌, All, find?, none, ◌==◌, arith}
use usteer.State.Node.{Node}
use usteer.State.Station.{Ref, ref_eq_iff, StaInfo, BeaconReport}
use usteer.State.Store.{Store, all_nodes, find_info}
use usteer.State.Store.Entries.{has_info}
use usteer.Sta.Info.Invariant.{has_node, IsOwn, IsSound}
use usteer.Policy.Candidate.Effect.{HasEntry, IsLinkedInfo, IsLinked}

has_node-find : (p : ℕ) (xs : List Node) → has_node p xs ≡ true → find? (λ n. n.ptr == p) xs ≢ none
has_node-find p [] h e = ground arith
has_node-find p (x ∷ xs) h e = ground (arith, has_node-find p xs)

pub has_info-find : (q : Ref) (xs : List StaInfo) → has_info q xs ≡ true → find_info q xs ≢ none
has_info-find q [] h e = ground arith
has_info-find q (x ∷ xs) h e = ground (arith, has_info-find q xs)

own_reports :
    (s : Store) (q : Ref) (brs : List BeaconReport)
    → has_info q s.infos ≡ true
    → All (λ br. br.address ≡ q) brs
    → All (λ br. HasEntry s br.address) brs
own_reports s q [] e h = tt
own_reports s q (b ∷ bs) e h = (rw (h.0) (has_info-find q s.infos e), own_reports s q bs e h.1)

-- An entry that is there points to nothing that is gone.
pub has_info-IsLinkedInfo :
    {N : ℕ → Bool} (s : Store) (x : StaInfo)
    → has_info x.self s.infos ≡ true
    → IsOwn x
    → IsSound N s
    → IsLinkedInfo s x
has_info-IsLinkedInfo s x e own h = (
  has_node-find x.self.node (all_nodes s) (h.noded x.self.node ∙ h.linked x.self e),
  own_reports s x.self x.beacon_reports e own,
)

each_linked :
    {N : ℕ → Bool} (s : Store) (xs : List StaInfo)
    → ((q : Ref) → has_info q xs ≡ true → has_info q s.infos ≡ true)
    → All IsOwn xs
    → IsSound N s
    → All (IsLinkedInfo s) xs
each_linked s [] k own h = tt
each_linked s (x ∷ xs) k own h = (
  has_info-IsLinkedInfo s x (k x.self (ground (arith, ref_eq_iff x.self x.self))) own.0 h,
  each_linked s xs (λ q e. k q (ground arith)) own.1 h,
)

-- Under the invariant no entry holds a pointer that dangles.
pub IsSound-IsLinked : {N : ℕ → Bool} (s : Store) → IsSound N s → IsLinked s
IsSound-IsLinked s h = each_linked s s.infos (λ q e. e) h.owned h
