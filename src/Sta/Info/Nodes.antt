-- ===== src/Sta/Info/Nodes.antt =====
-- What a change of the trees of nodes leaves of the invariant.
use usteer.Base.{
  ℕ, ◌≡◌, ◌∙◌, refl, sym, Bool, true, false, ◌||◌, ◌++◌, List, [], ◌∷◌, map, any, ◌==◌, arith,
  Bool-cases, inl, inr,
}
use usteer.State.Node.{LocalNode, RemoteNode}
use usteer.State.Station.{Ref, StaInfo}
use usteer.State.Store.{Store, of_sta, of_node, update_node, update_remote}
use usteer.State.Store.Entries.{has_info}
use usteer.Sta.Info.{
  is_empty, remove_info, usteer_sta_info_del, del_each, usteer_sta_node_cleanup, drop_rrm_nr,
}
use usteer.Sta.Info.Cleanup.{usteer_sta_node_cleanup-has_info}
use usteer.Sta.Info.Invariant.{has_node, IsSound, IsSafe}

abbrev pub has_local : ℕ → List LocalNode → Bool
has_local q = any (λ l. l.node.ptr == q)

abbrev pub has_remote : ℕ → List RemoteNode → Bool
has_remote q = any (λ r. r.node.ptr == q)

remotes-has_node :
    (q : ℕ) (rs : List RemoteNode)
    → has_node q (map (λ (r : RemoteNode). r.node) rs) ≡ has_remote q rs
remotes-has_node q [] = refl
remotes-has_node q (r ∷ rs) = ground (arith, remotes-has_node q rs)

pub trees-has_node :
    (q : ℕ) (ls : List LocalNode) (rs : List RemoteNode)
    → has_node q (map (λ (l : LocalNode). l.node) ls ++ map (λ (r : RemoteNode). r.node) rs)
      ≡ (has_local q ls || has_remote q rs)
trees-has_node q [] rs = remotes-has_node q rs
trees-has_node q (l ∷ ls) rs = ground (arith, trees-has_node q ls rs)

-- Whichever nodes are said to be there, they are those that are.
pub IsSound-IsSafe : {N : ℕ → Bool} (s : Store) → IsSound N s → IsSafe s
IsSound-IsSafe s h = record {
  rooted = h.rooted;
  unique = h.unique;
  alive = h.alive;
  linked = λ q e. h.noded q.node ∙ h.linked q e;
  noded = λ p. refl;
  owned = h.owned;
}

-- Nodes may come and go, as long as those stay that have entries.
pub remotes_kept :
    {N : ℕ → Bool} (rs : List RemoteNode) (s : Store)
    → ((q : Ref)
        → has_info q s.infos ≡ true
        → has_remote q.node s.remote_nodes ≡ true
        → has_remote q.node rs ≡ true)
    → IsSound N s
    → IsSafe (record s { remote_nodes = rs })
remotes_kept rs s k h = record {
  rooted = h.rooted;
  unique = h.unique;
  alive = h.alive;
  linked = λ q e.
      let there = h.noded q.node ∙ h.linked q e in
      ground (
        arith,
        trees-has_node q.node s.local_nodes s.remote_nodes,
        trees-has_node q.node s.local_nodes rs,
        k q e,
      );
  noded = λ p. refl;
  owned = h.owned;
}

pub locals_kept :
    {N : ℕ → Bool} (ls : List LocalNode) (s : Store)
    → ((q : Ref)
        → has_info q s.infos ≡ true
        → has_local q.node s.local_nodes ≡ true
        → has_local q.node ls ≡ true)
    → IsSound N s
    → IsSafe (record s { local_nodes = ls })
locals_kept ls s k h = record {
  rooted = h.rooted;
  unique = h.unique;
  alive = h.alive;
  linked = λ q e.
      let there = h.noded q.node ∙ h.linked q e in
      ground (
        arith,
        trees-has_node q.node s.local_nodes s.remote_nodes,
        trees-has_node q.node ls s.remote_nodes,
        k q e,
      );
  noded = λ p. refl;
  owned = h.owned;
}

-- Where the addresses stay, so does the invariant.
pub same_locals :
    {N : ℕ → Bool} (ls : List LocalNode) (s : Store)
    → ((q : ℕ) → has_local q ls ≡ has_local q s.local_nodes)
    → IsSound N s
    → IsSound N (record s { local_nodes = ls })
same_locals ls s k h = record {
  rooted = h.rooted;
  unique = h.unique;
  alive = h.alive;
  linked = h.linked;
  noded = λ q.
      trees-has_node q ls s.remote_nodes
      ∙ rw (k q) (sym (trees-has_node q s.local_nodes s.remote_nodes) ∙ h.noded q);
  owned = h.owned;
}

pub same_remotes :
    {N : ℕ → Bool} (rs : List RemoteNode) (s : Store)
    → ((q : ℕ) → has_remote q rs ≡ has_remote q s.remote_nodes)
    → IsSound N s
    → IsSound N (record s { remote_nodes = rs })
same_remotes rs s k h = record {
  rooted = h.rooted;
  unique = h.unique;
  alive = h.alive;
  linked = h.linked;
  noded = λ q.
      trees-has_node q s.local_nodes rs
      ∙ rw (k q) (sym (trees-has_node q s.local_nodes s.remote_nodes) ∙ h.noded q);
  owned = h.owned;
}

del-remotes :
    (r : Ref) (rs : List RemoteNode) (s : Store)
    → usteer_sta_info_del r (record s { remote_nodes = rs })
      ≡ record (usteer_sta_info_del r s) { remote_nodes = rs }
unfolding usteer_sta_info_del
del-remotes r rs s = elim (Bool-cases (is_empty (of_sta r.sta (remove_info r s.infos)))) [
  | inl e ↦ rw e refl
  | inr e ↦ rw e refl
]

del_each-remotes :
    (sis : List StaInfo) (rs : List RemoteNode) (s : Store)
    → del_each sis (record s { remote_nodes = rs }) ≡ record (del_each sis s) { remote_nodes = rs }
unfolding del_each
del_each-remotes [] rs s = refl
del_each-remotes (x ∷ xs) rs s =
    rw (del-remotes x.self rs s) (del_each-remotes xs rs (usteer_sta_info_del x.self s))

-- The entries of a node go in the same way with or without the node in its tree.
pub cleanup-remotes :
    (p : ℕ) (rs : List RemoteNode) (s : Store)
    → usteer_sta_node_cleanup p (record s { remote_nodes = rs })
      ≡ record (usteer_sta_node_cleanup p s) { remote_nodes = map (update_remote p drop_rrm_nr) rs }
unfolding usteer_sta_node_cleanup update_node
cleanup-remotes p rs s =
    let g = map (update_remote p drop_rrm_nr) in
    del_each-remotes (of_node p s.infos) (g rs) (update_node p drop_rrm_nr s)

-- An entry that the clean-up leaves is of another node.
pub cleanup-others :
    (p : ℕ) (q : Ref) (s : Store)
    → has_info q (usteer_sta_node_cleanup p s).infos ≡ true
    → (q.node == p) ≡ false
cleanup-others p q s e = ground (arith, usteer_sta_node_cleanup-has_info p q s)
