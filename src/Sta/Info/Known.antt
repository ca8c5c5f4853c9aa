-- ===== src/Sta/Info/Known.antt =====
-- Which nodes are there, and what the invariant says of a pointer that is followed.
use usteer.Base.{
  ℕ, ◌≡◌, ◌∙◌, refl, sym, subst, Bool, true, ◌||◌, ◌++◌, List, [], ◌∷◌, map, All, find?, some, ◌==◌,
  ==_iff, arith, Bool-cases, inl, inr,
}
use usteer.State.Node.{Node, LocalNode, RemoteNode}
use usteer.State.Station.{Ref, ref_eq, StaInfo}
use usteer.State.Store.{
  Store, all_nodes, node_at, local_at, find_info, update_local, update_remote, update_node,
}
use usteer.Sta.Info.Invariant.{has_node, IsOwn, IsSound}

pub find_info-IsOwn :
    (q : Ref) (x : StaInfo) (xs : List StaInfo) → find_info q xs ≡ some x → All IsOwn xs → IsOwn x
find_info-IsOwn q x [] e h = absurd (ground arith)
find_info-IsOwn q x (y ∷ ys) e h = elim (Bool-cases (ref_eq y.self q)) [
  | inl f ↦ let p : y ≡ x = ground arith in subst IsOwn p h.0
  | inr f ↦ find_info-IsOwn q x ys (ground arith) h.1
]

update_local-ptrs :
    (p q : ℕ) (g : Node → Node) (ls : List LocalNode)
    → ((n : Node) → (g n).ptr ≡ n.ptr)
    → has_node q (map (λ (l : LocalNode). l.node) (map (update_local p g) ls))
      ≡ has_node q (map (λ (l : LocalNode). l.node) ls)
unfolding update_local
update_local-ptrs p q g [] k = refl
update_local-ptrs p q g (l ∷ ls) k = ground (arith, update_local-ptrs p q g ls k, k l.node)

update_remote-ptrs :
    (p q : ℕ) (g : Node → Node) (rs : List RemoteNode)
    → ((n : Node) → (g n).ptr ≡ n.ptr)
    → has_node q (map (λ (r : RemoteNode). r.node) (map (update_remote p g) rs))
      ≡ has_node q (map (λ (r : RemoteNode). r.node) rs)
unfolding update_remote
update_remote-ptrs p q g [] k = refl
update_remote-ptrs p q g (r ∷ rs) k = ground (arith, update_remote-ptrs p q g rs k, k r.node)

pub has_node-append :
    (q : ℕ) (xs ys : List Node) → has_node q (xs ++ ys) ≡ (has_node q xs || has_node q ys)
has_node-append q [] ys = refl
has_node-append q (x ∷ xs) ys = ground (arith, has_node-append q xs ys)

-- The nodes that are there, by their two trees.
pub all_nodes-has_node :
    (q : ℕ) (s : Store)
    → has_node q (all_nodes s) ≡ (
        has_node q (map (λ (l : LocalNode). l.node) s.local_nodes)
        || has_node q (map (λ (r : RemoteNode). r.node) s.remote_nodes))
all_nodes-has_node q s =
    has_node-append q (map (λ (l : LocalNode). l.node) s.local_nodes)
      (map (λ (r : RemoteNode). r.node) s.remote_nodes)

update_node-has_node :
    (p q : ℕ) (g : Node → Node) (s : Store)
    → ((n : Node) → (g n).ptr ≡ n.ptr)
    → has_node q (all_nodes (update_node p g s)) ≡ has_node q (all_nodes s)
unfolding update_node
update_node-has_node p q g s k =
    all_nodes-has_node q (update_node p g s)
    ∙ rw (update_local-ptrs p q g s.local_nodes k, update_remote-ptrs p q g s.remote_nodes k)
        (sym (all_nodes-has_node q s))

-- A write to a node that is no new address keeps the invariant.
pub update_node-IsSound :
    {N : ℕ → Bool} (p : ℕ) (g : Node → Node) (s : Store)
    → ((n : Node) → (g n).ptr ≡ n.ptr)
    → IsSound N s
    → IsSound N (update_node p g s)
unfolding update_node
update_node-IsSound p g s k h = record {
  rooted = h.rooted;
  unique = h.unique;
  alive = h.alive;
  linked = h.linked;
  noded = λ q. update_node-has_node p q g s k ∙ h.noded q;
  owned = h.owned;
}

pub find-has_node :
    (f : Node → Bool) (n : Node) (xs : List Node) → find? f xs ≡ some n → has_node n.ptr xs ≡ true
find-has_node f n [] h = absurd (ground arith)
find-has_node f n (x ∷ xs) h = elim (Bool-cases (f x)) [
  | inl e ↦ let p : x ≡ n = ground arith in rw p (ground (arith, ==_iff n.ptr n.ptr))
  | inr e ↦ ground (arith, find-has_node f n xs)
]

pub node_at-known :
    {N : ℕ → Bool} (p : ℕ) (n : Node) (s : Store)
    → node_at s p ≡ some n
    → IsSound N s
    → N n.ptr ≡ true
node_at-known p n s e h = sym (h.noded n.ptr) ∙ find-has_node _ n (all_nodes s) e

find-has_local :
    (p : ℕ) (ln : LocalNode) (ls : List LocalNode)
    → find? (λ l. l.node.ptr == p) ls ≡ some ln
    → has_node ln.node.ptr (map (λ (l : LocalNode). l.node) ls) ≡ true
find-has_local p ln [] h = absurd (ground arith)
find-has_local p ln (l ∷ ls) h = elim (Bool-cases (l.node.ptr == p)) [
  | inl e ↦ let q : l ≡ ln = ground arith in rw q (ground (arith, ==_iff ln.node.ptr ln.node.ptr))
  | inr e ↦ ground (arith, find-has_local p ln ls)
]

pub local_at-known :
    {N : ℕ → Bool} (p : ℕ) (ln : LocalNode) (s : Store)
    → local_at s p ≡ some ln
    → IsSound N s
    → N ln.node.ptr ≡ true
local_at-known p ln s e h =
    let there = find-has_local p ln s.local_nodes e in
    sym (h.noded ln.node.ptr) ∙ ground (arith, all_nodes-has_node ln.node.ptr s)
