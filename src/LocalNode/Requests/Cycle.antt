-- ===== src/LocalNode/Requests/Cycle.antt =====
-- The requests of a local node come in turn, and what the neighbour list holds.
use usteer.Base.{
  ℕ, ◌≡◌, refl, ap, ◌∙◌, List, [], ◌∷◌, ◌++◌, map, find?, Option, none, some, ◌>>=◌, ◌==◌, arith,
  Bool-cases, inl, inr,
}
use usteer.State.Node.{
  Node, LocalNode, RemoteNode, LocalReqState, req_idle, req_clients, req_rrm_set_list,
  req_rrm_get_own,
}
use usteer.State.Store.{Store, get_clients, rrm_nr_set, rrm_nr_get_own, all_nodes, local_at}
use usteer.LocalNode.State.{update_local_node, write_local}
use usteer.LocalNode.Requests.{
  next_state, request_of, set_req_timer, usteer_local_node_state_next, usteer_local_node_req_cb,
  usteer_add_rrm_data, add_each_rrm, usteer_local_node_prepare_rrm_set,
}

-- A request, and its reply's end.
abbrev pub turn : ℕ → Store → Option Store
turn p s = do s' ← usteer_local_node_state_next p s; some (usteer_local_node_req_cb p s')

find-update :
    (p : ℕ) (g : LocalNode → LocalNode) (ln : LocalNode) (ls : List LocalNode)
    → (g ln).node.ptr ≡ ln.node.ptr
    → find? (λ l. l.node.ptr == p) ls ≡ some ln
    → find? (λ l. l.node.ptr == p) (map (write_local p g) ls) ≡ some (g ln)
unfolding write_local
find-update p g ln [] k h = absurd (ground arith)
find-update p g ln (l ∷ ls) k h = elim (Bool-cases (l.node.ptr == p)) [
  | inl q ↦ let t : l ≡ ln = ground arith in rw (q, t) (ground arith)
  | inr q ↦ ground (arith, find-update p g ln ls k)
]

local_at-update :
    (p : ℕ) (g : LocalNode → LocalNode) (ln : LocalNode) (s : Store)
    → (g ln).node.ptr ≡ ln.node.ptr
    → local_at s p ≡ some ln
    → local_at (update_local_node p g s) p ≡ some (g ln)
unfolding update_local_node
local_at-update p g ln s k h = find-update p g ln s.local_nodes k h

update_local-nodes :
    (p : ℕ) (g : LocalNode → LocalNode) (ls : List LocalNode)
    → ((l : LocalNode) → (g l).node ≡ l.node)
    → map (λ (l : LocalNode). l.node) (map (write_local p g) ls)
      ≡ map (λ (l : LocalNode). l.node) ls
unfolding write_local
update_local-nodes p g [] k = refl
update_local-nodes p g (l ∷ ls) k = ground (arith, update_local-nodes p g ls k, k l)

update_local-all_nodes :
    (p : ℕ) (g : LocalNode → LocalNode) (s : Store)
    → ((l : LocalNode) → (g l).node ≡ l.node)
    → all_nodes (update_local_node p g s) ≡ all_nodes s
unfolding update_local_node
update_local-all_nodes p g s k =
    ap (λ ns. ns ++ map (λ (r : RemoteNode). r.node) s.remote_nodes)
      (update_local-nodes p g s.local_nodes k)

-- What a turn of a node that is there leaves.
abbrev pub at_state : LocalReqState → Option ℕ → LocalNode → LocalNode
at_state st timer l = record l { req_state = st; req_timer = timer }

pub record IsTurn (p : ℕ) (ln : LocalNode) (st : LocalReqState) (s : Store) (r : Option Store)
    : Type 0 where
  pub s' : Store
  pub returns : r ≡ some s'
  pub node : local_at s' p ≡ some (at_state (next_state st) (some 1) ln)
  pub sends : s'.sent ≡ request_of (next_state st) ln s ++ s.sent
  pub nodes : all_nodes s' ≡ all_nodes s

state_next_at :
    (p : ℕ) (ln : LocalNode) (s : Store)
    → local_at s p ≡ some ln
    → usteer_local_node_state_next p s
      ≡ some (
          update_local_node p
            (at_state (next_state ln.req_state) none)
            (record s { sent = request_of (next_state ln.req_state) ln s ++ s.sent }))
unfolding usteer_local_node_state_next
state_next_at p ln s h = rw h refl

update-sent :
    (p : ℕ) (g : LocalNode → LocalNode) (s : Store) → (update_local_node p g s).sent ≡ s.sent
unfolding update_local_node
update-sent p g s = refl

turn-IsTurn :
    (p : ℕ) (ln : LocalNode) (s : Store)
    → local_at s p ≡ some ln
    → IsTurn p ln ln.req_state s (turn p s)
unfolding usteer_local_node_req_cb
turn-IsTurn p ln s h =
    let st = next_state ln.req_state in
    let s1 : Store = record s { sent = request_of st ln s ++ s.sent } in
    let s2 = update_local_node p (at_state st none) s1 in
    let k2 = local_at-update p (at_state st none) ln s1 refl h in
    record {
      s' = update_local_node p (set_req_timer 1) s2;
      returns = rw (state_next_at p ln s h) refl;
      node = local_at-update p (set_req_timer 1) (at_state st none ln) s2 refl k2;
      sends = update-sent p (set_req_timer 1) s2 ∙ update-sent p (at_state st none) s1;
      nodes =
          update_local-all_nodes p (set_req_timer 1) s2 (λ l. refl)
          ∙ update_local-all_nodes p (at_state st none) s1 (λ l. refl);
    }

add_each_rrm-at_state :
    (st : LocalReqState) (t : Option ℕ) (ln : LocalNode) (ns : List Node)
    → add_each_rrm (at_state st t ln) ns ≡ add_each_rrm ln ns
unfolding add_each_rrm usteer_add_rrm_data
add_each_rrm-at_state st t ln [] = refl
add_each_rrm-at_state st t ln (n ∷ ns) =
    ap (λ l. usteer_add_rrm_data ln n ++ l) (add_each_rrm-at_state st t ln ns)

-- The list that is set depends on the nodes only.
prepare_rrm_set-nodes :
    (st : LocalReqState) (t : Option ℕ) (ln : LocalNode) (s s' : Store)
    → all_nodes s' ≡ all_nodes s
    → usteer_local_node_prepare_rrm_set (at_state st t ln) s'
      ≡ usteer_local_node_prepare_rrm_set ln s
unfolding usteer_local_node_prepare_rrm_set
prepare_rrm_set-nodes st t ln s s' e =
    ap (add_each_rrm (at_state st t ln)) e ∙ add_each_rrm-at_state st t ln (all_nodes s)

-- Three turns and the step back.
abbrev pub round : ℕ → Store → Option Store
round p s = do s1 ← turn p s; s2 ← turn p s1; s3 ← turn p s2; usteer_local_node_state_next p s3

pub record IsRound (p : ℕ) (ln : LocalNode) (s s' : Store) : Type 0 where
  pub sends :
      s'.sent
      ≡ rrm_nr_get_own ln.obj_id
        ∷ rrm_nr_set ln.obj_id (usteer_local_node_prepare_rrm_set ln s)
        ∷ get_clients ln.obj_id
        ∷ s.sent
  pub node : local_at s' p ≡ some (record ln { req_state = req_idle; req_timer = none })

-- From REQ_IDLE a local node that is there sends get_clients, rrm_nr_set with the neighbour list,
-- and rrm_nr_get_own, in this order, when each request is completed and the timer then runs, and
-- is in REQ_IDLE again at the fourth run of the timer, with no timer set.
pub round-IsRound :
    (p : ℕ) (ln : LocalNode) (s : Store)
    → local_at s p ≡ some ln
    → ln.req_state ≡ req_idle
    → (s' : Store) × (round p s ≡ some s') × IsRound p ln s s'
unfolding request_of
round-IsRound p ln s h idle =
    let l0 : LocalNode = record ln { req_state = req_idle } in
    let is_l0 : ln ≡ l0 = ap (λ st. record ln { req_state = st }) idle in
    let t1 = turn-IsTurn p l0 s (h ∙ ap some is_l0) in
    let l1 = at_state req_clients (some 1) l0 in
    let t2 = turn-IsTurn p l1 t1.s' t1.node in
    let l2 = at_state req_rrm_set_list (some 1) l0 in
    let t3 = turn-IsTurn p l2 t2.s' t2.node in
    let l3 = at_state req_rrm_get_own (some 1) l0 in
    let s4 : Store = update_local_node p (at_state req_idle none) t3.s' in
    (
      s4,
      rw (t1.returns, t2.returns, t3.returns, state_next_at p l3 t3.s' t3.node) refl,
      record {
        sends =
            update-sent p (at_state req_idle none) t3.s'
            ∙ rw
                (
                  t3.sends,
                  t2.sends,
                  t1.sends,
                  prepare_rrm_set-nodes req_clients (some 1) ln s t1.s' t1.nodes,
                )
                refl;
        node = local_at-update p (at_state req_idle none) l3 t3.s' refl t3.node;
      },
    )
