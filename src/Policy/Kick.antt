-- ===== src/Policy/Kick.antt =====
-- policy.c: kicking a client because of its signal or of the node's load.
pub mod Count
pub mod Order
pub mod Weighed
pub mod Selection
pub mod Kept
pub mod Total
use usteer.Base.{
  ℕ, ◌+◌, ◌/◌, Bool, true, false, not, ◌&&◌, ◌||◌, List, [], ◌∷◌, Option, none, some, ◌>>=◌, map,
  if◌then◌else◌, ◌==◌, ltb, leb, is_some, ℤ, pos, ◌+ℤ◌, ltb_ℤ, leb_ℤ, u32, sub32, to_u32, i32,
}
use usteer.State.Config.{Config}
use usteer.State.Node.{LocalNode}
use usteer.State.Station.{Ref, StaInfo}
use usteer.State.Store.{Store, find_info, local_at, put_info}
use usteer.Ubus.Clients.{usteer_ubus_kick_client}
use usteer.Policy.Candidate.{is_zero, find_better_candidate}
use usteer.Policy.Admission.{snr_to_signal}
use usteer.Policy.Roam.{is_active_client, refs_of, usteer_local_node_roam_check}

unfoldable pub is_more_kickable : Option StaInfo → StaInfo → Bool
is_more_kickable none si_new = true
is_more_kickable (some si_cur) si_new =
    if ltb si_cur.kick_count si_new.kick_count then false else ltb_ℤ si_new.signal si_cur.signal

-- `kick_count++`, then the request.
unfoldable pub count_and_kick : StaInfo → Store → Store
count_and_kick si s =
    let si' = record si { kick_count = si.kick_count + 1 } in
    (usteer_ubus_kick_client si' (put_info si' s)).1

unfoldable pub snr_kick_each : ℤ → List Ref → Store → Option Store
snr_kick_each min_signal [] s = some s
snr_kick_each min_signal (r ∷ rs) s =
    let rest = snr_kick_each min_signal rs s in
    do
      si ← find_info r s.infos
      if si.connected == 0 then rest else do
        active ← is_active_client s.config si
        if active || leb_ℤ min_signal si.signal then rest else some (count_and_kick si s)

unfoldable pub usteer_local_node_snr_kick : ℕ → Store → Option Store
usteer_local_node_snr_kick p s = if is_zero s.config.min_snr then some s else do
  ln ← local_at s p
  snr_kick_each (snr_to_signal ln.node s.config.min_snr) (refs_of p s) s

-- Whether a client may be kicked, and then its better candidate.
unfoldable pub weigh : StaInfo → Store → Option (Bool × Option StaInfo × Store)
weigh si s = if si.connected == 0 then some (false, none, s) else do
  active ← is_active_client s.config si
  if active
      then some (false, none, s)
      else do (tmp, s') ← find_better_candidate si s; some (true, tmp, s')

unfoldable pub pick : Bool → Option StaInfo → StaInfo → Option StaInfo
pick eligible kick si = if eligible && is_more_kickable kick si then some si else kick

pub record Choice : Type 0 where
  pub kick1 : Option StaInfo
  pub kick2 : Option StaInfo
  pub store : Store

-- The loop that chooses a client: `kick1` is the most kickable one, `kick2` the most kickable of
-- those that have a better candidate.
unfoldable pub choose_kick : Option StaInfo → Option StaInfo → List Ref → Store → Option Choice
choose_kick kick1 kick2 [] s = some (record { kick1 = kick1; kick2 = kick2; store = s })
choose_kick kick1 kick2 (r ∷ rs) s = do
  si ← find_info r s.infos
  (eligible, tmp, s') ← weigh si s
  choose_kick (pick eligible kick1 si) (pick (eligible && is_some tmp) kick2 si) rs s'

-- `kick2` before `kick1`.
unfoldable pub kick_chosen : Option StaInfo → Option StaInfo → Store → Store
kick_chosen none kick2 s = s
kick_chosen (some si) none s = count_and_kick si s
kick_chosen (some _) (some si) s = count_and_kick si s

set_count : ℕ → ℤ → LocalNode → LocalNode
set_count p n l = if l.node.ptr == p then record l { load_thr_count = n } else l

unfoldable pub put_thr_count : ℕ → ℤ → Store → Store
unfolding set_count
put_thr_count p n s = record s { local_nodes = map (set_count p n) s.local_nodes }

-- DIV_ROUND_UP(load_kick_delay, local_sta_update) in 32 bits; it faults if the divisor is 0.
unfoldable pub kick_rounds : Config → Option ℕ
kick_rounds c =
    if c.local_sta_update == 0
    then none
    else some (sub32 (u32 (c.load_kick_delay + c.local_sta_update)) 1 / c.local_sta_update)

unfoldable pub load_kick : ℕ → Store → Option Store
load_kick p s = do
  ln ← local_at s p
  if ltb (to_u32 ln.node.load) s.config.load_kick_threshold
      then some (put_thr_count p (pos 0) s)
      else do
        rounds ← kick_rounds s.config
        let count = i32 (ln.load_thr_count +ℤ pos 1)
        if leb (to_u32 count) rounds
            then some (put_thr_count p count s)
            else if ltb (to_u32 ln.node.n_assoc) s.config.load_kick_min_clients
            then some (put_thr_count p (pos 0) s)
            else do
              c ← choose_kick none none (refs_of p s) (put_thr_count p (pos 0) s)
              some (kick_chosen c.kick1 c.kick2 c.store)

unfoldable pub usteer_local_node_kick : ℕ → Store → Option Store
usteer_local_node_kick p s = do
  s1 ← usteer_local_node_roam_check p s
  s2 ← usteer_local_node_snr_kick p s1
  if not s2.config.load_kick_enabled
        || s2.config.load_kick_threshold == 0
        || s2.config.load_kick_delay == 0
      then some s2
      else load_kick p s2
