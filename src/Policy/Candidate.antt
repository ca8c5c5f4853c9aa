-- ===== src/Policy/Candidate.antt =====
-- policy.c: comparing two nodes for a client, and the search for a better one.
pub mod Compare
pub mod Search
pub mod Effect
pub mod Linked
use mathlib.Core.Option
use usteer.Base.{
  ℕ, ◌*◌, ◌/◌, Bool, true, false, not, ◌&&◌, ◌||◌, List, [], ◌∷◌, Option, none, some, ◌>>=◌, ◌==◌,
  if◌then◌else◌, ltb, leb, ℤ, pos, negsuc, ◌-ℤ◌, ltb_ℤ, leb_ℤ, u16, u32, sub64, to_u32, to_i32, i32,
  ◌+◌, str_eq,
}
use usteer.State.Config.{Config}
use usteer.State.Node.{Node}
use usteer.State.Station.{StaInfo, BeaconReport}
use usteer.State.Store.{Store, of_sta, find_info, node_at}
use usteer.HearingMap.Nodes.{get_usteer_node_from_bssid}
use usteer.Sta.Info.{usteer_sta_info_get}

-- `int += uint32_t`.
abbrev pub add_u32 : ℤ → ℕ → ℤ
add_u32 n k = to_i32 (u32 (to_u32 n + k))

abbrev pub is_5g : Node → Bool
is_5g n = ltb_ℤ (pos 4000) n.freq

unfoldable pub below_assoc_threshold : Config → Node → Node → Bool
below_assoc_threshold c cur new =
    let n_new =
      if is_5g cur && not (is_5g new)
      then add_u32 new.n_assoc c.band_steering_threshold
      else new.n_assoc in
    let n_cur =
      if not (is_5g cur) && is_5g new
      then add_u32 cur.n_assoc c.band_steering_threshold
      else cur.n_assoc in
    leb_ℤ (add_u32 n_new c.load_balancing_threshold) n_cur

unfoldable pub better_signal_strength : Config → StaInfo → StaInfo → Bool
unfolding ◌-ℤ◌
better_signal_strength c cur new =
    let is_better = ltb_ℤ (to_i32 c.signal_diff_threshold) (i32 (new.signal -ℤ cur.signal)) in
    if c.signal_diff_threshold == 0 then false else is_better

unfoldable pub better_signal_strength_hearing_map : Config → BeaconReport → BeaconReport → Bool
unfolding ◌-ℤ◌
better_signal_strength_hearing_map c cur new =
    let rcpi_threshold = u16 (c.signal_diff_threshold / 100 * 255) in
    let is_better = ltb_ℤ (pos rcpi_threshold) (pos new.rcpi -ℤ pos cur.rcpi) in
    if c.signal_diff_threshold == 0 then false else is_better

-- Both comparisons are of unsigned numbers.
unfoldable pub below_load_threshold : Config → Node → Bool
below_load_threshold c n =
    leb c.load_kick_min_clients (to_u32 n.n_assoc) && ltb c.load_kick_threshold (to_u32 n.load)

unfoldable pub has_better_load : Config → Node → Node → Bool
unfolding below_load_threshold
has_better_load c cur new = not (below_load_threshold c cur) && below_load_threshold c new

abbrev pub is_zero : ℤ → Bool
is_zero (pos n) = n == 0
is_zero (negsuc n) = false

unfoldable pub below_max_assoc : Node → Bool
below_max_assoc n = is_zero n.max_assoc || ltb_ℤ n.n_assoc n.max_assoc

-- The nodes are those of the two entries.
unfoldable pub is_better_candidate : Config → Node → Node → StaInfo → StaInfo → Bool
unfolding below_max_assoc below_assoc_threshold better_signal_strength has_better_load
is_better_candidate c node_cur node_new si_cur si_new =
    if not (below_max_assoc node_new)
    then false
    else below_assoc_threshold c node_cur node_new
      || better_signal_strength c si_cur si_new
      || has_better_load c node_cur node_new

abbrev better_node_hearing_map : Config → Node → Node → BeaconReport → BeaconReport → Bool
better_node_hearing_map c node_cur node_new br_cur br_new =
    if not (below_max_assoc node_new)
    then false
    else below_assoc_threshold c node_cur node_new
      || better_signal_strength_hearing_map c br_cur br_new
      || has_better_load c node_cur node_new

unfoldable pub is_better_candidate_hearing_map : Store → BeaconReport → BeaconReport → Option Bool
is_better_candidate_hearing_map s br_cur br_new = do
  node_new ← get_usteer_node_from_bssid s br_new.bssid
  node_cur ← get_usteer_node_from_bssid s br_cur.bssid
  some (better_node_hearing_map s.config node_cur node_new br_cur br_new)

-- `strcmp(node->ssid, si_ref->node->ssid) == 0`.
unfoldable pub same_ssid : Store → Node → StaInfo → Option Bool
same_ssid s n si_ref = do ref_node ← node_at s si_ref.self.node; some (str_eq n.ssid ref_node.ssid)

-- The first loop of `find_better_candidate`: the report of the client's own node.
unfoldable pub current_report : Store → StaInfo → List BeaconReport → Option BeaconReport
current_report s si_ref [] = none
current_report s si_ref (br ∷ brs) =
    let rest = current_report s si_ref brs in
    elim (get_usteer_node_from_bssid s br.bssid) [
      | none ↦ rest
      | some n ↦ if n.ptr == si_ref.self.node then some br else rest
    ]

-- `better(cur, new) && !better(new, cur)` on two reports.
unfoldable pub prefers_report : Store → BeaconReport → BeaconReport → Option Bool
prefers_report s br_cur br = do
  there ← is_better_candidate_hearing_map s br_cur br
  back ← is_better_candidate_hearing_map s br br_cur
  some (there && not back)

unfoldable pub report_fits : Store → StaInfo → BeaconReport → BeaconReport → Node → Option Bool
report_fits s si_ref br_cur br n =
    if n.ptr == si_ref.self.node
    then some false
    else do same ← same_ssid s n si_ref; if same then prefers_report s br_cur br else some false

-- The second loop, once `br_cur` is set: the first report that fits, and its node.
unfoldable pub reported_candidate :
    Store → StaInfo → BeaconReport → List BeaconReport → Option (Option (BeaconReport × Node))
reported_candidate s si_ref br_cur [] = some none
reported_candidate s si_ref br_cur (br ∷ brs) =
    let rest = reported_candidate s si_ref br_cur brs in
    elim (get_usteer_node_from_bssid s br.bssid) [
      | none ↦ rest
      | some n ↦ do
        fits ← report_fits s si_ref br_cur br n
        if fits then some (some (br, n)) else rest
    ]

unfoldable pub entry_fits : Store → StaInfo → StaInfo → Option Bool
entry_fits s si_ref si =
    if si.self.node == si_ref.self.node
    then some false
    else if ltb s.config.seen_policy_timeout (sub64 s.current_time si.seen)
    then some false
    else do
      n ← node_at s si.self.node
      same ← same_ssid s n si_ref
      ref_node ← node_at s si_ref.self.node
      some (
          same
          && is_better_candidate s.config ref_node n si_ref si
          && not (is_better_candidate s.config n ref_node si si_ref))

-- The third loop, over the entries of the station.
unfoldable pub seen_candidate : Store → StaInfo → List StaInfo → Option (Option StaInfo)
seen_candidate s si_ref [] = some none
seen_candidate s si_ref (si ∷ sis) = do
  fits ← entry_fits s si_ref si
  if fits then some (some si) else seen_candidate s si_ref sis

-- The hearing map's candidate, if there is a report of the client's own node.
unfoldable pub hearing_map_candidate : Store → StaInfo → Option (Option (BeaconReport × Node))
hearing_map_candidate s si_ref = elim (current_report s si_ref si_ref.beacon_reports) [
  | none ↦ some none
  | some br_cur ↦ reported_candidate s si_ref br_cur si_ref.beacon_reports
]

-- A candidate from the hearing map gets an entry if it has none.
unfoldable pub find_better_candidate : StaInfo → Store → Option (Option StaInfo × Store)
find_better_candidate si_ref s = do
  hit ← hearing_map_candidate s si_ref
  elim hit [
    | some (br, n) ↦ do
      owner ← find_info br.address s.infos
      let (found, s') = usteer_sta_info_get owner.self.sta n true s
      some (Option.map (λ (p : StaInfo × Bool). p.0) found, s')
    | none ↦ do si ← seen_candidate s si_ref (of_sta si_ref.self.sta s.infos); some (si, s)
  ]
