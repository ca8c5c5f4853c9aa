-- ===== src/Policy/Candidate/Effect.antt =====
-- What the search for a better node does to the store, and when it returns.
use usteer.Base.{
  Bool, ◌∙◌, sym, ℕ, ◌≡◌, ◌≢◌, inl, inr, true, false, List, [], ◌∷◌, Option, none, some, arith,
  Option-cases, Bool-cases, All, ◌==◌,
}
use usteer.State.Node.{Node}
use usteer.State.Station.{StaInfo, BeaconReport, Ref, ref_eq_iff}
use usteer.State.Store.{Store, all_nodes, node_at, of_sta, find_info}
use usteer.HearingMap.Nodes.{get_usteer_node_from_bssid}
use usteer.Sta.Info.Invariant.{IsSound, carry, has_node, has_entry}
use usteer.State.Store.Entries.{has_info}
use usteer.Sta.Info.Known.{find-has_node}
use usteer.Sta.Info.Sound.{made-IsSound, find_info-has_entry_self}
use usteer.Sta.Info.Get.{key_of, made, usteer_sta_info_get_create}
use usteer.Policy.Candidate.{
  same_ssid, entry_fits, seen_candidate, is_better_candidate_hearing_map, prefers_report,
  report_fits, current_report, reported_candidate, hearing_map_candidate, find_better_candidate,
}

-- The store after the search: as it was, or with one new entry in front, which is the result. The
-- search sets no timeout for the new entry, which is not connected.
pub data SearchEffect (s : Store) (r : Option StaInfo) (s' : Store) : Type 0 where
  unchanged : s' ≡ s → SearchEffect s r s'
  entry_made :
      (addr : ℕ) (n : Node)
      → has_entry addr s.infos ≡ true
      → find_info (key_of addr n) s.infos ≡ none
      → has_node n.ptr (all_nodes s) ≡ true
      → r ≡ some (made addr n s)
      → s' ≡ record s { infos = made addr n s ∷ s.infos }
      → SearchEffect s r s'

reported-there :
    (s : Store) (si_ref : StaInfo) (br_cur : BeaconReport) (brs : List BeaconReport)
    (br : BeaconReport) (n : Node)
    → reported_candidate s si_ref br_cur brs ≡ some (some (br, n))
    → has_node n.ptr (all_nodes s) ≡ true
unfolding reported_candidate
reported-there s si_ref br_cur [] br n e = absurd (ground arith)
reported-there s si_ref br_cur (b ∷ brs) br n e =
    let rest = reported-there s si_ref br_cur brs br n in
    elim (Option-cases (get_usteer_node_from_bssid s b.bssid)) [
      | inl q ↦ ground (arith, rest)
      | inr (m, q) ↦ elim (Option-cases (report_fits s si_ref br_cur b m)) [
        | inl f ↦ absurd (ground arith)
        | inr (true, f) ↦
            let p : m ≡ n = ground arith in rw (← p) (find-has_node _ m (all_nodes s) q)
        | inr (false, f) ↦ ground (arith, rest)
      ]
    ]

candidate-there :
    (s : Store) (si_ref : StaInfo) (br : BeaconReport) (n : Node)
    → hearing_map_candidate s si_ref ≡ some (some (br, n))
    → has_node n.ptr (all_nodes s) ≡ true
unfolding hearing_map_candidate
candidate-there s si_ref br n e =
    elim (Option-cases (current_report s si_ref si_ref.beacon_reports)) [
      | inl q ↦ absurd (ground arith)
      | inr (cur, q) ↦ reported-there s si_ref cur si_ref.beacon_reports br n (ground arith)
    ]

-- A search that returns leaves the store as it was, or adds one entry in front, its result, for a
-- station that had none at that node; nothing else changes, so no timeout is set for the new
-- entry.
pub find_better_candidate-SearchEffect :
    (s s' : Store) (si_ref : StaInfo) (r : Option StaInfo)
    → find_better_candidate si_ref s ≡ some (r, s')
    → SearchEffect s r s'
unfolding find_better_candidate
find_better_candidate-SearchEffect s s' si_ref r h =
    elim (Option-cases (hearing_map_candidate s si_ref)) [
      | inl e ↦ ground arith
      | inr (none, e) ↦ unchanged (ground arith)
      | inr (some (br, n), e) ↦ elim (Option-cases (find_info br.address s.infos)) [
        | inl e' ↦ ground arith
        | inr (owner, e') ↦ elim (Option-cases (find_info (key_of owner.self.sta n) s.infos)) [
          | inl new ↦
              entry_made owner.self.sta n (find_info-has_entry_self br.address owner s.infos e') new
                (candidate-there s si_ref br n e)
                (ground (arith, usteer_sta_info_get_create owner.self.sta n s))
                (ground (arith, usteer_sta_info_get_create owner.self.sta n s))
          | inr (x, old) ↦ unchanged (ground (arith, usteer_sta_info_get_create owner.self.sta n s))
        ]
      ]
    ]

-- An entry that was there is there afterwards, with the same contents.
pub SearchEffect-keeps :
    (s s' : Store) (r : Option StaInfo) (q : Ref) (x : StaInfo)
    → SearchEffect s r s'
    → find_info q s.infos ≡ some x
    → find_info q s'.infos ≡ some x
SearchEffect-keeps s s' r q x (unchanged e) h = rw e h
SearchEffect-keeps s s' r q x (entry_made addr n known new there _ e) h =
    rw e (ground (arith, ref_eq_iff (key_of addr n) q))

pub SearchEffect-entries :
    (s s' : Store) (r : Option StaInfo) (q : Ref)
    → SearchEffect s r s'
    → has_info q s.infos ≡ true
    → has_info q s'.infos ≡ true
SearchEffect-entries s s' r q (unchanged e) h = rw e h
SearchEffect-entries s s' r q (entry_made addr n known new there _ e) h = rw e (ground arith)

-- Nothing but the list of entries differs.
pub SearchEffect-rest :
    (s s' : Store) (r : Option StaInfo) → SearchEffect s r s' → s' ≡ record s { infos = s'.infos }
SearchEffect-rest s s' r (unchanged e) = rw e
SearchEffect-rest s s' r (entry_made addr n known new there _ e) = rw e

-- The search keeps the invariant.
pub SearchEffect-IsSound :
    {N : ℕ → Bool} (s s' : Store) (r : Option StaInfo)
    → SearchEffect s r s'
    → IsSound N s
    → IsSound N s'
SearchEffect-IsSound s s' r (unchanged e) h = carry (sym e) h
SearchEffect-IsSound s s' r (entry_made addr n known new there _ e) h =
    carry (sym e) (made-IsSound addr n s known new (sym (h.noded n.ptr) ∙ there) h)

pub find_better_candidate-IsSound :
    {N : ℕ → Bool} (si : StaInfo) (s s' : Store) (r : Option StaInfo)
    → find_better_candidate si s ≡ some (r, s')
    → IsSound N s
    → IsSound N s'
find_better_candidate-IsSound si s s' r e h =
    SearchEffect-IsSound s s' r (find_better_candidate-SearchEffect s s' si r e) h

abbrev pub HasNode : Store → ℕ → Type 0
HasNode s p = node_at s p ≢ none

abbrev pub HasEntry : Store → Ref → Type 0
HasEntry s q = find_info q s.infos ≢ none

-- The entry's node is there, and so are the entries that its reports point to.
abbrev pub IsLinkedInfo : Store → StaInfo → Type 0
IsLinkedInfo s si = HasNode s si.self.node × All (λ br. HasEntry s br.address) si.beacon_reports

-- No entry holds a dangling pointer.
abbrev pub IsLinked : Store → Type 0
IsLinked s = All (IsLinkedInfo s) s.infos

entry_fits_total :
    (s : Store) (si_ref si : StaInfo)
    → HasNode s si_ref.self.node
    → HasNode s si.self.node
    → entry_fits s si_ref si ≢ none
unfolding entry_fits same_ssid
entry_fits_total s si_ref si h k e = ground arith

seen_candidate_total :
    (s : Store) (si_ref : StaInfo) (sis : List StaInfo)
    → HasNode s si_ref.self.node
    → All (IsLinkedInfo s) sis
    → seen_candidate s si_ref sis ≢ none
unfolding seen_candidate
seen_candidate_total s si_ref [] h k e = cc
seen_candidate_total s si_ref (si ∷ sis) h k e =
    ground (arith, entry_fits_total s si_ref si h k.0.0, seen_candidate_total s si_ref sis h k.1)

current_report-node :
    (s : Store) (si_ref : StaInfo) (brs : List BeaconReport) (br : BeaconReport)
    → current_report s si_ref brs ≡ some br
    → get_usteer_node_from_bssid s br.bssid ≢ none
unfolding current_report
current_report-node s si_ref [] br h e = cc
current_report-node s si_ref (b ∷ brs) br h e = ground (arith, current_report-node s si_ref brs br)

report_fits_total :
    (s : Store) (si_ref : StaInfo) (br_cur br : BeaconReport) (n : Node)
    → HasNode s si_ref.self.node
    → get_usteer_node_from_bssid s br_cur.bssid ≢ none
    → get_usteer_node_from_bssid s br.bssid ≡ some n
    → report_fits s si_ref br_cur br n ≢ none
unfolding report_fits same_ssid prefers_report is_better_candidate_hearing_map
report_fits_total s si_ref br_cur br n h k q e = ground arith

reported_candidate_total :
    (s : Store) (si_ref : StaInfo) (br_cur : BeaconReport) (brs : List BeaconReport)
    → HasNode s si_ref.self.node
    → get_usteer_node_from_bssid s br_cur.bssid ≢ none
    → reported_candidate s si_ref br_cur brs ≢ none
unfolding reported_candidate
reported_candidate_total s si_ref br_cur [] h k e = cc
reported_candidate_total s si_ref br_cur (br ∷ brs) h k e =
    elim (Option-cases (get_usteer_node_from_bssid s br.bssid)) [
      | inl q ↦ ground (arith, reported_candidate_total s si_ref br_cur brs h k)
      | inr (n, q) ↦ ground (
        arith,
        report_fits_total s si_ref br_cur br n h k q,
        reported_candidate_total s si_ref br_cur brs h k,
      )
    ]

reported_candidate-owner :
    (s : Store) (si_ref : StaInfo) (br_cur : BeaconReport) (brs : List BeaconReport)
    (br : BeaconReport) (n : Node)
    → All (λ b. HasEntry s b.address) brs
    → reported_candidate s si_ref br_cur brs ≡ some (some (br, n))
    → HasEntry s br.address
unfolding reported_candidate
reported_candidate-owner s si_ref br_cur [] br n h e = cc
reported_candidate-owner s si_ref br_cur (b ∷ brs) br n h e =
    let rest = reported_candidate-owner s si_ref br_cur brs br n h.1 in
    elim (Option-cases (get_usteer_node_from_bssid s b.bssid)) [
      | inl q ↦ ground (arith, rest)
      | inr (m, q) ↦ elim (Option-cases (report_fits s si_ref br_cur b m)) [
        | inl f ↦ ground arith
        | inr (true, f) ↦ let p : b ≡ br = ground arith in rw (← p) h.0
        | inr (false, f) ↦ ground (arith, rest)
      ]
    ]

hearing_map_candidate_total :
    (s : Store) (si_ref : StaInfo)
    → HasNode s si_ref.self.node
    → hearing_map_candidate s si_ref ≢ none
unfolding hearing_map_candidate
hearing_map_candidate_total s si_ref h e =
    elim (Option-cases (current_report s si_ref si_ref.beacon_reports)) [
      | inl q ↦ ground arith
      | inr (br, q) ↦ ground (
        arith,
        reported_candidate_total s si_ref br si_ref.beacon_reports h
            (current_report-node s si_ref si_ref.beacon_reports br q),
      )
    ]

hearing_map_candidate-owner :
    (s : Store) (si_ref : StaInfo) (br : BeaconReport) (n : Node)
    → All (λ b. HasEntry s b.address) si_ref.beacon_reports
    → hearing_map_candidate s si_ref ≡ some (some (br, n))
    → HasEntry s br.address
unfolding hearing_map_candidate
hearing_map_candidate-owner s si_ref br n h e =
    elim (Option-cases (current_report s si_ref si_ref.beacon_reports)) [
      | inl q ↦ ground arith
      | inr (cur, q) ↦
          reported_candidate-owner s si_ref cur si_ref.beacon_reports br n h (ground arith)
    ]

pub All-of_sta :
    (s : Store) (addr : ℕ) (xs : List StaInfo)
    → All (IsLinkedInfo s) xs
    → All (IsLinkedInfo s) (of_sta addr xs)
All-of_sta s addr [] h = tt
All-of_sta s addr (x ∷ xs) h = elim (Bool-cases (x.self.sta == addr)) [
  | inl e ↦ rw e (h.0, All-of_sta s addr xs h.1)
  | inr e ↦ rw e (All-of_sta s addr xs h.1)
]

-- Where no entry holds a dangling pointer, the search for a better node returns.
pub find_better_candidate_total :
    (s : Store) (si_ref : StaInfo)
    → IsLinked s
    → IsLinkedInfo s si_ref
    → find_better_candidate si_ref s ≢ none
unfolding find_better_candidate
find_better_candidate_total s si_ref h k e = elim (Option-cases (hearing_map_candidate s si_ref)) [
  | inl q ↦ hearing_map_candidate_total s si_ref k.0 q
  | inr (none, q) ↦
      ground (arith, seen_candidate_total s si_ref _ k.0 (All-of_sta s si_ref.self.sta s.infos h))
  | inr (some (br, n), q) ↦ ground (arith, hearing_map_candidate-owner s si_ref br n k.1 q)
]
