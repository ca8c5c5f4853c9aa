-- ===== src/Policy/Candidate/Search.antt =====
-- What the search for a better node finds, where the hearing map has no candidate.
use usteer.Base.{
  ◌≤◌, ◌≡◌, ◌≢◌, true, false, List, [], ◌∷◌, Option, none, some, arith, Bool-cases, Option-cases,
  sub64, eq_iff, inl, inr,
}
use usteer.State.Node.{Node}
use usteer.State.Station.{StaInfo}
use usteer.State.Store.{Store, node_at, of_sta}
use usteer.Policy.Candidate.{
  is_better_candidate, same_ssid, entry_fits, seen_candidate, hearing_map_candidate,
  find_better_candidate,
}

-- An entry for another node with the same SSID, heard recently, to which the client should move,
-- and from which it should not move back.
pub record IsCandidate (s : Store) (si_ref si : StaInfo) : Type 0 where
  pub node : Node
  pub ref_node : Node
  pub node_found : node_at s si.self.node ≡ some node
  pub ref_node_found : node_at s si_ref.self.node ≡ some ref_node
  pub elsewhere : si.self.node ≢ si_ref.self.node
  pub recent : sub64 s.current_time si.seen ≤ s.config.seen_policy_timeout
  pub same_network : node.ssid ≡ ref_node.ssid
  pub better : is_better_candidate s.config ref_node node si_ref si ≡ true
  pub not_back : is_better_candidate s.config node ref_node si si_ref ≡ false

-- The first element that has the property, if there is one.
pub data First {A : Type 0} (P : A → Type 0) : List A → Option A → Type 0 where
  nowhere : First P [] none
  here : {x : A} {xs : List A} → P x → First P (x ∷ xs) (some x)
  later : {x : A} {xs : List A} {r : Option A} → ¬ P x → First P xs r → First P (x ∷ xs) r

entry_fits-IsCandidate :
    (s : Store) (si_ref si : StaInfo) → entry_fits s si_ref si ≡ some true → IsCandidate s si_ref si
unfolding entry_fits same_ssid
entry_fits-IsCandidate s si_ref si h = elim (Option-cases (node_at s si.self.node)) [
  | inl e ↦ ground (arith)
  | inr (n, e) ↦ elim (Option-cases (node_at s si_ref.self.node)) [
    | inl e' ↦ ground (arith)
    | inr (m, e') ↦ record {
      node = n;
      ref_node = m;
      node_found = e;
      ref_node_found = e';
      elsewhere = ground (arith);
      recent = ground (arith);
      same_network = ground (arith, eq_iff n.ssid m.ssid);
      better = ground (arith);
      not_back = ground (arith);
    }
  ]
]

entry_fits-not_IsCandidate :
    (s : Store) (si_ref si : StaInfo)
    → entry_fits s si_ref si ≡ some false
    → ¬ IsCandidate s si_ref si
unfolding entry_fits same_ssid
entry_fits-not_IsCandidate s si_ref si h c = ground (arith, eq_iff c.node.ssid c.ref_node.ssid, c)

seen_candidate-First :
    (s : Store) (si_ref : StaInfo) (sis : List StaInfo) (r : Option StaInfo)
    → seen_candidate s si_ref sis ≡ some r
    → First (IsCandidate s si_ref) sis r
unfolding seen_candidate
seen_candidate-First s si_ref [] r h = let p : none ≡ r = ground arith in rw (← p) nowhere
seen_candidate-First s si_ref (si ∷ sis) r h = elim (Option-cases (entry_fits s si_ref si)) [
  | inl e ↦ ground arith
  | inr (b, e) ↦ elim (Bool-cases b) [
    | inl t ↦
        let p : some si ≡ r = ground arith in
        rw (← p) (here (entry_fits-IsCandidate s si_ref si (rw (← t) e)))
    | inr f ↦
        later (entry_fits-not_IsCandidate s si_ref si (rw (← f) e))
          (seen_candidate-First s si_ref sis r (ground arith))
  ]
]

-- Where the hearing map has no candidate and the search returns, it changes nothing and its result
-- is the first of the station's entries that is a candidate; there is none only if no entry is
-- one.
pub find_better_candidate-First :
    (s s' : Store) (si_ref : StaInfo) (r : Option StaInfo)
    → hearing_map_candidate s si_ref ≡ some none
    → find_better_candidate si_ref s ≡ some (r, s')
    → (s' ≡ s) × First (IsCandidate s si_ref) (of_sta si_ref.self.sta s.infos) r
unfolding find_better_candidate
find_better_candidate-First s s' si_ref r quiet h =
    elim (Option-cases (seen_candidate s si_ref (of_sta si_ref.self.sta s.infos))) [
      | inl e ↦ ground arith
      | inr (si, e) ↦
          let p : si ≡ r = ground arith in
          (ground arith, seen_candidate-First s si_ref _ r (rw (← p) e))
    ]

-- No two entries are each other's candidates.
pub IsCandidate-asymmetric : (s : Store) (a b : StaInfo) → IsCandidate s a b → ¬ IsCandidate s b a
IsCandidate-asymmetric s a b p q = ground (arith, p, q)
