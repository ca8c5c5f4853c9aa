-- ===== src/Policy/Kick/Total.antt =====
-- The kick checks of a node that is there return.
use usteer.Base.{
  ℕ, ◌≡◌, ◌≢◌, ◌∙◌, ◌<◌, Bool, true, false, List, [], ◌∷◌, map, All, find?, Option, none, some,
  ◌==◌, ◌&&◌, is_some, arith, Option-cases, inl, inr, ℤ, pos,
}
use usteer.State.Config.{Config}
use usteer.State.Node.{LocalNode}
use usteer.State.Station.{Ref, ref_eq_iff, StaInfo, idle}
use usteer.State.Store.{Store, of_node, find_info, local_at, usteer_update_time}
use usteer.State.Store.Entries.{has_info, find_info-self, has_info-find_info}
use usteer.Sta.Info.Invariant.{IsSound}
use usteer.Sta.Info.Known.{find_info-IsOwn}
use usteer.Sta.Info.Nodes.{has_local}
use usteer.Policy.Kept.{Extends, IsLater, IsLater-refl, IsLater-IsKept}
use usteer.Policy.Candidate.Effect.{IsLinkedInfo, find_better_candidate_total}
use usteer.Policy.Candidate.Linked.{has_info-find, has_info-IsLinkedInfo, IsSound-IsLinked}
use usteer.Policy.Admission.{snr_to_signal}
use usteer.Policy.Roam.{
  usteer_get_client_active_bits, is_active_client, stays, usteer_roam_set_state,
  usteer_roam_trigger_sm, roam_each, refs_of, roam_check_at, usteer_local_node_roam_check,
}
use usteer.Policy.Roam.Kept.{
  usteer_roam_set_state_kept, usteer_roam_trigger_sm_kept, usteer_local_node_roam_check_kept,
}
use usteer.Policy.Roam.Total.{usteer_roam_trigger_sm_total}
use usteer.Policy.Kick.{
  snr_kick_each, usteer_local_node_snr_kick, weigh, pick, choose_kick, put_thr_count, kick_rounds,
  load_kick, usteer_local_node_kick,
}
use usteer.Policy.Kick.Kept.{put_thr_count_kept, weigh_kept, usteer_local_node_snr_kick_kept}

is_active_client_total :
    (c : Config) (si : StaInfo) → 0 < c.kick_client_active_sec → is_active_client c si ≢ none
unfolding is_active_client usteer_get_client_active_bits
is_active_client_total c si h e = ground arith

stays_total :
    (m : ℤ) (si : StaInfo) (s : Store) → 0 < s.config.kick_client_active_sec → stays m si s ≢ none
unfolding stays
stays_total m si s h e = ground (arith, is_active_client_total s.config si h)

-- The entries that a loop has still to come to.
abbrev Waiting : List Ref → Store → Type 0
Waiting rs s = All (λ r. has_info r s.infos ≡ true) rs

Extends-Waiting : (rs : List Ref) (s s' : Store) → Extends s s' → Waiting rs s → Waiting rs s'
Extends-Waiting [] s s' h k = tt
Extends-Waiting (r ∷ rs) s s' h k = (h.entries r k.0, Extends-Waiting rs s s' h k.1)

in_list-Waiting :
    (xs : List StaInfo) (s : Store)
    → ((q : Ref) → has_info q xs ≡ true → has_info q s.infos ≡ true)
    → Waiting (map (λ (si : StaInfo). si.self) xs) s
in_list-Waiting [] s h = tt
in_list-Waiting (x ∷ xs) s h = (
  h x.self (ground (arith, ref_eq_iff x.self x.self)),
  in_list-Waiting xs s (λ q e. h q (ground arith)),
)

of_node-there :
    (p : ℕ) (q : Ref) (xs : List StaInfo) → has_info q (of_node p xs) ≡ true → has_info q xs ≡ true
of_node-there p q [] h = absurd (ground arith)
of_node-there p q (x ∷ xs) h = ground (arith, of_node-there p q xs)

refs_of-Waiting : (p : ℕ) (s : Store) → Waiting (refs_of p s) s
refs_of-Waiting p s = in_list-Waiting (of_node p s.infos) s (λ q e. of_node-there p q s.infos e)

-- What is known of an entry that a loop comes to.
found_linked :
    {N : ℕ → Bool} (r : Ref) (si : StaInfo) (s : Store)
    → find_info r s.infos ≡ some si
    → IsSound N s
    → IsLinkedInfo s si
found_linked r si s e h =
    let there : has_info si.self s.infos ≡ true =
      rw (find_info-self r si s.infos e) (has_info-find_info r si s.infos e) in
    has_info-IsLinkedInfo s si there (find_info-IsOwn r si s.infos e h.owned) h

roam_each_total :
    {N : ℕ → Bool} (m : ℤ) (rs : List Ref) (s : Store)
    → 0 < s.config.kick_client_active_sec
    → Waiting rs s
    → IsSound N s
    → roam_each m rs s ≢ none
unfolding roam_each
roam_each_total m [] s c w h e = ground arith
roam_each_total {N} m (r ∷ rs) s c w h e = elim (Option-cases (find_info r s.infos)) [
  | inl q ↦ has_info-find r s.infos w.0 q
  | inr (si, q) ↦
      let own = find_info-IsOwn r si s.infos q h.owned in
      let kept = IsLater-IsKept N s in
      let at : IsLater N s s = IsLater-refl s h in
      elim (Option-cases (stays m si s)) [
        | inl t ↦ stays_total m si s c t
        | inr (true, t) ↦
            let s1 = usteer_roam_set_state si idle s in
            let k = usteer_roam_set_state_kept kept si idle s own at in
            roam_each_total m rs s1 (rw k.1.config c) (Extends-Waiting rs s s1 k.1 w.1) k.0
              (ground arith)
        | inr (false, t) ↦ elim (Option-cases (usteer_roam_trigger_sm si s)) [
          | inl u ↦
              usteer_roam_trigger_sm_total s si (IsSound-IsLinked s h) (found_linked r si s q h) u
          | inr ((true, s1), u) ↦ ground arith
          | inr ((false, s1), u) ↦
              let k = usteer_roam_trigger_sm_kept kept si s false s1 u own at in
              roam_each_total m rs s1 (rw k.1.config c) (Extends-Waiting rs s s1 k.1 w.1) k.0
                (ground arith)
        ]
      ]
]

has_local-find :
    (p : ℕ) (ls : List LocalNode)
    → has_local p ls ≡ true
    → find? (λ (l : LocalNode). l.node.ptr == p) ls ≢ none
has_local-find p [] h e = ground arith
has_local-find p (l ∷ ls) h e = ground (arith, has_local-find p ls)

roam_check_at_total :
    {N : ℕ → Bool} (p : ℕ) (snr : ℤ) (s : Store)
    → 0 < s.config.kick_client_active_sec
    → has_local p s.local_nodes ≡ true
    → IsSound N s
    → roam_check_at p snr s ≢ none
unfolding roam_check_at
roam_check_at_total p snr s c there h e = elim (Option-cases (local_at s p)) [
  | inl q ↦ has_local-find p s.local_nodes there q
  | inr (ln, q) ↦
      roam_each_total (snr_to_signal ln.node snr) (refs_of p s) s c (refs_of-Waiting p s) h
        (ground arith)
]

usteer_local_node_roam_check_total :
    {N : ℕ → Bool} (p : ℕ) (s : Store)
    → 0 < s.config.kick_client_active_sec
    → has_local p s.local_nodes ≡ true
    → IsSound N s
    → usteer_local_node_roam_check p s ≢ none
unfolding usteer_local_node_roam_check usteer_update_time
usteer_local_node_roam_check_total {N} p s c there h e =
    let now = usteer_update_time s in
    let k : IsSound N now = h in
    ground (
      arith,
      roam_check_at_total p s.config.roam_scan_snr now c there k,
      roam_check_at_total p s.config.roam_trigger_snr now c there k,
    )

snr_kick_each_total :
    (m : ℤ) (rs : List Ref) (s : Store)
    → 0 < s.config.kick_client_active_sec
    → Waiting rs s
    → snr_kick_each m rs s ≢ none
unfolding snr_kick_each
snr_kick_each_total m [] s c w e = ground arith
snr_kick_each_total m (r ∷ rs) s c w e = elim (Option-cases (find_info r s.infos)) [
  | inl q ↦ has_info-find r s.infos w.0 q
  | inr (si, q) ↦
      ground (arith, is_active_client_total s.config si c, snr_kick_each_total m rs s c w.1)
]

usteer_local_node_snr_kick_total :
    (p : ℕ) (s : Store)
    → 0 < s.config.kick_client_active_sec
    → has_local p s.local_nodes ≡ true
    → usteer_local_node_snr_kick p s ≢ none
unfolding usteer_local_node_snr_kick
usteer_local_node_snr_kick_total p s c there e = elim (Option-cases (local_at s p)) [
  | inl q ↦ has_local-find p s.local_nodes there q
  | inr (ln, q) ↦ ground (
    arith,
    snr_kick_each_total (snr_to_signal ln.node s.config.min_snr) (refs_of p s) s c
        (refs_of-Waiting p s),
  )
]

weigh_total :
    {N : ℕ → Bool} (r : Ref) (si : StaInfo) (s : Store)
    → 0 < s.config.kick_client_active_sec
    → find_info r s.infos ≡ some si
    → IsSound N s
    → weigh si s ≢ none
unfolding weigh
weigh_total r si s c q h e = ground (
  arith,
  is_active_client_total s.config si c,
  find_better_candidate_total s si (IsSound-IsLinked s h) (found_linked r si s q h),
)

choose_kick_total :
    {N : ℕ → Bool} (k1 k2 : Option StaInfo) (rs : List Ref) (s : Store)
    → 0 < s.config.kick_client_active_sec
    → Waiting rs s
    → IsSound N s
    → choose_kick k1 k2 rs s ≢ none
unfolding choose_kick
choose_kick_total k1 k2 [] s c w h e = ground arith
choose_kick_total {N} k1 k2 (r ∷ rs) s c w h e = elim (Option-cases (find_info r s.infos)) [
  | inl q ↦ has_info-find r s.infos w.0 q
  | inr (si, q) ↦ elim (Option-cases (weigh si s)) [
    | inl t ↦ weigh_total r si s c q h t
    | inr ((ok, tmp, s1), t) ↦
        let k = weigh_kept (IsLater-IsKept N s) si s s1 ok tmp t (IsLater-refl s h) in
        choose_kick_total (pick ok k1 si) (pick (ok && is_some tmp) k2 si) rs s1 (rw k.1.config c)
          (Extends-Waiting rs s s1 k.1 w.1) k.0 (ground arith)
  ]
]

load_kick_total :
    {N : ℕ → Bool} (p : ℕ) (s : Store)
    → 0 < s.config.kick_client_active_sec
    → 0 < s.config.local_sta_update
    → has_local p s.local_nodes ≡ true
    → IsSound N s
    → load_kick p s ≢ none
unfolding load_kick kick_rounds put_thr_count
load_kick_total {N} p s c d there h e = elim (Option-cases (local_at s p)) [
  | inl q ↦ has_local-find p s.local_nodes there q
  | inr (ln, q) ↦
      let s0 = put_thr_count p (pos 0) s in
      let k = put_thr_count_kept (IsLater-IsKept N s) p (pos 0) s (IsLater-refl s h) in
      ground (
        arith,
        choose_kick_total none none (refs_of p s) s0 (rw k.1.config c)
            (Extends-Waiting (refs_of p s) s s0 k.1 (refs_of-Waiting p s)) k.0,
      )
]

-- The kick checks of a node return under the invariant, unless a setting by which they divide is 0.
pub usteer_local_node_kick_total :
    {N : ℕ → Bool} (p : ℕ) (s : Store)
    → 0 < s.config.kick_client_active_sec
    → 0 < s.config.local_sta_update
    → has_local p s.local_nodes ≡ true
    → IsSound N s
    → usteer_local_node_kick p s ≢ none
unfolding usteer_local_node_kick
usteer_local_node_kick_total {N} p s c d there h e =
    elim (Option-cases (usteer_local_node_roam_check p s)) [
      | inl q ↦ usteer_local_node_roam_check_total p s c there h q
      | inr (s1, q) ↦
          let kept = IsLater-IsKept N s in
          let k1 = usteer_local_node_roam_check_kept kept p s s1 q (IsLater-refl s h) in
          let there1 = k1.1.nodes p ∙ there in
          elim (Option-cases (usteer_local_node_snr_kick p s1)) [
            | inl t ↦ usteer_local_node_snr_kick_total p s1 (rw k1.1.config c) there1 t
            | inr (s2, t) ↦
                let k2 = usteer_local_node_snr_kick_kept kept p s1 s2 t k1 in
                let there2 = k2.1.nodes p ∙ there in
                ground
                  (arith, load_kick_total p s2 (rw k2.1.config c) (rw k2.1.config d) there2 k2.0)
          ]
    ]
