-- ===== src/Policy/Kick/Kept.antt =====
-- The kick checks keep what each of their writes keeps.
use usteer.Base.{
  ℕ, ◌≡◌, subst, refl, map, true, false, Bool, List, [], ◌∷◌, Option, none, some, arith,
  Option-cases, Bool-cases, ◌⊎◌, inl, inr, ◌&&◌, is_some, ℤ, pos, ◌+ℤ◌, i32,
}
use usteer.State.Node.{LocalNode}
use usteer.State.Station.{Ref, StaInfo}
use usteer.State.Store.{Store, find_info, local_at, put_info}
use usteer.Sta.Info.Invariant.{IsOwn}
use usteer.Policy.Kept.{IsKept}
use usteer.Sta.Info.Nodes.{has_local}
use usteer.Ubus.Clients.Kept.{usteer_ubus_kick_client_kept}
use usteer.Policy.Candidate.{find_better_candidate}
use usteer.Policy.Admission.{snr_to_signal}
use usteer.Policy.Roam.{refs_of, usteer_local_node_roam_check}
use usteer.Policy.Roam.Kept.{usteer_local_node_roam_check_kept}
use usteer.Policy.Kick.{
  count_and_kick, snr_kick_each, usteer_local_node_snr_kick, weigh, pick, Choice, choose_kick,
  is_more_kickable, kick_chosen, set_count, put_thr_count, load_kick, usteer_local_node_kick,
}

module _ {P : Store → Type 0} (kept : IsKept P) where
  count_and_kick_kept : (si : StaInfo) (s : Store) → IsOwn si → P s → P (count_and_kick si s)
  unfolding count_and_kick
  count_and_kick_kept si s own h =
      usteer_ubus_kick_client_kept kept _ (put_info _ s) own (kept.put _ s own h)

  snr_kick_each_kept :
      (m : ℤ) (rs : List Ref) (s s' : Store) → snr_kick_each m rs s ≡ some s' → P s → P s'
  unfolding snr_kick_each
  snr_kick_each_kept m [] s s' e h = let p : s ≡ s' = ground arith in subst P p h
  snr_kick_each_kept m (r ∷ rs) s s' e h = elim (Option-cases (find_info r s.infos)) [
    | inl q ↦ absurd (ground arith)
    | inr (si, q) ↦
        let end : (snr_kick_each m rs s ≡ some s') ⊎ (count_and_kick si s ≡ s') = ground arith in
        elim end [
          | inl p ↦ snr_kick_each_kept m rs s s' p h
          | inr p ↦ subst P p (count_and_kick_kept si s (kept.own r si s q h) h)
        ]
  ]

  pub usteer_local_node_snr_kick_kept :
      (p : ℕ) (s s' : Store) → usteer_local_node_snr_kick p s ≡ some s' → P s → P s'
  unfolding usteer_local_node_snr_kick
  usteer_local_node_snr_kick_kept p s s' e h = elim (Option-cases (local_at s p)) [
    | inl q ↦ let p : s ≡ s' = ground arith in subst P p h
    | inr (ln, q) ↦
        let m = snr_to_signal ln.node s.config.min_snr in
        let end : (s ≡ s') ⊎ (snr_kick_each m (refs_of p s) s ≡ some s') = ground arith in
        elim end [ inl t ↦ subst P t h | inr t ↦ snr_kick_each_kept m (refs_of p s) s s' t h ]
  ]

  pub weigh_kept :
      (si : StaInfo) (s s' : Store) (ok : Bool) (tmp : Option StaInfo)
      → weigh si s ≡ some (ok, tmp, s')
      → P s
      → P s'
  unfolding weigh
  weigh_kept si s s' ok tmp e h = elim (Option-cases (find_better_candidate si s)) [
    | inl q ↦ let p : s ≡ s' = ground arith in subst P p h
    | inr ((r, s1), q) ↦
        let end : (s ≡ s') ⊎ (s1 ≡ s') = ground arith in
        elim end [ inl p ↦ subst P p h | inr p ↦ subst P p (kept.searched si s s1 r q h) ]
  ]

  abbrev IsOwnOption : Option StaInfo → Type 0
  IsOwnOption none = Unit
  IsOwnOption (some si) = IsOwn si

  pick-IsOwn :
      (take : Bool) (k : Option StaInfo) (si : StaInfo)
      → IsOwnOption k
      → IsOwn si
      → IsOwnOption (pick take k si)
  unfolding pick
  pick-IsOwn true k si o h = elim (Bool-cases (is_more_kickable k si)) [
    | inl e ↦ rw e h
    | inr e ↦ rw e o
  ]
  pick-IsOwn false k si o h = o

  choose_kick_kept :
      (k1 k2 : Option StaInfo) (rs : List Ref) (s : Store) (c : Choice)
      → choose_kick k1 k2 rs s ≡ some c
      → IsOwnOption k1
      → IsOwnOption k2
      → P s
      → IsOwnOption c.kick1 × IsOwnOption c.kick2 × P c.store
  unfolding choose_kick
  choose_kick_kept k1 k2 [] s c e o1 o2 h =
      let p : record { kick1 = k1; kick2 = k2; store = s } ≡ c = ground arith in
      subst (λ (c : Choice). IsOwnOption c.kick1 × IsOwnOption c.kick2 × P c.store) p (o1, o2, h)
  choose_kick_kept k1 k2 (r ∷ rs) s c e o1 o2 h = elim (Option-cases (find_info r s.infos)) [
    | inl q ↦ absurd (ground arith)
    | inr (si, q) ↦ elim (Option-cases (weigh si s)) [
      | inl t ↦ absurd (ground arith)
      | inr ((ok, tmp, s1), t) ↦
          let own = kept.own r si s q h in
          choose_kick_kept (pick ok k1 si) (pick (ok && is_some tmp) k2 si) rs s1 c (ground arith)
            (pick-IsOwn ok k1 si o1 own) (pick-IsOwn (ok && is_some tmp) k2 si o2 own)
            (weigh_kept si s s1 ok tmp t h)
    ]
  ]

  kick_chosen_kept :
      (k1 k2 : Option StaInfo) (s : Store)
      → IsOwnOption k1
      → IsOwnOption k2
      → P s
      → P (kick_chosen k1 k2 s)
  unfolding kick_chosen
  kick_chosen_kept none k2 s o1 o2 h = h
  kick_chosen_kept (some si) none s o1 o2 h = count_and_kick_kept si s o1 h
  kick_chosen_kept (some x) (some si) s o1 o2 h = count_and_kick_kept si s o2 h

  set_count-has_local :
      (p q : ℕ) (n : ℤ) (ls : List LocalNode)
      → has_local q (map (set_count p n) ls) ≡ has_local q ls
  unfolding set_count
  set_count-has_local p q n [] = refl
  set_count-has_local p q n (l ∷ ls) = ground (arith, set_count-has_local p q n ls)

  pub put_thr_count_kept : (p : ℕ) (n : ℤ) (s : Store) → P s → P (put_thr_count p n s)
  unfolding put_thr_count
  put_thr_count_kept p n s h = kept.locals _ s (λ q. set_count-has_local p q n s.local_nodes) h

  load_kick_kept : (p : ℕ) (s s' : Store) → load_kick p s ≡ some s' → P s → P s'
  unfolding load_kick
  load_kick_kept p s s' e h = elim (Option-cases (local_at s p)) [
    | inl q ↦ absurd (ground arith)
    | inr (ln, q) ↦
        let count = i32 (ln.load_thr_count +ℤ pos 1) in
        let s0 = put_thr_count p (pos 0) s in
        let k0 = put_thr_count_kept p (pos 0) s h in
        elim (Option-cases (choose_kick none none (refs_of p s) s0)) [
          | inl t ↦
              let end : (s0 ≡ s') ⊎ (put_thr_count p count s ≡ s') = ground arith in
              elim end [ inl u ↦ subst P u k0 | inr u ↦ subst P u (put_thr_count_kept p count s h) ]
          | inr (c, t) ↦
              let end : (s0 ≡ s')
                  ⊎ (put_thr_count p count s ≡ s')
                  ⊎ (kick_chosen c.kick1 c.kick2 c.store ≡ s') =
                ground arith in
              elim end [
                | inl u ↦ subst P u k0
                | inr (inl u) ↦ subst P u (put_thr_count_kept p count s h)
                | inr (inr u) ↦
                    let (o1, o2, k) = choose_kick_kept none none (refs_of p s) s0 c t tt tt k0 in
                    subst P u (kick_chosen_kept c.kick1 c.kick2 c.store o1 o2 k)
              ]
        ]
  ]

  pub usteer_local_node_kick_kept :
      (p : ℕ) (s s' : Store) → usteer_local_node_kick p s ≡ some s' → P s → P s'
  unfolding usteer_local_node_kick
  usteer_local_node_kick_kept p s s' e h = elim (Option-cases (usteer_local_node_roam_check p s)) [
    | inl q ↦ absurd (ground arith)
    | inr (s1, q) ↦ elim (Option-cases (usteer_local_node_snr_kick p s1)) [
      | inl t ↦ absurd (ground arith)
      | inr (s2, t) ↦
          let k1 = usteer_local_node_roam_check_kept kept p s s1 q h in
          let k2 = usteer_local_node_snr_kick_kept p s1 s2 t k1 in
          let end : (s2 ≡ s') ⊎ (load_kick p s2 ≡ some s') = ground arith in
          elim end [ inl u ↦ subst P u k2 | inr u ↦ load_kick_kept p s2 s' u k2 ]
    ]
  ]
