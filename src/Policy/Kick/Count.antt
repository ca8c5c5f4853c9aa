-- ===== src/Policy/Kick/Count.antt =====
-- How many clients one kick check of a node drops, and whom the load makes it drop.
use usteer.Base.{
  ℕ, suc, ◌+◌, ◌≤◌, ◌≡◌, inl, inr, refl, ap, Bool, List, [], ◌∷◌, Option, none, some, arith,
  Option-cases, ◌&&◌, ℤ, pos, ◌+ℤ◌, i32, is_some,
}
use usteer.State.Station.{Ref, StaInfo}
use usteer.State.Store.{Store, find_info, local_at, put_info}
use usteer.Policy.Candidate.{find_better_candidate}
use usteer.Policy.Admission.{snr_to_signal}
use usteer.Policy.Roam.{is_active_client, refs_of, usteer_local_node_roam_check}
use usteer.Policy.Roam.Kicks.{
  kicks, searched-kicks, put_info-kicks, kick_client-kicks, usteer_local_node_roam_check-kicks,
}
use usteer.Policy.Kick.{
  count_and_kick, snr_kick_each, usteer_local_node_snr_kick, choose_kick, Choice, weigh, pick,
  kick_chosen, put_thr_count, load_kick, usteer_local_node_kick,
}

pub count_and_kick-kicks :
    (si : StaInfo) (s : Store) → kicks (count_and_kick si s).sent ≡ suc (kicks s.sent)
unfolding count_and_kick
count_and_kick-kicks si s =
    let si' : StaInfo = record si { kick_count = si.kick_count + 1 } in
    omega (arith, kick_client-kicks si' (put_info si' s), put_info-kicks si' s)

snr_kick_each-kicks :
    (m : ℤ) (rs : List Ref) (s s' : Store)
    → snr_kick_each m rs s ≡ some s'
    → kicks s'.sent ≤ suc (kicks s.sent)
unfolding snr_kick_each
snr_kick_each-kicks m [] s s' h = ground arith
snr_kick_each-kicks m (r ∷ rs) s s' h =
    let rest = snr_kick_each-kicks m rs s s' in
    elim (Option-cases (find_info r s.infos)) [
      | inl e ↦ ground arith
      | inr (si, e) ↦ elim (Option-cases (is_active_client s.config si)) [
        | inl q ↦ ground (arith, rest)
        | inr (a, q) ↦ ground (arith, rest, count_and_kick-kicks si s)
      ]
    ]

usteer_local_node_snr_kick-kicks :
    (p : ℕ) (s s' : Store)
    → usteer_local_node_snr_kick p s ≡ some s'
    → kicks s'.sent ≤ suc (kicks s.sent)
unfolding usteer_local_node_snr_kick
usteer_local_node_snr_kick-kicks p s s' h = elim (Option-cases (local_at s p)) [
  | inl e ↦ ground arith
  | inr (ln, e) ↦
      ground
        (arith, snr_kick_each-kicks (snr_to_signal ln.node s.config.min_snr) (refs_of p s) s s')
]

put_thr_count-sent : (p : ℕ) (n : ℤ) (s : Store) → (put_thr_count p n s).sent ≡ s.sent
unfolding put_thr_count
put_thr_count-sent p n s = refl

weigh-kicks :
    (si : StaInfo) (s s' : Store) (ok : Bool) (tmp : Option StaInfo)
    → weigh si s ≡ some (ok, tmp, s')
    → kicks s'.sent ≡ kicks s.sent
unfolding weigh
weigh-kicks si s s' ok tmp h = elim (Option-cases (is_active_client s.config si)) [
  | inl e ↦ ground arith
  | inr (a, e) ↦ elim (Option-cases (find_better_candidate si s)) [
    | inl q ↦ ground arith
    | inr ((r, s1), q) ↦ ground (arith, searched-kicks s s1 si r q)
  ]
]

choose_kick-kicks :
    (k1 k2 : Option StaInfo) (rs : List Ref) (s : Store) (c : Choice)
    → choose_kick k1 k2 rs s ≡ some c
    → kicks c.store.sent ≡ kicks s.sent
unfolding choose_kick
choose_kick-kicks k1 k2 [] s c h = ground arith
choose_kick-kicks k1 k2 (r ∷ rs) s c h = elim (Option-cases (find_info r s.infos)) [
  | inl e ↦ ground arith
  | inr (si, e) ↦ elim (Option-cases (weigh si s)) [
    | inl q ↦ ground arith
    | inr ((ok, tmp, s1), q) ↦ ground (
      arith,
      weigh-kicks si s s1 ok tmp q,
      choose_kick-kicks (pick ok k1 si) (pick (ok && is_some tmp) k2 si) rs s1 c,
    )
  ]
]

kick_chosen-kicks :
    (k1 k2 : Option StaInfo) (s : Store) → kicks (kick_chosen k1 k2 s).sent ≤ suc (kicks s.sent)
unfolding kick_chosen
kick_chosen-kicks none k2 s = omega arith
kick_chosen-kicks (some x) none s = omega (arith, count_and_kick-kicks x s)
kick_chosen-kicks (some x) (some y) s = omega (arith, count_and_kick-kicks y s)

load_kick-kicks :
    (p : ℕ) (s s' : Store) → load_kick p s ≡ some s' → kicks s'.sent ≤ suc (kicks s.sent)
unfolding load_kick
load_kick-kicks p s s' h =
    let s0 = put_thr_count p (pos 0) s in
    let e0 = ap kicks (put_thr_count-sent p (pos 0) s) in
    elim (Option-cases (local_at s p)) [
      | inl e ↦ ground arith
      | inr (ln, e) ↦
          let counted = ap kicks (put_thr_count-sent p (i32 (ln.load_thr_count +ℤ pos 1)) s) in
          elim (Option-cases (choose_kick none none (refs_of p s) s0)) [
            | inl q ↦ ground (arith, e0, counted)
            | inr (c, q) ↦ ground (
              arith,
              e0,
              counted,
              choose_kick-kicks none none (refs_of p s) s0 c q,
              kick_chosen-kicks c.kick1 c.kick2 c.store,
            )
          ]
    ]

-- One kick check of a node that returns drops at most three clients.
pub usteer_local_node_kick-kicks :
    (p : ℕ) (s s' : Store) → usteer_local_node_kick p s ≡ some s' → kicks s'.sent ≤ 3 + kicks s.sent
unfolding usteer_local_node_kick
usteer_local_node_kick-kicks p s s' h = elim (Option-cases (usteer_local_node_roam_check p s)) [
  | inl e ↦ ground arith
  | inr (s1, e) ↦ elim (Option-cases (usteer_local_node_snr_kick p s1)) [
    | inl q ↦ ground arith
    | inr (s2, q) ↦ ground (
      arith,
      usteer_local_node_roam_check-kicks p s s1 e,
      usteer_local_node_snr_kick-kicks p s1 s2 q,
      load_kick-kicks p s2 s',
    )
  ]
]
