-- ===== src/Policy/Kick/Selection.antt =====
-- Which client a loaded node drops.
use usteer.Base.{
  ◌≡◌, inl, inr, refl, sym, subst, Bool, true, false, List, [], ◌∷◌, Option, none, some, arith,
  Option-cases, Bool-cases, ◌&&◌, is_some, All,
}
use usteer.State.Config.{Config}
use usteer.State.Station.{Ref, StaInfo}
use usteer.State.Store.{Store, find_info}
use usteer.Policy.Kick.{is_more_kickable, Choice, weigh, pick, choose_kick}
use usteer.Policy.Kick.Order.{Unbeaten, Replaces, pick_keeps, pick_self, pick-Replaces, pick_first}
use usteer.Policy.Kick.Weighed.{IsKickable, Weighed, weigh-Weighed}

-- None of the entries that may be kicked beats the choice.
abbrev pub NoneBetter : Option StaInfo → Config → List StaInfo → List Ref → Type 0
NoneBetter k c infos rs =
    All (λ r. (si : StaInfo) → find_info r infos ≡ some si → IsKickable c si → Unbeaten k si) rs

-- The choice is the first of the entries that may be kicked, or beats it.
abbrev pub FirstReplaced : Option StaInfo → Config → List StaInfo → List Ref → Type 0
FirstReplaced k c infos [] = Unit {0}
FirstReplaced k c infos (r ∷ rs) =
    (si : StaInfo)
    → find_info r infos ≡ some si
    → (IsKickable c si → Replaces k si) × (¬ IsKickable c si → FirstReplaced k c infos rs)

choose_kick_keeps :
    (k1 k2 : Option StaInfo) (rs : List Ref) (s : Store) (c : Choice) (x : StaInfo)
    → choose_kick k1 k2 rs s ≡ some c
    → Unbeaten k1 x
    → Unbeaten c.kick1 x
unfolding choose_kick
choose_kick_keeps k1 k2 [] s c x h f =
    let e : k1 ≡ c.kick1 = ground arith in subst (λ k. Unbeaten k x) e f
choose_kick_keeps k1 k2 (r ∷ rs) s c x h f = elim (Option-cases (find_info r s.infos)) [
  | inl e ↦ absurd (ground arith)
  | inr (si, e) ↦ elim (Option-cases (weigh si s)) [
    | inl q ↦ absurd (ground arith)
    | inr ((ok, tmp, s1), q) ↦
        choose_kick_keeps (pick ok k1 si) (pick (ok && is_some tmp) k2 si) rs s1 c x (ground arith)
          (pick_keeps ok k1 si x f)
  ]
]

choose_kick-Replaces :
    (k1 k2 : Option StaInfo) (rs : List Ref) (s : Store) (c : Choice) (x : StaInfo)
    → choose_kick k1 k2 rs s ≡ some c
    → Replaces k1 x
    → Replaces c.kick1 x
unfolding choose_kick
choose_kick-Replaces k1 k2 [] s c x h f =
    let e : k1 ≡ c.kick1 = ground arith in subst (λ k. Replaces k x) e f
choose_kick-Replaces k1 k2 (r ∷ rs) s c x h f = elim (Option-cases (find_info r s.infos)) [
  | inl e ↦ absurd (ground arith)
  | inr (si, e) ↦ elim (Option-cases (weigh si s)) [
    | inl q ↦ absurd (ground arith)
    | inr ((ok, tmp, s1), q) ↦
        choose_kick-Replaces (pick ok k1 si) (pick (ok && is_some tmp) k2 si) rs s1 c x
          (ground arith) (pick-Replaces ok k1 si x f)
  ]
]

-- An entry that the loop comes to does not beat the choice, if it may be kicked at all.
step_NoneBetter :
    (k1 : Option StaInfo) (si x : StaInfo) (s s1 : Store) (ok : Bool)
    → Weighed s s1 si ok
    → si ≡ x
    → IsKickable s.config x
    → Unbeaten (pick ok k1 si) x
step_NoneBetter k1 si x s s1 true w e h = rw (← e) (pick_self k1 si)
step_NoneBetter k1 si x s s1 false w e h = absurd (w.not_kickable refl (rw e h))

NoneBetter-earlier :
    (k : Option StaInfo) (s s1 : Store) (si : StaInfo) (ok : Bool) (rs : List Ref)
    → Weighed s s1 si ok
    → NoneBetter k s1.config s1.infos rs
    → NoneBetter k s.config s.infos rs
NoneBetter-earlier k s s1 si ok [] w h = tt
NoneBetter-earlier k s s1 si ok (r ∷ rs) w h =
    ((λ x f g. h.0 x (w.kept r x f) (rw w.same_config g)), NoneBetter-earlier k s s1 si ok rs w h.1)

-- Of the clients that may be kicked, none beats the one that the loop leaves in `kick1`.
pub choose_kick-NoneBetter :
    (k1 k2 : Option StaInfo) (rs : List Ref) (s : Store) (c : Choice)
    → choose_kick k1 k2 rs s ≡ some c
    → NoneBetter c.kick1 s.config s.infos rs
unfolding choose_kick
choose_kick-NoneBetter k1 k2 [] s c h = tt
choose_kick-NoneBetter k1 k2 (r ∷ rs) s c h = elim (Option-cases (find_info r s.infos)) [
  | inl e ↦ absurd (ground arith)
  | inr (si, e) ↦ elim (Option-cases (weigh si s)) [
    | inl q ↦ absurd (ground arith)
    | inr ((ok, tmp, s1), q) ↦
        let w = weigh-Weighed si s s1 ok tmp q in
        let k1' = pick ok k1 si in
        let k2' = pick (ok && is_some tmp) k2 si in
        let rest : choose_kick k1' k2' rs s1 ≡ some c = ground arith in
        (
          (λ x f g.
              choose_kick_keeps k1' k2' rs s1 c x rest
                (step_NoneBetter k1 si x s s1 ok w (ground arith) g)),
          NoneBetter-earlier c.kick1 s s1 si ok rs w (choose_kick-NoneBetter k1' k2' rs s1 c rest),
        )
  ]
]

FirstReplaced-earlier :
    (k : Option StaInfo) (s s1 : Store) (si : StaInfo) (ok : Bool) (rs : List Ref)
    → Weighed s s1 si ok
    → FirstReplaced k s1.config s1.infos rs
    → FirstReplaced k s.config s.infos rs
FirstReplaced-earlier k s s1 si ok [] w h = tt
FirstReplaced-earlier k s s1 si ok (r ∷ rs) w h = λ x f.
    let (first, later) = h x (w.kept r x f) in
    (
      (λ g. first (rw w.same_config g)),
      (λ g. FirstReplaced-earlier k s s1 si ok rs w (later (rw w.same_config g))),
    )

pick_not_kickable : (k : Option StaInfo) (si : StaInfo) → pick false k si ≡ k
unfolding pick
pick_not_kickable k si = refl

-- Of the clients that may be kicked, the first is the choice, or the choice beats it.
choose_kick-FirstReplaced :
    (k2 : Option StaInfo) (rs : List Ref) (s : Store) (c : Choice)
    → choose_kick none k2 rs s ≡ some c
    → FirstReplaced c.kick1 s.config s.infos rs
unfolding choose_kick
choose_kick-FirstReplaced k2 [] s c h = tt
choose_kick-FirstReplaced k2 (r ∷ rs) s c h = λ x f. elim (Option-cases (weigh x s)) [
  | inl q ↦ absurd (ground arith)
  | inr ((true, tmp, s1), q) ↦
      let w = weigh-Weighed x s s1 true tmp q in
      let rest : choose_kick (pick true none x) (pick (is_some tmp) k2 x) rs s1 ≡ some c =
        ground arith in
      (
        (λ g.
            choose_kick-Replaces (pick true none x) (pick (is_some tmp) k2 x) rs s1 c x rest
              (pick_first x)),
        (λ g. absurd (g (w.kickable refl))),
      )
  | inr ((false, tmp, s1), q) ↦
      let w = weigh-Weighed x s s1 false tmp q in
      let rest : choose_kick none (pick false k2 x) rs s1 ≡ some c =
        ground (arith, pick_not_kickable none x) in
      (
        (λ g. absurd (w.not_kickable refl g)),
        (λ g.
            FirstReplaced-earlier c.kick1 s s1 x false rs w
              (choose_kick-FirstReplaced (pick false k2 x) rs s1 c rest)),
      )
]

abbrev pub Chosen : Config → Option StaInfo → Type 0
Chosen c none = Unit {0}
Chosen c (some si) = IsKickable c si

pick-Chosen :
    (c : Config) (ok : Bool) (k : Option StaInfo) (si : StaInfo)
    → Chosen c k
    → (ok ≡ true → IsKickable c si)
    → Chosen c (pick ok k si)
unfolding pick
pick-Chosen c ok k si h g = elim (Bool-cases (ok && is_more_kickable k si)) [
  | inl t ↦ rw t (g (ground arith))
  | inr f ↦ rw f h
]

-- Only a client that may be kicked is chosen, with or without a better candidate.
pub choose_kick-Chosen :
    (k1 k2 : Option StaInfo) (rs : List Ref) (s : Store) (c : Choice)
    → choose_kick k1 k2 rs s ≡ some c
    → Chosen s.config k1
    → Chosen s.config k2
    → Chosen s.config c.kick1 × Chosen s.config c.kick2
unfolding choose_kick
choose_kick-Chosen k1 k2 [] s c h f g =
    let e1 : k1 ≡ c.kick1 = ground arith in
    let e2 : k2 ≡ c.kick2 = ground arith in
    (subst (Chosen s.config) e1 f, subst (Chosen s.config) e2 g)
choose_kick-Chosen k1 k2 (r ∷ rs) s c h f g = elim (Option-cases (find_info r s.infos)) [
  | inl e ↦ absurd (ground arith)
  | inr (si, e) ↦ elim (Option-cases (weigh si s)) [
    | inl q ↦ absurd (ground arith)
    | inr ((ok, tmp, s1), q) ↦
        let w = weigh-Weighed si s s1 ok tmp q in
        let k1' = pick ok k1 si in
        let k2' = pick (ok && is_some tmp) k2 si in
        let rest : choose_kick k1' k2' rs s1 ≡ some c = ground arith in
        let at : s1.config ≡ s.config = w.same_config in
        let p1 = pick-Chosen s.config ok k1 si f w.kickable in
        let p2 =
          pick-Chosen s.config (ok && is_some tmp) k2 si g (λ t. w.kickable (ground arith)) in
        subst (λ d. Chosen d c.kick1 × Chosen d c.kick2) at
          (choose_kick-Chosen k1' k2' rs s1 c rest (subst (λ d. Chosen d k1') (sym at) p1)
            (subst (λ d. Chosen d k2') (sym at) p2))
  ]
]

-- Where the loop over a node's clients returns, the clients that it chooses are connected and
-- transfer less than the configured rate. If there is such a client, kick1 is the first of them or
-- has at most its kick_count and less signal, and none of them has at most the kick_count of kick1
-- and less signal.
pub choose_kick_lem :
    (rs : List Ref) (s : Store) (c : Choice)
    → choose_kick none none rs s ≡ some c
    → Chosen s.config c.kick1
      × Chosen s.config c.kick2
      × NoneBetter c.kick1 s.config s.infos rs
      × FirstReplaced c.kick1 s.config s.infos rs
choose_kick_lem rs s c h =
    let chosen = choose_kick-Chosen none none rs s c h tt tt in
    (
      chosen.0,
      chosen.1,
      choose_kick-NoneBetter none none rs s c h,
      choose_kick-FirstReplaced none rs s c h,
    )
