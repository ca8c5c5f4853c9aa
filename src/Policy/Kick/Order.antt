-- ===== src/Policy/Kick/Order.antt =====
-- When one client is dropped rather than another.
use usteer.Base.{
  ◌≡◌, ◌∙◌, ◌≤◌, ◌<ℤ◌, ◌⊎◌, inl, inr, refl, subst, Bool, true, false, Option, none, some, arith,
  Bool-cases, ◌&&◌,
}
use usteer.State.Station.{StaInfo}
use usteer.Policy.Kick.{is_more_kickable, pick}

-- The first has at most the kicks of the second, and less signal.
abbrev pub Beats : StaInfo → StaInfo → Type 0
Beats a b = (a.kick_count ≤ b.kick_count) × (a.signal <ℤ b.signal)

-- There is a choice, which the entry does not beat.
abbrev pub Unbeaten : Option StaInfo → StaInfo → Type 0
Unbeaten k si = (best : StaInfo) × (k ≡ some best) × ¬ Beats si best

-- There is a choice, which is the entry or beats it.
abbrev pub Replaces : Option StaInfo → StaInfo → Type 0
Replaces k si = (best : StaInfo) × (k ≡ some best) × ((best ≡ si) ⊎ Beats best si)

more_kickable_none : (si : StaInfo) → is_more_kickable none si ≡ true
unfolding is_more_kickable
more_kickable_none si = refl

-- What the code tests is whether the new entry beats the choice.
is_more_kickable-Beats : (k si : StaInfo) → is_more_kickable (some k) si ≡ true → Beats si k
unfolding is_more_kickable
is_more_kickable-Beats k si h = ground arith

is_more_kickable-not_Beats : (k si : StaInfo) → is_more_kickable (some k) si ≡ false → ¬ Beats si k
unfolding is_more_kickable
is_more_kickable-not_Beats k si h = ground arith

Beats-trans : (a b c : StaInfo) → Beats a b → Beats b c → Beats a c
Beats-trans a b c h k = ground arith

not_Beats-self : (a : StaInfo) → ¬ Beats a a
not_Beats-self a h = ground arith

-- The choice is kept, or replaced by an entry that beats it or is the first.
pick-cases :
    (ok : Bool) (k : Option StaInfo) (si : StaInfo)
    → (pick ok k si ≡ k)
      ⊎ ((pick ok k si ≡ some si) × ((best : StaInfo) → k ≡ some best → Beats si best))
unfolding pick
pick-cases ok k si = elim (Bool-cases (ok && is_more_kickable k si)) [
  | inl t ↦ rw t (inr (refl, λ best e. is_more_kickable-Beats best si (rw (← e) (ground arith))))
  | inr f ↦ rw f (inl refl)
]

-- A choice that an entry does not beat is only replaced by one that it does not beat either.
pub pick_keeps :
    (ok : Bool) (k : Option StaInfo) (si x : StaInfo) → Unbeaten k x → Unbeaten (pick ok k si) x
pick_keeps ok k si x (best, e, h) = elim (pick-cases ok k si) [
  | inl same ↦ (best, same ∙ e, h)
  | inr (new, b) ↦ (si, new, λ better. h (Beats-trans x si best better (b best e)))
]

-- An entry that was weighed does not beat the choice.
pub pick_self : (k : Option StaInfo) (si : StaInfo) → Unbeaten (pick true k si) si
unfolding pick
pick_self none si = rw (more_kickable_none si) (si, refl, not_Beats-self si)
pick_self (some k) si = elim (Bool-cases (is_more_kickable (some k) si)) [
  | inl t ↦ rw t (si, refl, not_Beats-self si)
  | inr f ↦ rw f (k, refl, is_more_kickable-not_Beats k si f)
]

-- A choice that is an entry or beats it is only replaced by one that beats it.
pub pick-Replaces :
    (ok : Bool) (k : Option StaInfo) (si x : StaInfo) → Replaces k x → Replaces (pick ok k si) x
pick-Replaces ok k si x (best, e, h) = elim (pick-cases ok k si) [
  | inl same ↦ (best, same ∙ e, h)
  | inr (new, b) ↦ (
    si,
    new,
    elim h [
      | inl p ↦ inr (subst (Beats si) p (b best e))
      | inr beats ↦ inr (Beats-trans si best x (b best e) beats)
    ],
  )
]

-- The first entry that may be kicked is chosen.
pub pick_first : (si : StaInfo) → Replaces (pick true none si) si
unfolding pick
pick_first si = rw (more_kickable_none si) (si, refl, inl refl)
