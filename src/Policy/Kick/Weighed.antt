-- ===== src/Policy/Kick/Weighed.antt =====
-- Which clients a loaded node may drop.
use usteer.Base.{
  ℕ, ◌+◌, ◌*◌, ◌/◌, ◌<◌, leb, u64, sub64, ◌≡◌, ◌∙◌, ◌≢◌, inl, inr, refl, sym, ap, Bool, true, false,
  Option, none, some, arith, Option-cases, Bool-cases, ◌==◌,
}
use usteer.State.Config.{Config}
use usteer.State.Station.{Ref, StaInfo}
use usteer.State.Store.{Store, find_info}
use usteer.Policy.Candidate.{find_better_candidate}
use usteer.Policy.Candidate.Effect.{
  SearchEffect-keeps, SearchEffect-rest, find_better_candidate-SearchEffect,
}
use usteer.Policy.Roam.{is_active_client, usteer_get_client_active_bits}
use usteer.Policy.Kick.{weigh}

-- The bytes of both directions since the last count, whose counters wrap at 64 bits.
abbrev pub transferred : StaInfo → ℕ
transferred si = let b = si.active_bytes in u64 (sub64 b.new_rx b.old_rx + sub64 b.new_tx b.old_tx)

abbrev rate : Config → StaInfo → ℕ
rate c si = u64 (transferred si / c.kick_client_active_sec * 8)

-- A client that transfers less than the configured rate, in bits per second.
abbrev pub IsInactive : Config → StaInfo → Type 0
IsInactive c si = (c.kick_client_active_sec ≢ 0) × (rate c si < c.kick_client_active_bits)

abbrev pub IsKickable : Config → StaInfo → Type 0
IsKickable c si = (si.connected ≢ 0) × IsInactive c si

no_period :
    (c : Config) (si : StaInfo)
    → (c.kick_client_active_sec == 0) ≡ true
    → is_active_client c si ≡ none
unfolding is_active_client usteer_get_client_active_bits
no_period c si e = rw e refl

active_by_rate :
    (c : Config) (si : StaInfo)
    → (c.kick_client_active_sec == 0) ≡ false
    → is_active_client c si ≡ some (leb c.kick_client_active_bits (rate c si))
unfolding is_active_client usteer_get_client_active_bits
active_by_rate c si e = rw e refl

is_active_client-IsInactive :
    (c : Config) (si : StaInfo) → is_active_client c si ≡ some false → IsInactive c si
is_active_client-IsInactive c si h = elim (Bool-cases (c.kick_client_active_sec == 0)) [
  | inl e ↦ absurd (ground (arith, no_period c si e))
  | inr e ↦
      let p : some (leb c.kick_client_active_bits (rate c si)) ≡ some false =
        sym (active_by_rate c si e) ∙ h in
      (ground arith, ground arith)
]

is_active_client-not_IsInactive :
    (c : Config) (si : StaInfo) → is_active_client c si ≡ some true → ¬ IsInactive c si
is_active_client-not_IsInactive c si h (sec, slow) =
    let p : some (leb c.kick_client_active_bits (rate c si)) ≡ some true =
      sym (active_by_rate c si (ground arith)) ∙ h in
    ground arith

pub record Weighed (s s' : Store) (si : StaInfo) (ok : Bool) : Type 0 where
  pub kickable : ok ≡ true → IsKickable s.config si
  pub not_kickable : ok ≡ false → ¬ IsKickable s.config si
  pub same_config : s'.config ≡ s.config
  pub kept : (q : Ref) (x : StaInfo) → find_info q s.infos ≡ some x → find_info q s'.infos ≡ some x

passed_over :
    (s s' : Store) (si : StaInfo) (ok : Bool)
    → s' ≡ s
    → ok ≡ false
    → ¬ IsKickable s.config si
    → Weighed s s' si ok
passed_over s s' si ok e f h = record {
  kickable = λ t. absurd (ground arith);
  not_kickable = λ _. h;
  same_config = ap (λ (t : Store). t.config) e;
  kept = λ q x g. rw e g;
}

considered :
    (s s' : Store) (si : StaInfo) (ok : Bool) (r : Option StaInfo)
    → find_better_candidate si s ≡ some (r, s')
    → ok ≡ true
    → IsKickable s.config si
    → Weighed s s' si ok
considered s s' si ok r e t h =
    let effect = find_better_candidate-SearchEffect s s' si r e in
    record {
      kickable = λ _. h;
      not_kickable = λ f. absurd (ground arith);
      same_config = ap (λ (t : Store). t.config) (SearchEffect-rest s s' r effect);
      kept = λ q x g. SearchEffect-keeps s s' r q x effect g;
    }

pub weigh-Weighed :
    (si : StaInfo) (s s' : Store) (ok : Bool) (tmp : Option StaInfo)
    → weigh si s ≡ some (ok, tmp, s')
    → Weighed s s' si ok
unfolding weigh
weigh-Weighed si s s' ok tmp h = elim (Bool-cases (si.connected == 0)) [
  | inl z ↦ passed_over s s' si ok (ground arith) (ground arith) (ground arith)
  | inr z ↦ elim (Option-cases (is_active_client s.config si)) [
    | inl e ↦ absurd (ground arith)
    | inr (true, e) ↦
        passed_over s s' si ok (ground arith) (ground arith)
          (λ k. is_active_client-not_IsInactive s.config si e k.1)
    | inr (false, e) ↦ elim (Option-cases (find_better_candidate si s)) [
      | inl q ↦ absurd (ground arith)
      | inr ((r, s1), q) ↦
          considered s s' si ok r (ground arith) (ground arith)
            (ground arith, is_active_client-IsInactive s.config si e)
    ]
  ]
]
