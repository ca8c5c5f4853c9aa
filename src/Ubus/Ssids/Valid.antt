-- ===== src/Ubus/Ssids/Valid.antt =====
-- Which SSIDs are valid after a list was set, and what the list reads as.
use usteer.Base.{
  ◌≡◌, refl, ap, ◌∙◌, Bool, true, false, List, [], ◌∷◌, some, String, map, any, ◌||◌, ◌&&◌,
  truncate, truncate_lem, strlen, arith, ℕ, zero, suc, ◌≤◌, ltb, none, if◌then◌else◌, Bool-cases,
  inl, inr,
}
use mathlib.Core.List.{reverse, reverse_aux}
use usteer.State.Store.{Store}
use usteer.Ubus.Ssids.{
  same_name, valid_from, names_of, usteer_is_valid_ssid, add_each, config_set_ssid, config_get_ssid,
}

-- The loop is a search for the name.
valid_from-eq-any :
    (valid : Bool) (ssid : String) (u : String) (us : List String)
    → valid_from valid ssid (u ∷ us) ≡ any (λ v. same_name v ssid) (u ∷ us)
unfolding valid_from
valid_from-eq-any valid ssid u [] = ground arith
valid_from-eq-any valid ssid u (v ∷ us) = ground (arith, valid_from-eq-any false ssid v us)

any-add_each :
    (p : String → Bool) (names us : List String)
    → any p (add_each names us) ≡ (any (λ x. p (truncate 33 x)) names || any p us)
unfolding add_each
any-add_each p [] us = refl
any-add_each p (x ∷ names) us = ground (arith, any-add_each p names (truncate 33 x ∷ us))

abbrev pub is_nil : List String → Bool
is_nil [] = true
is_nil (_ ∷ _) = false

is_nil-add_each :
    (names us : List String) → is_nil (add_each names us) ≡ (is_nil names && is_nil us)
unfolding add_each
is_nil-add_each [] us = refl
is_nil-add_each (x ∷ names) us = is_nil-add_each names (truncate 33 x ∷ us) ∙ ground arith

valid_from-is_nil :
    (ssid : String) (us : List String)
    → valid_from true ssid us ≡ (is_nil us || any (λ v. same_name v ssid) us)
unfolding valid_from
valid_from-is_nil ssid [] = refl
valid_from-is_nil ssid (u ∷ us) = valid_from-eq-any true ssid u us

add_each-reverse_aux :
    (names us : List String) → add_each names us ≡ reverse_aux (map (λ x. truncate 33 x) names) us
unfolding add_each
add_each-reverse_aux [] us = refl
add_each-reverse_aux (x ∷ names) us = add_each-reverse_aux names (truncate 33 x ∷ us)

-- The name fits with its end.
abbrev pub fits : String → Bool
fits x = ltb (strlen x) 33

abbrev pub all_fit : List String → Bool
all_fit [] = true
all_fit (x ∷ xs) = fits x && all_fit xs

strlen-truncate : (n : ℕ) (x : String) → n ≤ strlen x → strlen (truncate n x) ≡ n
strlen-truncate zero x h = refl
strlen-truncate (suc n) String.[] h = absurd (omega arith)
strlen-truncate (suc n) (String.◌∷◌ c x) h = ap suc (strlen-truncate n x (omega arith))

fits-truncate : (x : String) → fits (truncate 33 x) ≡ fits x
fits-truncate x = elim (Bool-cases (fits x)) [
  | inl e ↦ rw (truncate_lem 33 x (ground arith)) refl
  | inr e ↦ rw (e, strlen-truncate 33 x (ground arith)) refl
]

names_of-none : (names us : List String) → names_of us ≡ none → names_of (add_each names us) ≡ none
unfolding add_each names_of
names_of-none [] us h = h
names_of-none (x ∷ names) us h = names_of-none names (truncate 33 x ∷ us) (rw h refl)

names_of-add_each :
    (names us vs : List String)
    → names_of us ≡ some vs
    → names_of (add_each names us) ≡ (if all_fit names then some (reverse_aux names vs) else none)
unfolding add_each names_of
names_of-add_each [] us vs h = h
names_of-add_each (x ∷ names) us vs h = elim (Bool-cases (fits x)) [
  | inl e ↦
      let cut = truncate_lem 33 x (ground arith) in
      rw (cut, e) (names_of-add_each names (x ∷ us) (x ∷ vs) (rw (h, e) refl))
  | inr e ↦ rw e (names_of-none names (truncate 33 x ∷ us) (rw (h, fits-truncate x, e) refl))
]

-- A list of SSIDs that was set is read back in reverse if each name has less than 33 bytes; with a
-- longer name, and before any list was set, the reading is a fault.
pub config_get_ssid-config_set_ssid :
    (names : List String) (s : Store)
    → (config_get_ssid (config_set_ssid (some names) s)
        ≡ (if all_fit names then some (reverse names) else none))
      × (config_get_ssid (record s { ssid_list = none }) ≡ none)
unfolding config_get_ssid config_set_ssid names_of
config_get_ssid-config_set_ssid names s = (names_of-add_each names [] [] refl, refl)

all_told : (names : List String) → all_fit names ≡ true → names_of names ≡ some names
unfolding names_of
all_told [] h = refl
all_told (x ∷ names) h =
    let fit : fits x ≡ true = ground arith in rw (all_told names (ground arith), fit) refl

map_cut : (names : List String) → all_fit names ≡ true → map (λ x. truncate 33 x) names ≡ names
map_cut [] h = refl
map_cut (x ∷ names) h = rw (map_cut names (ground arith), truncate_lem 33 x (ground arith)) refl

-- Names that fit are told as they are, and set in reverse.
pub told_names :
    (names : List String) (s : Store)
    → s.ssid_list ≡ some names
    → all_fit names ≡ true
    → config_get_ssid s ≡ some names
unfolding config_get_ssid
told_names names s e h = rw e (all_told names h)

pub set_ssid-config :
    (names : List String) (s : Store) → (config_set_ssid (some names) s).config ≡ s.config
unfolding config_set_ssid
set_ssid-config names s = refl

pub set_names :
    (names : List String) (s : Store)
    → all_fit names ≡ true
    → (config_set_ssid (some names) s).ssid_list ≡ some (reverse names)
unfolding config_set_ssid
set_names names s h =
    ap some (add_each-reverse_aux names [] ∙ ap (λ l. reverse_aux l []) (map_cut names h))

-- After a list of SSIDs is set, an SSID is valid exactly if the list is empty or has a name with
-- the same first 33 bytes.
pub config_set_ssid-usteer_is_valid_ssid :
    (names : List String) (ssid : String) (s : Store)
    → usteer_is_valid_ssid (config_set_ssid (some names) s) ssid
      ≡ (is_nil names || any (λ x. same_name (truncate 33 x) ssid) names)
unfolding usteer_is_valid_ssid config_set_ssid
config_set_ssid-usteer_is_valid_ssid names ssid s =
    valid_from-is_nil ssid (add_each names [])
    ∙ ground (arith, is_nil-add_each names [], any-add_each (λ v. same_name v ssid) names [])
