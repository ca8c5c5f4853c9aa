-- ===== src/State/Store/Entries.antt =====
-- Reading an entry after a write to it or to another.
use usteer.Base.{
  ℕ, any, false, ◌∙◌, ◌≡◌, refl, Bool, true, List, [], ◌∷◌, Option, none, some, if◌then◌else◌,
  arith, ◌≢◌, inl, inr, Bool-cases,
}
use usteer.State.Node.{Node}
use usteer.State.Station.{Ref, ref_eq, ref_eq_iff, StaInfo}
use usteer.State.Store.{Store, find_info, replace, put_info, update_node, usteer_update_time}

abbrev pub instead : StaInfo → Option StaInfo → Option StaInfo
instead si none = none
instead si (some x) = some si

find_info-replace :
    (r : Ref) (si : StaInfo) (xs : List StaInfo)
    → find_info r (replace si xs)
      ≡ (if ref_eq si.self r then instead si (find_info r xs) else find_info r xs)
unfolding replace
find_info-replace r si [] = ground arith
find_info-replace r si (x ∷ xs) = ground (arith, find_info-replace r si xs)

pub find_info-put_info :
    (r : Ref) (si : StaInfo) (s : Store)
    → find_info r (put_info si s).infos
      ≡ (if ref_eq si.self r then instead si (find_info r s.infos) else find_info r s.infos)
unfolding put_info
find_info-put_info r si s = find_info-replace r si s.infos

-- A write to an entry that is there is read back.
pub find_info-put_info_self :
    (q : Ref) (si x : StaInfo) (s : Store)
    → find_info q s.infos ≡ some x
    → si.self ≡ q
    → find_info q (put_info si s).infos ≡ some si
find_info-put_info_self q si x s f e =
    ground (arith, find_info-put_info q si s, ref_eq_iff si.self q)

-- Other entries stay.
pub find_info-put_info_ne :
    (q : Ref) (si : StaInfo) (s : Store)
    → si.self ≢ q
    → find_info q (put_info si s).infos ≡ find_info q s.infos
find_info-put_info_ne q si s e = ground (arith, find_info-put_info q si s, ref_eq_iff si.self q)

-- A write adds and removes no entry.
pub find_info-put_info-some :
    (q : Ref) (si x : StaInfo) (s : Store)
    → find_info q s.infos ≡ some x
    → (y : StaInfo) × (find_info q (put_info si s).infos ≡ some y)
find_info-put_info-some q si x s f = elim (Bool-cases (ref_eq si.self q)) [
  | inl e ↦ (si, ground (arith, find_info-put_info q si s))
  | inr e ↦ (x, ground (arith, find_info-put_info q si s))
]

-- A write to an entry leaves all else.
pub put_info-rest :
    (si : StaInfo) (s : Store) → put_info si s ≡ record s { infos = (put_info si s).infos }
unfolding put_info
put_info-rest si s = refl

pub usteer_update_time-rest :
    (s : Store)
    → usteer_update_time s ≡ record s { current_time = (usteer_update_time s).current_time }
unfolding usteer_update_time
usteer_update_time-rest s = refl

any-replace :
    (p : Ref → Bool) (si : StaInfo) (xs : List StaInfo)
    → any (λ x. p x.self) (replace si xs) ≡ any (λ x. p x.self) xs
unfolding replace
any-replace p si [] = refl
any-replace p si (x ∷ xs) = elim (Bool-cases (ref_eq x.self si.self)) [
  | inl e ↦ let q : x.self ≡ si.self = (ref_eq_iff x.self si.self).0 e in rw (e, q)
  | inr e ↦ rw (e, any-replace p si xs)
]

-- A write to an entry keeps the keys.
pub any-put_info :
    (p : Ref → Bool) (si : StaInfo) (s : Store)
    → any (λ x. p x.self) (put_info si s).infos ≡ any (λ x. p x.self) s.infos
unfolding put_info
any-put_info p si s = any-replace p si s.infos

abbrev pub has_info : Ref → List StaInfo → Bool
has_info q = any (λ si. ref_eq si.self q)

abbrev pub HasUniqueKeys : List StaInfo → Type 0
HasUniqueKeys [] = Unit {0}
HasUniqueKeys (x ∷ xs) = (has_info x.self xs ≡ false) × HasUniqueKeys xs

replace-HasUniqueKeys :
    (si : StaInfo) (xs : List StaInfo) → HasUniqueKeys xs → HasUniqueKeys (replace si xs)
unfolding replace
replace-HasUniqueKeys si [] h = tt
replace-HasUniqueKeys si (x ∷ xs) h = elim (Bool-cases (ref_eq x.self si.self)) [
  | inl e ↦ let q : x.self ≡ si.self = (ref_eq_iff x.self si.self).0 e in rw e (rw (← q) h.0, h.1)
  | inr e ↦ rw e (any-replace (λ q. ref_eq q x.self) si xs ∙ h.0, replace-HasUniqueKeys si xs h.1)
]

pub put_info-HasUniqueKeys :
    (si : StaInfo) (s : Store) → HasUniqueKeys s.infos → HasUniqueKeys (put_info si s).infos
unfolding put_info
put_info-HasUniqueKeys si s h = replace-HasUniqueKeys si s.infos h

pub has_info-find_info :
    (q : Ref) (x : StaInfo) (xs : List StaInfo) → find_info q xs ≡ some x → has_info q xs ≡ true
has_info-find_info q x [] h = absurd (ground arith)
has_info-find_info q x (y ∷ ys) h = ground (arith, has_info-find_info q x ys)

pub find_info-none : (q : Ref) (xs : List StaInfo) → find_info q xs ≡ none → has_info q xs ≡ false
find_info-none q [] h = refl
find_info-none q (y ∷ ys) h = ground (arith, find_info-none q ys)

pub find_info-self :
    (q : Ref) (x : StaInfo) (xs : List StaInfo) → find_info q xs ≡ some x → x.self ≡ q
find_info-self q x [] h = absurd (ground arith)
find_info-self q x (y ∷ ys) h = ground (arith, find_info-self q x ys, ref_eq_iff y.self q)

pub update_node-rest :
    (p : ℕ) (f : Node → Node) (s : Store)
    → update_node p f s ≡ record s {
      local_nodes = (update_node p f s).local_nodes;
      remote_nodes = (update_node p f s).remote_nodes;
    }
unfolding update_node
update_node-rest p f s = refl
