-- ===== src/Netlink/Elements.antt =====
-- The walk over the information elements of a scan result.
use usteer.Base.{
  ℕ, suc, ◌≡◌, ◌∙◌, refl, ap, true, false, not, List, [], ◌∷◌, ◌++◌, none, some, ◌==◌,
  if◌then◌else◌, ltb, leb, length, length-append, arith, Bool-cases, inl, inr,
}
use usteer.Netlink.{first_bytes, copy_over, walk_elements}

-- An element: its id, and its contents of as many bytes as its length says.
pub record Element : Type 0 where
  pub id : ℕ
  pub contents : List ℕ

abbrev pub element_bytes : Element → List ℕ
element_bytes e = e.id ∷ length e.contents ∷ e.contents

abbrev pub elements_bytes : List Element → List ℕ
elements_bytes [] = []
elements_bytes (e ∷ es) = element_bytes e ++ elements_bytes es

-- The SSIDs of at most 32 bytes, one after the other over what was there.
abbrev pub copy_each : List Element → List ℕ → List ℕ
copy_each [] ssid = ssid
copy_each (e ∷ es) ssid = copy_each es (
    if e.id == 0
    then if leb (length e.contents) 32 then copy_over e.contents ssid else ssid
    else ssid)

append_nil : (l : List ℕ) → l ++ [] ≡ l
append_nil [] = refl
append_nil (x ∷ l) = ap (λ t. x ∷ t) (append_nil l)

-- The contents of the last element are passed over.
walk_skip : (a l ssid : List ℕ) → walk_elements (length a) (a ++ l) ssid ≡ walk_elements 0 l ssid
unfolding walk_elements
walk_skip [] l ssid = refl
walk_skip (x ∷ a) l ssid = walk_skip a l ssid

first_bytes_lem : (a l : List ℕ) → first_bytes (length a) (a ++ l) ≡ a
first_bytes_lem [] l = refl
first_bytes_lem (x ∷ a) l = ap (λ t. x ∷ t) (first_bytes_lem a l)

walk_step :
    (id len : ℕ) (bs ssid : List ℕ)
    → walk_elements 0 (id ∷ len ∷ bs) ssid ≡ (
        if ltb (suc (suc (length bs))) len
        then some ssid
        else if not (id == 0)
        then walk_elements len bs ssid
        else if ltb 32 len
        then walk_elements len bs ssid
        else if ltb (length bs) len
        then none
        else walk_elements len bs (copy_over (first_bytes len bs) ssid))
unfolding walk_elements
walk_step id len bs ssid = refl

-- What an element leaves of the SSID that was read.
abbrev after_one : Element → List ℕ → List ℕ
after_one e ssid =
    if e.id == 0
    then if leb (length e.contents) 32 then copy_over e.contents ssid else ssid
    else ssid

fits : (c l : List ℕ) → ltb (suc (suc (length (c ++ l)))) (length c) ≡ false
fits c l = ground (arith, length-append c l)

no_overrun : (c l : List ℕ) → ltb (length (c ++ l)) (length c) ≡ false
no_overrun c l = ground (arith, length-append c l)

walk_one :
    (e : Element) (l ssid : List ℕ)
    → walk_elements 0 (element_bytes e ++ l) ssid ≡ walk_elements 0 l (after_one e ssid)
walk_one e l ssid =
    let c = e.contents in
    let step = walk_step e.id (length c) (c ++ l) ssid in
    elim (Bool-cases (e.id == 0)) [
      | inr p ↦ rw (step, fits c l, p) (walk_skip c l ssid)
      | inl p ↦ elim (Bool-cases (leb (length c) 32)) [
        | inl q ↦
            let short : ltb 32 (length c) ≡ false = ground arith in
            rw (step, fits c l, p, short, q, no_overrun c l, first_bytes_lem c l)
              (walk_skip c l (copy_over c ssid))
        | inr q ↦
            let long : ltb 32 (length c) ≡ true = ground arith in
            rw (step, fits c l, p, long, q) (walk_skip c l ssid)
      ]
    ]

-- The walk over the bytes of whole elements, each with its id, its length and its contents, reads
-- nothing past them, and leaves in the SSID the contents of the elements with the id 0 and at most
-- 32 bytes, each copied over what was there.
pub walk_elements-elements_bytes :
    (es : List Element) (ssid : List ℕ)
    → walk_elements 0 (elements_bytes es) ssid ≡ some (copy_each es ssid)
unfolding walk_elements
walk_elements-elements_bytes [] ssid = refl
walk_elements-elements_bytes (e ∷ es) ssid =
    walk_one e (elements_bytes es) ssid ∙ walk_elements-elements_bytes es _
