-- ===== src/Tests/Blobs.antt =====
-- A reading of attributes, and a search in a list, as examples of libubox's.
use usteer.Base.{
  ℕ, ◌<◌, ◌≡◌, refl, ap, false, ◌&&◌, List, [], ◌∷◌, ◌++◌, find?, Option, none, ◌==◌, ltb, arith,
  if◌then◌else◌, is_some, ℤ, pos, leb_ℤ, Bool-cases, inl, inr,
}
use usteer.Base.Avl.{AvlLookup}
use usteer.Remote.Blob.{Attr, AttrType, fits, id_of, has_id, IsWellFormed, BlobParse}

abbrev pub fitting : (ℕ → AttrType) → List Attr → ℕ → Option Attr
fitting policy l i = find? (λ a. (id_of a == i) && fits (policy (id_of a)) a) l

fitting-found :
    (policy : ℕ → AttrType) (l : List Attr) (i : ℕ)
    → IsWellFormed policy l
    → fitting policy l i ≡ find? (λ a. id_of a == i) l
fitting-found policy [] i h = refl
fitting-found policy (a ∷ l) i h = let fit = h.0 in ground (arith, fitting-found policy l i h.2)

fitting-absent :
    (policy : ℕ → AttrType) (l : List Attr) (i : ℕ) → has_id i l ≡ false → fitting policy l i ≡ none
fitting-absent policy [] i h = refl
fitting-absent policy (a ∷ l) i h = ground (arith, fitting-absent policy l i)

pub table-found :
    (policy : ℕ → AttrType) (max : ℕ) (l : List Attr) (i : ℕ)
    → IsWellFormed policy l
    → i < max
    → (if ltb i max then fitting policy l i else none) ≡ find? (λ a. id_of a == i) l
table-found policy max l i h k = ground (arith, fitting-found policy l i h)

pub table-absent :
    (policy : ℕ → AttrType) (max : ℕ) (l : List Attr) (i : ℕ)
    → has_id i l ≡ false
    → (if ltb i max then fitting policy l i else none) ≡ none
table-absent policy max l i h = ground (arith, fitting-absent policy l i h)

unfoldable pub first_fitting : BlobParse
first_fitting = record {
  blob_parse = λ policy max l i. if ltb i max then fitting policy l i else none;
  parse_found = table-found;
  parse_absent = table-absent;
  attrs_bytes = λ l. [];
  other_attrs = λ a. [];
  blobmsg_check_attr = λ e. is_some e;
}

unfoldable pub from_equal : {A : Type 0} → (A → ℤ) → List A → List A
from_equal cmp [] = []
from_equal cmp (x ∷ xs) =
    let rest = from_equal cmp xs in
    if leb_ℤ (cmp x) (pos 0) && leb_ℤ (pos 0) (cmp x) then x ∷ xs else rest

pub from_equal-suffix :
    {A : Type 0} (cmp : A → ℤ) (l : List A) → (xs : List A) × (l ≡ xs ++ from_equal cmp l)
unfolding from_equal
from_equal-suffix cmp [] = ([], refl)
from_equal-suffix cmp (x ∷ l) = elim (Bool-cases (leb_ℤ (cmp x) (pos 0) && leb_ℤ (pos 0) (cmp x))) [
  | inl h ↦ rw h ([], refl)
  | inr h ↦ let (xs, p) = from_equal-suffix cmp l in rw h (x ∷ xs, ap (λ t. x ∷ t) p)
]

unfoldable pub first_equal : AvlLookup
unfolding from_equal
first_equal = record {
  avl_find = λ cmp l. from_equal cmp l;
  find_suffix = λ cmp l. from_equal-suffix cmp l;
}
