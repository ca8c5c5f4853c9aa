-- ===== src/Remote/Blob.antt =====
-- The messages, and what usteer relies on of libubox's `blob_parse`.
use usteer.Base.{
  ℕ, ◌+◌, ◌*◌, ◌/◌, ◌%◌, ◌^◌, ◌<◌, ◌≡◌, refl, ap, Bool, true, false, List, [], ◌∷◌, Option, none,
  some, String, ◌==◌, any, find?, arith,
}
use usteer.State.Node.{StringArray, Blob}

-- An attribute, with its id and its contents: a number, a text, bytes, more attributes, or the array
-- of a blobmsg attribute.
mutual
  pub data Attr : Type 0 where
    int8 : ℕ → ℕ → Attr
    int32 : ℕ → ℕ → Attr
    string : ℕ → String → Attr
    binary : ℕ → List ℕ → Attr
    nested : ℕ → Attrs → Attr
    array : ℕ → StringArray → Attr

  pub data Attrs : Type 0 where
    end : Attrs
    next : Attr → Attrs → Attrs

abbrev pub of_list : List Attr → Attrs
of_list [] = end
of_list (a ∷ as') = next a (of_list as')

-- `blob_for_each_attr`.
abbrev pub to_list : Attrs → List Attr
to_list end = []
to_list (next a as') = a ∷ to_list as'

pub to_list-of_list : (l : List Attr) → to_list (of_list l) ≡ l
to_list-of_list [] = refl
to_list-of_list (a ∷ l) = ap (λ t. a ∷ t) (to_list-of_list l)

abbrev pub id_of : Attr → ℕ
id_of (int8 i _) = i
id_of (int32 i _) = i
id_of (string i _) = i
id_of (binary i _) = i
id_of (nested i _) = i
id_of (array i _) = i

-- `BLOB_ATTR_…`; an id without a policy is `unspec`.
pub data AttrType : Type 0 where
  unspec is_nested is_binary is_string is_int8 is_int32 : AttrType

-- The attribute was written with the type that the policy wants.
abbrev pub fits : AttrType → Attr → Bool
fits unspec _ = true
fits is_nested (nested _ _) = true
fits is_nested (binary _ _) = true
fits is_binary (binary _ _) = true
fits is_string (string _ _) = true
fits is_int8 (int8 _ _) = true
fits is_int32 (int32 _ _) = true
fits _ _ = false

abbrev pub has_id : ℕ → List Attr → Bool
has_id i = any (λ a. id_of a == i)

-- Every attribute fits its policy, and no two have the same id.
abbrev pub IsWellFormed : (ℕ → AttrType) → List Attr → Type 0
IsWellFormed policy [] = Unit {0}
IsWellFormed policy (a ∷ l) =
    (fits (policy (id_of a)) a ≡ true) × (has_id (id_of a) l ≡ false) × IsWellFormed policy l

-- `tb[i]` after `blob_parse(data, tb, policy, max)`.
pub record BlobParse : Type 0 where
  pub blob_parse : (ℕ → AttrType) → ℕ → List Attr → ℕ → Option Attr
  pub parse_found :
      (policy : ℕ → AttrType) (max : ℕ) (l : List Attr) (i : ℕ)
      → IsWellFormed policy l
      → i < max
      → blob_parse policy max l i ≡ find? (λ a. id_of a == i) l
  pub parse_absent :
      (policy : ℕ → AttrType) (max : ℕ) (l : List Attr) (i : ℕ)
      → has_id i l ≡ false
      → blob_parse policy max l i ≡ none
  -- The bytes that attributes inside another make up, and the attributes that bytes read as.
  pub attrs_bytes : Attrs → Blob
  pub other_attrs : Attr → List Attr
  pub blobmsg_check_attr : Option String → Bool

-- Reading an attribute's contents; `none` where they are not of that kind.
abbrev pub blob_get_int32 : Attr → Option ℕ
blob_get_int32 (int32 _ v) = some v
blob_get_int32 _ = none

abbrev pub blob_get_int8 : Attr → Option ℕ
blob_get_int8 (int8 _ v) = some v
blob_get_int8 _ = none

abbrev pub blob_string : Attr → Option String
blob_string (string _ s) = some s
blob_string _ = none

abbrev pub blob_bytes : Attr → Option (List ℕ)
blob_bytes (binary _ bs) = some bs
blob_bytes _ = none

-- The attributes inside one.
abbrev pub inside : BlobParse → Attr → List Attr
inside blob (nested _ l) = to_list l
inside blob a = blob.other_attrs a

-- The six bytes of an address, and the number that they write.
abbrev pub addr_bytes : ℕ → List ℕ
addr_bytes a =
    a / 2 ^ 40 % 256
    ∷ a / 2 ^ 32 % 256
    ∷ a / 2 ^ 24 % 256
    ∷ a / 2 ^ 16 % 256
    ∷ a / 2 ^ 8 % 256
    ∷ a % 256
    ∷ []

abbrev pub addr_of : List ℕ → ℕ
addr_of bs = go 0 bs
  where
    go : ℕ → List ℕ → ℕ
    go acc [] = acc
    go acc (b ∷ bs') = go (acc * 256 + b) bs'

pub addr_of-addr_bytes : (a : ℕ) → a < 2 ^ 48 → addr_of (addr_bytes a) ≡ a
addr_of-addr_bytes a h = omega arith
