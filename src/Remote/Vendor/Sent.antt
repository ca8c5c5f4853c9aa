-- ===== src/Remote/Vendor/Sent.antt =====
-- What a vendor update sends, by a decoder of the text and a search for the addresses of their own.
use mathlib.Core.List.{reverse, reverse_aux, reverse_aux-eq}
use usteer.Base.{
  ℕ, ◌+◌, ◌-◌, ◌*◌, ◌/◌, ◌%◌, ◌<◌, ◌≡◌, ◌∙◌, refl, ap, subst, sym, Bool, true, false, ◌&&◌, List,
  [], ◌∷◌, ◌++◌, map, any, find?, is_some, All, length, Option, none, some, ◌>>=◌, String, arith,
  if◌then◌else◌, leb, ◌==◌,
}
use usteer.State.Node.{LocalNode}
use usteer.State.Store.{Store, Request, set_vendor_elements}
use usteer.Remote.Send.{Interface}
use usteer.Remote.Receive.{interface_find_by_ifindex}
use usteer.Remote.Vendor.{
  StringBuffer, IfAddr, hex, hex_string, lan_address, usteer_vendor_get, usteer_vendor_set,
  set_each_vendor,
}
use usteer.Remote.Vendor.Memory.{GrowsInPlace}
use usteer.Remote.Vendor.Layout.{
  joined, vendor_bytes, with_address, addresses, usteer_vendor_get-vendor_bytes,
}

-- The value of a digit, '0' to '9' or 'A' to 'F'.
abbrev pub digit_value : ℕ → Option ℕ
digit_value c =
    if leb 48 c && leb c 57
    then some (c - 48)
    else if leb 65 c && leb c 70
    then some (c - 55)
    else none

-- The bytes that a text of hex digits stands for, the high digit first.
abbrev pub from_hex : List ℕ → Option (List ℕ)
from_hex [] = some []
from_hex (a ∷ []) = none
from_hex (a ∷ b ∷ cs) = do
  high ← digit_value a
  low ← digit_value b
  rest ← from_hex cs
  some ((high * 16 + low) ∷ rest)

digit_value-hex : (n : ℕ) → n < 16 → digit_value (hex n) ≡ some n
unfolding hex
digit_value-hex n h = ground arith

abbrev pub AreBytes : List ℕ → Type 0
AreBytes = All (λ b. b < 256)

from_hex-hex_string : (vs : List ℕ) → AreBytes vs → from_hex (hex_string vs) ≡ some vs
unfolding hex_string
from_hex-hex_string [] h = refl
from_hex-hex_string (v ∷ vs) h =
    let whole : v / 16 % 16 * 16 + v % 16 ≡ v = omega (arith, h.0) in
    rw
      (
        digit_value-hex (v / 16 % 16) (omega arith),
        digit_value-hex (v % 16) (omega arith),
        from_hex-hex_string vs h.1,
        whole,
      )
      refl

-- An IPv6 address.
abbrev pub IsAddress : List ℕ → Type 0
IsAddress bytes = (length bytes ≡ 16) × AreBytes bytes

abbrev pub when_lan : Bool → Option (Option (List ℕ)) → List (List ℕ) → List (List ℕ)
when_lan true (some (some bytes)) rest = bytes ∷ rest
when_lan _ _ rest = rest

-- The IPv6 addresses that the system has under the index of one of the interfaces.
abbrev pub lan_addresses : (String → ℕ) → List Interface → List IfAddr → List (List ℕ)
lan_addresses index interfaces [] = []
lan_addresses index interfaces (x ∷ xs) =
    when_lan (any (λ (i : Interface). i.ifindex == index x.ifa_name) interfaces) x.ifa_addr
      (lan_addresses index interfaces xs)

is_some-find? : (p : Interface → Bool) (xs : List Interface) → is_some (find? p xs) ≡ any p xs
is_some-find? p [] = refl
is_some-find? p (x ∷ xs) = ground (arith, is_some-find? p xs)

with_address-when_lan :
    (b : Bool) (a : Option (Option (List ℕ))) (rest : List (List ℕ))
    → with_address (elim a [ none ↦ none | some family ↦ if b then family else none ]) rest
      ≡ when_lan b a rest
with_address-when_lan true none rest = refl
with_address-when_lan false none rest = refl
with_address-when_lan true (some none) rest = refl
with_address-when_lan false (some none) rest = refl
with_address-when_lan true (some (some bytes)) rest = refl
with_address-when_lan false (some (some bytes)) rest = refl

addresses-lan_addresses :
    (buf : StringBuffer) (index : String → ℕ) (interfaces : List Interface) (ifas : List IfAddr)
    → addresses buf index interfaces ifas ≡ lan_addresses index interfaces ifas
unfolding addresses lan_address interface_find_by_ifindex
addresses-lan_addresses buf index interfaces [] = refl
addresses-lan_addresses buf index interfaces (x ∷ xs) =
    ap (λ l. with_address (lan_address buf index interfaces x) l)
      (addresses-lan_addresses buf index interfaces xs)
    ∙ (with_address-when_lan
          (is_some (find? (λ (i : Interface). i.ifindex == index x.ifa_name) interfaces)) x.ifa_addr
          (lan_addresses index interfaces xs)
        ∙ ap (λ b. when_lan b x.ifa_addr (lan_addresses index interfaces xs))
            (is_some-find? (λ (i : Interface). i.ifindex == index x.ifa_name) interfaces))

-- A request to each node, the last one in front.
abbrev pub vendor_requests : List ℕ → List LocalNode → List Request
vendor_requests elements lns =
    reverse (map (λ (ln : LocalNode). set_vendor_elements ln.obj_id elements) lns)

module _ (buf : StringBuffer) (index : String → ℕ) (interfaces : List Interface) where
  set_each_vendor-sent :
      (elements : List ℕ) (lns : List LocalNode) (s : Store)
      → set_each_vendor buf index interfaces elements lns s ≡ record s {
        sent =
            reverse_aux
              (map (λ (ln : LocalNode). set_vendor_elements ln.obj_id elements) lns)
              s.sent;
      }
  unfolding set_each_vendor
  set_each_vendor-sent elements [] s = refl
  set_each_vendor-sent elements (ln ∷ lns) s = set_each_vendor-sent elements lns _

AreBytes-append : (xs ys : List ℕ) → AreBytes xs → AreBytes ys → AreBytes (xs ++ ys)
AreBytes-append [] ys h k = k
AreBytes-append (x ∷ xs) ys h k = (h.0, AreBytes-append xs ys h.1 k)

vendor_set-sent :
    (buf : StringBuffer) (index : String → ℕ) (interfaces : List Interface) (ifas : List IfAddr)
    (s : Store) (tag_length : ℕ) (mem : List ℕ)
    → usteer_vendor_get buf index interfaces (some ifas) ≡ some (tag_length, mem)
    → usteer_vendor_set buf index interfaces (some ifas) s
      ≡ some (
          if leb tag_length 4
          then s
          else record s { sent = vendor_requests mem s.local_nodes ++ s.sent })
unfolding usteer_vendor_set
vendor_set-sent buf index interfaces ifas s tag_length mem e =
    let requests = map (λ (ln : LocalNode). set_vendor_elements ln.obj_id mem) s.local_nodes in
    let sent : set_each_vendor buf index interfaces mem s.local_nodes s
        ≡ record s { sent = vendor_requests mem s.local_nodes ++ s.sent } =
      set_each_vendor-sent buf index interfaces mem s.local_nodes s
      ∙ ap (λ (l : List Request). record s { sent = l }) (reverse_aux-eq requests s.sent) in
    rw (e, sent) refl

joined-AreBytes : (ads : List (List ℕ)) → All IsAddress ads → AreBytes (joined ads)
joined-AreBytes [] h = tt
joined-AreBytes (x ∷ xs) h = AreBytes-append x (joined xs) h.0.1 (joined-AreBytes xs h.1)

all_sixteen : (ads : List (List ℕ)) → All IsAddress ads → All (λ bytes. length bytes ≡ 16) ads
all_sixteen [] h = tt
all_sixteen (x ∷ xs) h = (h.0.0, all_sixteen xs h.1)

vendor_bytes-AreBytes :
    (ads : List (List ℕ)) → All IsAddress ads → length ads < 16 → AreBytes (vendor_bytes ads)
vendor_bytes-AreBytes ads h k =
    let mark : AreBytes (255 ∷ 218 ∷ 12 ∷ 204 ∷ []) =
      (omega arith, (omega arith, (omega arith, (omega arith, tt)))) in
    (
      omega arith,
      (
        omega arith,
        AreBytes-append (255 ∷ 218 ∷ 12 ∷ 204 ∷ []) (joined ads) mark (joined-AreBytes ads h),
      ),
    )

-- Where the string buffer grows in place, and the system has fewer than 16 IPv6 addresses under
-- the indices of the daemon's interfaces, the vendor update ends: without an address nothing
-- changes; else one request for each local node is sent, in their order, with a text that reads as
-- the bytes of the element, its id 221, the length of what follows, the four bytes of the mark and
-- the addresses in order, and then what was in the memory.
pub usteer_vendor_set-vendor_bytes :
    (buf : StringBuffer) (index : String → ℕ) (interfaces : List Interface) (ifas : List IfAddr)
    (s : Store)
    → GrowsInPlace buf
    → All IsAddress (lan_addresses index interfaces ifas)
    → length (lan_addresses index interfaces ifas) < 16
    → (let ads = lan_addresses index interfaces ifas in
        (text : List ℕ) × (rest : List ℕ) × (from_hex text ≡ some (vendor_bytes ads))
        × (usteer_vendor_set buf index interfaces (some ifas) s
            ≡ some (
                if length ads == 0
                then s
                else record s { sent = vendor_requests (text ++ rest) s.local_nodes ++ s.sent })))
usteer_vendor_set-vendor_bytes buf index interfaces ifas s g h k =
    let ads = lan_addresses index interfaces ifas in
    let same = sym (addresses-lan_addresses buf index interfaces ifas) in
    let (rest, e) =
      usteer_vendor_get-vendor_bytes buf index interfaces ifas g
        (subst (All (λ bytes. length bytes ≡ 16)) same (all_sixteen ads h))
        (subst (λ l. length l < 16) same k) in
    let text = hex_string (vendor_bytes ads) in
    let got : usteer_vendor_get buf index interfaces (some ifas)
        ≡ some (4 + 16 * length ads, text ++ rest) =
      subst
        (λ l.
          usteer_vendor_get buf index interfaces (some ifas)
          ≡ some (4 + 16 * length l, hex_string (vendor_bytes l) ++ rest))
        (sym same) e in
    let test : leb (4 + 16 * length ads) 4 ≡ (length ads == 0) = ground arith in
    (
      text,
      rest,
      from_hex-hex_string (vendor_bytes ads) (vendor_bytes-AreBytes ads h k),
      vendor_set-sent buf index interfaces ifas s (4 + 16 * length ads) (text ++ rest) got
          ∙ rw test refl,
    )
