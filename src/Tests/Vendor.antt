-- ===== src/Tests/Vendor.antt =====
-- The vendor element of a daemon with one IPv6 address.
use usteer.Base.{
  All, ℕ, suc, zero, ◌≡◌, refl, List, [], ◌∷◌, ◌++◌, length, length-append, none, some, String,
  arith,
}
use usteer.State.Station.{idle}
use usteer.Remote.Send.{Interface}
use usteer.Remote.Vendor.{StringBuffer, IfAddr, usteer_vendor_set}
use usteer.Remote.Vendor.Memory.{GrowsInPlace}
use usteer.Remote.Vendor.Layout.{vendor_bytes}
use usteer.Remote.Vendor.Sent.{
  lan_addresses, from_hex, vendor_requests, IsAddress, AreBytes, usteer_vendor_set-vendor_bytes,
}
use usteer.Tests.Data.{network}

abbrev zeros : ℕ → List ℕ
zeros zero = []
zeros (suc n) = 0 ∷ zeros n

length-zeros : (n : ℕ) → length (zeros n) ≡ n
length-zeros zero = refl
length-zeros (suc n) = omega (arith, length-zeros n)

-- A buffer that always grows by as much as it is asked for.
abbrev growing : StringBuffer
growing = record {
  blobmsg_alloc_string_buffer = λ n. zeros (suc n);
  blobmsg_realloc_string_buffer = λ n mem. some (mem ++ zeros (suc n));
}

growing-GrowsInPlace : GrowsInPlace growing
growing-GrowsInPlace = record {
  alloc = λ n. omega (arith, length-zeros n);
  realloc = λ n mem.
      (zeros (suc n), refl, omega (arith, length-append mem (zeros (suc n)), length-zeros n));
}

abbrev lan : List Interface
lan = record { name = "br-lan"; ifindex = 3 } ∷ []

abbrev index_of : String → ℕ
index_of name = 3

abbrev link_local : List ℕ
link_local = 254 ∷ 128 ∷ 0 ∷ 0 ∷ 0 ∷ 0 ∷ 0 ∷ 0 ∷ 2 ∷ 0 ∷ 0 ∷ 0 ∷ 0 ∷ 0 ∷ 0 ∷ 1 ∷ []

abbrev system : List IfAddr
system =
    record { ifa_name = "br-lan"; ifa_addr = none }
    ∷ record { ifa_name = "br-lan"; ifa_addr = some none }
    ∷ record { ifa_name = "br-lan"; ifa_addr = some (some link_local) }
    ∷ []

zeros-AreBytes : (n : ℕ) (rest : List ℕ) → AreBytes rest → AreBytes (zeros n ++ rest)
zeros-AreBytes zero rest h = h
zeros-AreBytes (suc n) rest h = (omega arith, zeros-AreBytes n rest h)

link_local-AreBytes : AreBytes link_local
link_local-AreBytes = (
  omega arith,
  (
    omega arith,
    zeros-AreBytes 6 (2 ∷ zeros 6 ++ (1 ∷ []))
        (omega arith, zeros-AreBytes 6 (1 ∷ []) (omega arith, tt)),
  ),
)

abbrev here : List (List ℕ)
here = lan_addresses index_of lan system

here-IsAddress : All IsAddress here
here-IsAddress = ((refl, link_local-AreBytes), tt)

usteer_vendor_set-vendor_bytes_example :
    (text : List ℕ) × (rest : List ℕ) × (from_hex text ≡ some (vendor_bytes (link_local ∷ [])))
    × (usteer_vendor_set growing index_of lan (some system) (network idle)
        ≡ some (record (network idle) {
          sent = vendor_requests (text ++ rest) (network idle).local_nodes ++ (network idle).sent;
        }))
usteer_vendor_set-vendor_bytes_example =
    usteer_vendor_set-vendor_bytes growing index_of lan system (network idle) growing-GrowsInPlace
      here-IsAddress (omega arith)
