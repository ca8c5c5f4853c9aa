-- ===== src/Remote/Vendor.antt =====
-- remote.c: the element of the beacon by which other daemons are found, with the IPv6 addresses of
-- the interfaces.
pub mod Memory
pub mod Layout
pub mod Sent
pub mod Sound
use usteer.Base.{
  ℕ, zero, suc, ◌+◌, ◌*◌, ◌/◌, ◌%◌, ◌>>=◌, List, [], ◌∷◌, Option, none, some, String, if◌then◌else◌,
  ltb, leb, is_some,
}
use usteer.State.Node.{LocalNode}
use usteer.State.Store.{Store, set_vendor_elements, send, usteer_update_time}
use usteer.Remote.Send.{Interface}
use usteer.Remote.Receive.{interface_find_by_ifindex}

-- libubox's string buffer, by the memory from the string on. `none` where it moves, since the source
-- goes on with the old pointer.
pub record StringBuffer : Type 0 where
  pub blobmsg_alloc_string_buffer : ℕ → List ℕ
  pub blobmsg_realloc_string_buffer : ℕ → List ℕ → Option (List ℕ)

-- An address of the system: no `ifa_addr`, one of another family, or the bytes of an IPv6 address.
pub record IfAddr : Type 0 where
  pub ifa_name : String
  pub ifa_addr : Option (Option (List ℕ))

-- Characters put into memory at an offset; `none` past its end.
unfoldable pub write : ℕ → List ℕ → List ℕ → Option (List ℕ)
write zero [] mem = some mem
write zero (d ∷ ds) [] = none
write zero (d ∷ ds) (m ∷ ms) = do r ← write zero ds ms; some (d ∷ r)
write (suc i) ds [] = none
write (suc i) ds (m ∷ ms) = do r ← write i ds ms; some (m ∷ r)

-- The characters of "0123456789ABCDEF".
unfoldable pub hex : ℕ → ℕ
hex i = if ltb i 10 then 48 + i else 55 + i

unfoldable pub hex_string : List ℕ → List ℕ
hex_string [] = []
hex_string (v ∷ vs) = hex (v / 16 % 16) ∷ hex (v % 16) ∷ hex_string vs

unfoldable pub convert_to_hex_string : ℕ → List ℕ → List ℕ → Option (List ℕ)
convert_to_hex_string at vals mem = write at (hex_string vals) mem

module _ (buf : StringBuffer) (if_nametoindex : String → ℕ) (interfaces : List Interface) where
  -- The IPv6 address of one of the daemon's interfaces.
  unfoldable pub lan_address : IfAddr → Option (List ℕ)
  lan_address ifa = elim ifa.ifa_addr [
    | none ↦ none
    | some family ↦
        if is_some (interface_find_by_ifindex (if_nametoindex ifa.ifa_name) interfaces)
        then family
        else none
  ]

  unfoldable pub vendor_each : ℕ → List IfAddr → List ℕ → Option (ℕ × List ℕ)
  vendor_each tag_length [] b = some (tag_length, b)
  vendor_each tag_length (ifa ∷ ifas) b = elim (lan_address ifa) [
    | none ↦ vendor_each tag_length ifas b
    | some s6_addr ↦
        let tag_length' = (tag_length + 16) % 256 in
        do
          grown ← buf.blobmsg_realloc_string_buffer ((tag_length' + 2) * 2) b
          b' ← convert_to_hex_string ((tag_length + 2) * 2) s6_addr grown
          vendor_each tag_length' ifas b'
  ]

  -- The length, and the memory of the string. Where `getifaddrs` fails there is none.
  unfoldable pub usteer_vendor_get : Option (List IfAddr) → Option (ℕ × List ℕ)
  usteer_vendor_get none = some (0, [])
  usteer_vendor_get (some ifaddr) = do
    b0 ← convert_to_hex_string 0 (221 ∷ []) (buf.blobmsg_alloc_string_buffer ((4 + 2) * 2))
    b1 ← convert_to_hex_string (2 * 2) (255 ∷ 218 ∷ 12 ∷ 204 ∷ []) b0
    end ← vendor_each 4 ifaddr b1
    let (tag_length, b2) = end in
        do b3 ← convert_to_hex_string (1 * 2) (tag_length ∷ []) b2; some (tag_length, b3)

  unfoldable pub set_each_vendor : List ℕ → List LocalNode → Store → Store
  set_each_vendor elements [] s = s
  set_each_vendor elements (ln ∷ lns) s =
      set_each_vendor elements lns (send (set_vendor_elements ln.obj_id elements) s)

  unfoldable pub usteer_vendor_set : Option (List IfAddr) → Store → Option Store
  usteer_vendor_set ifaddr s = do
    got ← usteer_vendor_get ifaddr
    some (if leb got.0 4 then s else set_each_vendor got.1 s.local_nodes s)

  -- The delay of the timer, and what is left.
  unfoldable pub usteer_vendor_update_timer : Option (List IfAddr) → Store → Option (ℕ × Store)
  usteer_vendor_update_timer ifaddr s =
      let now = usteer_update_time s in
      do s' ← usteer_vendor_set ifaddr now; some (now.config.vendor_update_interval, s')
