-- ===== src/Remote/Vendor/Layout.antt =====
-- The vendor element, byte by byte.
use usteer.Base.{
  ℕ, suc, ◌+◌, ◌*◌, ◌%◌, ◌≤◌, ◌<◌, ◌≡◌, ◌∙◌, refl, sym, subst, ap, List, [], ◌∷◌, ◌++◌, All, length,
  length-append, Option, none, some, String, arith, Option-cases, inl, inr,
}
use usteer.Remote.Send.{Interface}
use usteer.Remote.Vendor.{
  StringBuffer, IfAddr, write, hex, hex_string, convert_to_hex_string, lan_address, vendor_each,
  usteer_vendor_get,
}
use usteer.Remote.Vendor.Memory.{
  GrowsInPlace, two_first, put_bytes, put_more, regroup, length-hex_string,
}

abbrev pub joined : List (List ℕ) → List ℕ
joined [] = []
joined (x ∷ xs) = x ++ joined xs

-- The element: its id, its length, the network's mark and the addresses.
abbrev pub vendor_bytes : List (List ℕ) → List ℕ
vendor_bytes ads = 221 ∷ (4 + 16 * length ads) ∷ 255 ∷ 218 ∷ 12 ∷ 204 ∷ joined ads

abbrev pub with_address : Option (List ℕ) → List (List ℕ) → List (List ℕ)
with_address none xs = xs
with_address (some bytes) xs = bytes ∷ xs

module _ (buf : StringBuffer) (if_nametoindex : String → ℕ) (interfaces : List Interface) where
  abbrev address_of : IfAddr → Option (List ℕ)
  address_of = lan_address buf if_nametoindex interfaces

  -- The IPv6 addresses of the daemon's interfaces.
  unfoldable pub addresses : List IfAddr → List (List ℕ)
  addresses [] = []
  addresses (x ∷ xs) = with_address (address_of x) (addresses xs)

  skipped :
      (t : ℕ) (x : IfAddr) (xs : List IfAddr) (b : List ℕ)
      → address_of x ≡ none
      → (vendor_each buf if_nametoindex interfaces t (x ∷ xs) b
          ≡ vendor_each buf if_nametoindex interfaces t xs b)
        × (addresses (x ∷ xs) ≡ addresses xs)
  unfolding vendor_each addresses
  skipped t x xs b e = (rw (e, vendor_each) refl, rw e refl)

  added :
      (t : ℕ) (x : IfAddr) (xs : List IfAddr) (b bytes grown b' : List ℕ)
      → address_of x ≡ some bytes
      → buf.blobmsg_realloc_string_buffer (((t + 16) % 256 + 2) * 2) b ≡ some grown
      → convert_to_hex_string ((t + 2) * 2) bytes grown ≡ some b'
      → vendor_each buf if_nametoindex interfaces t (x ∷ xs) b
        ≡ vendor_each buf if_nametoindex interfaces ((t + 16) % 256) xs b'
  unfolding vendor_each
  added t x xs b bytes grown b' e f g = rw (e, f, g, vendor_each) refl

  is_added :
      (x : IfAddr) (xs : List IfAddr) (bytes : List ℕ)
      → address_of x ≡ some bytes
      → addresses (x ∷ xs) ≡ bytes ∷ addresses xs
  unfolding addresses
  is_added x xs bytes e = rw e refl

  -- The memory after the bytes and the addresses.
  Appended : ℕ → List IfAddr → List ℕ → List ℕ → List (List ℕ) → Type 0
  Appended t ifas before rest ads =
      All (λ bytes. length bytes ≡ 16) ads
      → t + 16 * length ads < 256
      → (rest' : List ℕ) × (vendor_each buf if_nametoindex interfaces t ifas (before ++ rest)
          ≡ some (t + 16 * length ads, before ++ (hex_string (joined ads) ++ rest')))

  vendor_each-Appended :
      (ifas : List IfAddr) (t : ℕ) (before rest : List ℕ)
      → GrowsInPlace buf
      → length before ≡ (t + 2) * 2
      → Appended t ifas before rest (addresses ifas)
  unfolding vendor_each hex_string addresses Appended
  vendor_each-Appended [] t before rest g l =
      λ h k. (rest, ap (λ n. some (n, before ++ rest)) (omega arith))
  vendor_each-Appended (x ∷ xs) t before rest g l = elim (Option-cases (address_of x)) [
    | inl e ↦
        let (same, none_added) = skipped t x xs (before ++ rest) e in
        subst (Appended t (x ∷ xs) before rest) (sym none_added) (λ h k.
          let (rest', e') = vendor_each-Appended xs t before rest g l h k in (rest', same ∙ e'))
    | inr (bytes, e) ↦ subst (Appended t (x ∷ xs) before rest) (sym (is_added x xs bytes e)) (λ h k.
        let t' = (t + 16) % 256 in
        let (more, grown, large) = g.realloc ((t' + 2) * 2) (before ++ rest) in
        let room : 2 * length bytes ≤ length (rest ++ more) = omega (
          arith,
          length-append (before ++ rest) more,
          length-append before rest,
          length-append rest more,
          h.0,
        ) in
        let (rest1, there) = put_more ((t + 2) * 2) before bytes rest more l room in
        let (rest', e') =
          vendor_each-Appended xs t' (before ++ hex_string bytes) rest1 g
            (omega (arith, length-append before (hex_string bytes), length-hex_string bytes, h.0))
            h.1 (omega arith) in
        let count : t' + 16 * length (addresses xs) ≡ t + 16 * suc (length (addresses xs)) =
          omega arith in
        (
          rest',
          added t x xs (before ++ rest) bytes ((before ++ rest) ++ more)
                ((before ++ hex_string bytes) ++ rest1) e grown there
              ∙ (e'
                  ∙ ap (λ x. some x)
                      (λ i. (count i, regroup before bytes (joined (addresses xs)) rest' i))),
        ))
  ]

  chained :
      (ifas : List IfAddr) (m0 m1 m2 m3 : List ℕ) (t : ℕ)
      → convert_to_hex_string 0 (221 ∷ []) (buf.blobmsg_alloc_string_buffer 12) ≡ some m0
      → convert_to_hex_string 4 (255 ∷ 218 ∷ 12 ∷ 204 ∷ []) m0 ≡ some m1
      → vendor_each buf if_nametoindex interfaces 4 ifas m1 ≡ some (t, m2)
      → convert_to_hex_string 2 (t ∷ []) m2 ≡ some m3
      → usteer_vendor_get buf if_nametoindex interfaces (some ifas) ≡ some (t, m3)
  unfolding usteer_vendor_get
  chained ifas m0 m1 m2 m3 t e0 e1 e2 e3 = rw (e0, e1, e2, e3) refl

  pub usteer_vendor_get-vendor_bytes :
      (ifas : List IfAddr)
      → GrowsInPlace buf
      → All (λ bytes. length bytes ≡ 16) (addresses ifas)
      → length (addresses ifas) < 16
      → (rest : List ℕ) × (usteer_vendor_get buf if_nametoindex interfaces (some ifas)
          ≡ some (
            4 + 16 * length (addresses ifas),
            hex_string (vendor_bytes (addresses ifas)) ++ rest,
          ))
  unfolding Appended convert_to_hex_string write hex_string hex
  usteer_vendor_get-vendor_bytes ifas g h k =
      let large = g.alloc 12 in
      let (x, y, m1, e1, l1) = two_first (buf.blobmsg_alloc_string_buffer 12) (omega arith) in
      let (u, v, m2, e2, l2) = two_first m1 (omega arith) in
      let ads = addresses ifas in
      let t = 4 + 16 * length ads in
      let (rest1, put) =
        put_bytes (68 ∷ 68 ∷ u ∷ v ∷ []) (255 ∷ 218 ∷ 12 ∷ 204 ∷ []) m2 (omega arith) in
      let start = 68 ∷ 68 ∷ u ∷ v ∷ hex_string (255 ∷ 218 ∷ 12 ∷ 204 ∷ []) in
      let (rest, each) = vendor_each-Appended ifas 4 start rest1 g refl h (omega arith) in
      (
        rest,
        chained ifas (68 ∷ 68 ∷ u ∷ v ∷ m2) (start ++ rest1)
            (start ++ (hex_string (joined ads) ++ rest)) (hex_string (vendor_bytes ads) ++ rest) t
            (rw (e1, e2) refl) put each refl,
      )
