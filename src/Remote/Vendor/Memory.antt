-- ===== src/Remote/Vendor/Memory.antt =====
-- Hex digits written one behind the other into memory that grows.
use usteer.Base.{
  ℕ, zero, suc, ◌+◌, ◌*◌, ◌≤◌, ◌<◌, ◌≡◌, ◌∙◌, refl, sym, ap, List, [], ◌∷◌, ◌++◌, length,
  append_assoc, some, arith,
}
use usteer.Remote.Vendor.{StringBuffer, write, hex_string, convert_to_hex_string}

-- Memory that is as large as was asked for, and that grows in place with what it holds.
pub record GrowsInPlace (buf : StringBuffer) : Type 0 where
  pub alloc : (n : ℕ) → n < length (buf.blobmsg_alloc_string_buffer n)
  pub realloc :
      (n : ℕ) (mem : List ℕ)
      → (more : List ℕ) × (buf.blobmsg_realloc_string_buffer n mem ≡ some (mem ++ more))
        × (n < length (mem ++ more))

pub split_at :
    (n : ℕ) (xs : List ℕ)
    → n ≤ length xs
    → (a : List ℕ) × (b : List ℕ) × (xs ≡ a ++ b) × (length a ≡ n)
split_at zero xs h = ([], xs, refl, refl)
split_at (suc n) [] h = absurd (omega arith)
split_at (suc n) (x ∷ xs) h =
    let (a, b, e, l) = split_at n xs (omega arith) in (x ∷ a, b, ap (λ t. x ∷ t) e, ap suc l)

pub two_first :
    (xs : List ℕ)
    → 2 ≤ length xs
    → (x : ℕ) × (y : ℕ) × (zs : List ℕ) × (xs ≡ x ∷ y ∷ zs) × (length xs ≡ 2 + length zs)
two_first [] h = absurd (omega arith)
two_first (x ∷ []) h = absurd (omega arith)
two_first (x ∷ y ∷ zs) h = (x, y, zs, refl, omega arith)

write-first :
    (ds old rest : List ℕ) → length old ≡ length ds → write 0 ds (old ++ rest) ≡ some (ds ++ rest)
unfolding write
write-first [] [] rest h = refl
write-first [] (x ∷ old) rest h = absurd (omega arith)
write-first (d ∷ ds) [] rest h = absurd (omega arith)
write-first (d ∷ ds) (x ∷ old) rest h = rw (write-first ds old rest (omega arith)) refl

write-after :
    (before ds old rest : List ℕ)
    → length old ≡ length ds
    → write (length before) ds (before ++ (old ++ rest)) ≡ some (before ++ (ds ++ rest))
unfolding write
write-after [] ds old rest h = write-first ds old rest h
write-after (x ∷ before) ds old rest h = rw (write-after before ds old rest h) refl

pub length-hex_string : (vs : List ℕ) → length (hex_string vs) ≡ 2 * length vs
unfolding hex_string
length-hex_string [] = refl
length-hex_string (v ∷ vs) = omega (arith, length-hex_string vs)

hex_string-append : (a b : List ℕ) → hex_string (a ++ b) ≡ hex_string a ++ hex_string b
unfolding hex_string
hex_string-append [] b = refl
hex_string-append (v ∷ a) b = rw (hex_string-append a b) refl

-- Bytes written after those that are there, into memory that is large enough.
pub put_bytes :
    (before bytes rest : List ℕ)
    → 2 * length bytes ≤ length rest
    → (rest' : List ℕ) × (convert_to_hex_string (length before) bytes (before ++ rest)
        ≡ some (before ++ (hex_string bytes ++ rest')))
unfolding convert_to_hex_string
put_bytes before bytes rest h =
    let (old, rest', e, l) = split_at (2 * length bytes) rest h in
    (
      rest',
      ap (λ m. write (length before) (hex_string bytes) (before ++ m)) e
          ∙ write-after before (hex_string bytes) old rest' (l ∙ sym (length-hex_string bytes)),
    )

-- The same, after the memory has grown by `more`.
pub put_more :
    (at : ℕ) (before bytes rest more : List ℕ)
    → length before ≡ at
    → 2 * length bytes ≤ length (rest ++ more)
    → (rest' : List ℕ) × (convert_to_hex_string at bytes ((before ++ rest) ++ more)
        ≡ some ((before ++ hex_string bytes) ++ rest'))
put_more at before bytes rest more l h =
    let (rest', put) = put_bytes before bytes (rest ++ more) h in
    (
      rest',
      ap (λ n. convert_to_hex_string n bytes ((before ++ rest) ++ more)) (sym l)
          ∙ (ap (convert_to_hex_string (length before) bytes) (append_assoc before rest more)
              ∙ (put ∙ ap (λ m. some m) (sym (append_assoc before (hex_string bytes) rest')))),
    )

pub regroup :
    (before a b rest : List ℕ)
    → (before ++ hex_string a) ++ (hex_string b ++ rest) ≡ before ++ (hex_string (a ++ b) ++ rest)
regroup before a b rest =
    append_assoc before (hex_string a) (hex_string b ++ rest)
    ∙ ap (λ m. before ++ m)
        (sym (append_assoc (hex_string a) (hex_string b) rest)
          ∙ ap (λ m. m ++ rest) (sym (hex_string-append a b)))
