-- ===== src/Base/Texts.antt =====
-- Texts as C's strings of bytes: what is cut off, and what is put together.
use Prim.Native.Nat.{ℕ, zero, suc, ◌≤◌}
use Prim.Native.String.{String}
use mathlib.Core.Path.{◌≡◌, refl, ap}
use native.Mathlib.Omega.{arith}

abbrev pub strlen : String → ℕ
strlen String.[] = 0
strlen (String.◌∷◌ c s) = suc (strlen s)

-- The first bytes of a text.
abbrev pub truncate : ℕ → String → String
truncate zero s = ""
truncate (suc n) String.[] = ""
truncate (suc n) (String.◌∷◌ c s) = String.◌∷◌ c (truncate n s)

abbrev pub strcat : String → String → String
strcat String.[] t = t
strcat (String.◌∷◌ c s) t = String.◌∷◌ c (strcat s t)

pub truncate_lem : (n : ℕ) (s : String) → strlen s ≤ n → truncate n s ≡ s
truncate_lem zero String.[] h = refl
truncate_lem zero (String.◌∷◌ c s) h = absurd (omega arith)
truncate_lem (suc n) String.[] h = refl
truncate_lem (suc n) (String.◌∷◌ c s) h = ap (String.◌∷◌ c) (truncate_lem n s (omega arith))
