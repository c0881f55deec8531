-- ===== src/Base/Bytes.antt =====
-- Byte strings as lists: slices, writes into a buffer, and fixed-width numbers.
use Prim.Native.Nat.{ℕ, zero, suc, ◌+◌, ◌-◌, ◌*◌, ◌/◌, ◌%◌, ◌^◌}
use mathlib.Core.Path.{◌≡◌, refl, ap, ◌∙◌}
use mathlib.Core.Bool.{Bool, true, false}
use mathlib.Core.List.{List, [], ◌∷◌, ◌++◌, reverse}
use native.Mathlib.Omega.{arith}
use ara2_bridge.Base.Tests.{ltb, ◌==◌, if◌then◌else◌}
use ara2_bridge.Base.Lists.{length}

abbrev pub u64_max : ℕ
u64_max = 2 ^ 64 - 1

abbrev pub take {ℓ} : {A : Type ℓ} → ℕ → List A → List A
take zero xs = []
take (suc n) [] = []
take (suc n) (x ∷ xs) = x ∷ take n xs

abbrev pub drop {ℓ} : {A : Type ℓ} → ℕ → List A → List A
drop zero xs = xs
drop (suc n) [] = []
drop (suc n) (x ∷ xs) = drop n xs

abbrev pub zeros : ℕ → List ℕ
zeros zero = []
zeros (suc n) = 0 ∷ zeros n

-- `copy_from_slice` into the range that starts at a position.
unfoldable pub copy_at : ℕ → List ℕ → List ℕ → List ℕ
copy_at zero [] bs = bs
copy_at zero (x ∷ xs) [] = []
copy_at zero (x ∷ xs) (b ∷ bs) = x ∷ copy_at zero xs bs
copy_at (suc p) xs [] = []
copy_at (suc p) xs (b ∷ bs) = b ∷ copy_at p xs bs

-- `Vec::resize` to at least a length, with zeros.
unfoldable pub grow : ℕ → List ℕ → List ℕ
grow end bytes = if ltb (length bytes) end then bytes ++ zeros (end - length bytes) else bytes

-- Numbers of `w` bytes, the lowest byte first or last.
abbrev pub from_le : List ℕ → ℕ
from_le [] = 0
from_le (b ∷ bs) = b + 256 * from_le bs

abbrev pub from_be : List ℕ → ℕ
from_be bs = from_le (reverse bs)

abbrev pub to_le : ℕ → ℕ → List ℕ
to_le zero n = []
to_le (suc w) n = n % 256 ∷ to_le w (n / 256)

abbrev pub to_be : ℕ → ℕ → List ℕ
to_be w n = reverse (to_le w n)

abbrev pub same_bytes : List ℕ → List ℕ → Bool
same_bytes [] [] = true
same_bytes [] (y ∷ ys) = false
same_bytes (x ∷ xs) [] = false
same_bytes (x ∷ xs) (y ∷ ys) = if x == y then same_bytes xs ys else false

pub same_bytes_comm : (xs ys : List ℕ) → same_bytes xs ys ≡ same_bytes ys xs
same_bytes_comm [] [] = refl
same_bytes_comm [] (y ∷ ys) = refl
same_bytes_comm (x ∷ xs) [] = refl
same_bytes_comm (x ∷ xs) (y ∷ ys) =
    let flip : (x == y) ≡ (y == x) = ground arith in
    ap (λ b. if b then same_bytes xs ys else false) flip
    ∙ ap (λ t. if y == x then t else false) (same_bytes_comm xs ys)
