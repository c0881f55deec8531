-- ===== src/Archive/Memory/Slices.antt =====
-- Slices of byte lists (ara2-bridge-core/src/archive/io.rs).
use ara2_bridge.Base.{
  ℕ, zero, suc, List, [], ◌∷◌, ◌++◌, length, length-append, ltb, Bool-cases, inl, inr, ◌⊎◌, ◌≡◌,
  refl, ap, ◌+◌, ◌-◌, ◌≤◌, ◌<◌, arith,
}
use ara2_bridge.Base.Bytes.{take, drop, zeros, copy_at, grow}

-- The byte at a position; what was never written is 0.
abbrev pub byte_at : ℕ → List ℕ → ℕ
byte_at i [] = 0
byte_at zero (b ∷ bs) = b
byte_at (suc i) (b ∷ bs) = byte_at i bs

length-zeros : (n : ℕ) → length (zeros n) ≡ n
length-zeros zero = refl
length-zeros (suc n) = ap suc (length-zeros n)

pub length-copy_at : (p : ℕ) (xs bs : List ℕ) → length (copy_at p xs bs) ≡ length bs
unfolding copy_at
length-copy_at zero [] bs = refl
length-copy_at zero (x ∷ xs) [] = refl
length-copy_at zero (x ∷ xs) (b ∷ bs) = ap suc (length-copy_at zero xs bs)
length-copy_at (suc p) xs [] = refl
length-copy_at (suc p) xs (b ∷ bs) = ap suc (length-copy_at p xs bs)

pub take-drop-copy_at :
    (p : ℕ) (xs bs : List ℕ)
    → p + length xs ≤ length bs
    → take (length xs) (drop p (copy_at p xs bs)) ≡ xs
unfolding copy_at
take-drop-copy_at zero [] bs h = refl
take-drop-copy_at zero (x ∷ xs) [] h = absurd (omega arith)
take-drop-copy_at zero (x ∷ xs) (b ∷ bs) h =
    ap (λ t. x ∷ t) (take-drop-copy_at zero xs bs (omega arith))
take-drop-copy_at (suc p) xs [] h = absurd (omega arith)
take-drop-copy_at (suc p) xs (b ∷ bs) h = take-drop-copy_at p xs bs (omega arith)

pub byte_at-copy_at :
    (p : ℕ) (xs bs : List ℕ) (i : ℕ)
    → (i < p) ⊎ (p + length xs ≤ i)
    → byte_at i (copy_at p xs bs) ≡ byte_at i bs
unfolding copy_at
byte_at-copy_at zero [] bs i h = refl
byte_at-copy_at zero (x ∷ xs) [] i h = refl
byte_at-copy_at zero (x ∷ xs) (b ∷ bs) zero h = absurd (ground arith)
byte_at-copy_at zero (x ∷ xs) (b ∷ bs) (suc i) h = byte_at-copy_at zero xs bs i (ground arith)
byte_at-copy_at (suc p) xs [] i h = refl
byte_at-copy_at (suc p) xs (b ∷ bs) zero h = refl
byte_at-copy_at (suc p) xs (b ∷ bs) (suc i) h = byte_at-copy_at p xs bs i (ground arith)

byte_at-zeros : (n i : ℕ) → byte_at i (zeros n) ≡ 0
byte_at-zeros zero i = refl
byte_at-zeros (suc n) zero = refl
byte_at-zeros (suc n) (suc i) = byte_at-zeros n i

byte_at-pad : (bs : List ℕ) (n i : ℕ) → byte_at i (bs ++ zeros n) ≡ byte_at i bs
byte_at-pad [] n i = byte_at-zeros n i
byte_at-pad (b ∷ bs) n zero = refl
byte_at-pad (b ∷ bs) n (suc i) = byte_at-pad bs n i

pub byte_at-grow : (e : ℕ) (bs : List ℕ) (i : ℕ) → byte_at i (grow e bs) ≡ byte_at i bs
unfolding grow
byte_at-grow e bs i = elim (Bool-cases (ltb (length bs) e)) [
  | inl y ↦ rw y (byte_at-pad bs (e - length bs) i)
  | inr n ↦ rw n refl
]

pub length-grow :
    (e : ℕ) (bs : List ℕ)
    → (e ≤ length (grow e bs))
      × (length bs ≤ length (grow e bs))
      × ((length (grow e bs) ≡ e) ⊎ (length (grow e bs) ≡ length bs))
unfolding grow
length-grow e bs =
    let l : length (bs ++ zeros (e - length bs)) ≡ length bs + length (zeros (e - length bs)) =
      length-append bs (zeros (e - length bs)) in
    let z : length (zeros (e - length bs)) ≡ e - length bs = length-zeros (e - length bs) in
    elim (Bool-cases (ltb (length bs) e)) [
      | inl y ↦ rw y (omega arith, omega arith, inl (ground arith))
      | inr n ↦ rw n (ground arith, omega arith, inr refl)
    ]
