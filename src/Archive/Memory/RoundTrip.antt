-- ===== src/Archive/Memory/RoundTrip.antt =====
-- What is written is what is read (ara2-bridge-core/src/archive/io.rs).
use ara2_bridge.Base.{
  ℕ, List, length, leb, true, inl, inr, ◌⊎◌, ◌≡◌, refl, ◌+◌, ◌-◌, ◌≤◌, ◌<◌, arith, ap, sym, ◌∙◌,
  subst,
}
use ara2_bridge.Errors.{Result-cases, ok}
use ara2_bridge.Base.Bytes.{copy_at, grow, take, drop, u64_max}
use ara2_bridge.Archive.Memory.{MemoryArchive, checked_range, read_at, write_at}
use ara2_bridge.Archive.Memory.Slices.{
  byte_at, length-copy_at, take-drop-copy_at, byte_at-copy_at, byte_at-grow, length-grow,
}

checked_range-ok_inv :
    (m p n : ℕ) {r : ℕ × ℕ}
    → checked_range m p n ≡ ok r
    → ((p, p + n) ≡ r) × (p + n ≤ m) × (p + n ≤ u64_max)
unfolding checked_range
checked_range-ok_inv m p n e = ground arith

checked_range-ok_intro :
    (m p n : ℕ) → p + n ≤ m → p + n ≤ u64_max → checked_range m p n ≡ ok (p, p + n)
unfolding checked_range
checked_range-ok_intro m p n h k = ground arith

write_at-ok_inv :
    (m p : ℕ) (d : List ℕ) (a : MemoryArchive) {a' : MemoryArchive}
    → write_at m p d a ≡ ok a'
    → (p + length d ≤ m)
      × (p + length d ≤ u64_max)
      × (copy_at p d (grow (p + length d) a.bytes) ≡ a'.bytes)
unfolding write_at
write_at-ok_inv m p d a {a'} e = elim (Result-cases (checked_range m p (length d))) [
  | inr (x, f) ↦ ground arith
  | inl (r, f) ↦
      let (same, x, y) = checked_range-ok_inv m p (length d) f in
      let bytes : List ℕ = copy_at p d (grow (p + length d) a.bytes) in
      let written : write_at m p d a ≡ ok (record a { bytes = bytes }) =
        rw (checked_range-ok_intro m p (length d) x y) refl in
      let ends : ok (record a { bytes = bytes }) ≡ ok a' = sym written ∙ e in (x, y, ground arith)
]

-- A read of the range that was just written returns what was written.
pub read_at-write_at :
    (m p : ℕ) (d : List ℕ) (a : MemoryArchive) {a' : MemoryArchive}
    → write_at m p d a ≡ ok a'
    → read_at m p (length d) a' ≡ ok d
unfolding read_at
read_at-write_at m p d a {a'} e =
    let (x, y, z) = write_at-ok_inv m p d a e in
    let (l, k, c) = length-grow (p + length d) a.bytes in
    let n : length (copy_at p d (grow (p + length d) a.bytes))
        ≡ length (grow (p + length d) a.bytes) =
      length-copy_at p d (grow (p + length d) a.bytes) in
    let long : p + length d ≤ length a'.bytes =
      subst (λ b. p + length d ≤ length b) z (omega arith) in
    let long_test : leb (p + length d) (length a'.bytes) ≡ true = ground arith in
    let size : p + length d - p ≡ length d = omega arith in
    let copied : take (length d) (drop p a'.bytes) ≡ d =
      subst (λ b. take (length d) (drop p b) ≡ d) z
        (take-drop-copy_at p d (grow (p + length d) a.bytes) l) in
    rw (checked_range-ok_intro m p (length d) x y, long_test, size, copied) refl

-- A write leaves every byte outside its range as it was, where a byte that was never written is 0,
-- and the archive's length becomes the larger of its length and the end of the range.
pub byte_at-write_at :
    (m p : ℕ) (d : List ℕ) (a : MemoryArchive) (i : ℕ) {a' : MemoryArchive}
    → write_at m p d a ≡ ok a'
    → (i < p) ⊎ (p + length d ≤ i)
    → (byte_at i a'.bytes ≡ byte_at i a.bytes)
      × ((length a'.bytes ≡ p + length d) ⊎ (length a'.bytes ≡ length a.bytes))
      × (p + length d ≤ length a'.bytes)
      × (length a.bytes ≤ length a'.bytes)
byte_at-write_at m p d a i {a'} e outside =
    let (x, y, z) = write_at-ok_inv m p d a e in
    let (l, k, c) = length-grow (p + length d) a.bytes in
    let same_length : length (grow (p + length d) a.bytes) ≡ length a'.bytes =
      sym (length-copy_at p d (grow (p + length d) a.bytes)) ∙ ap length z in
    let same_byte : byte_at i (copy_at p d (grow (p + length d) a.bytes)) ≡ byte_at i a.bytes =
      byte_at-copy_at p d (grow (p + length d) a.bytes) i outside
      ∙ byte_at-grow (p + length d) a.bytes i in
    (
      subst (λ b. byte_at i b ≡ byte_at i a.bytes) z same_byte,
      ground arith,
      omega arith,
      omega arith,
    )
