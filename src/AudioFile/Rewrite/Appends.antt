-- ===== src/AudioFile/Rewrite/Appends.antt =====
-- Writes at the end of the output append to it.
use ara2_bridge.Base.{
  ℕ, List, [], ◌∷◌, ◌++◌, length, Bool, ◌≡◌, refl, sym, ◌∙◌, ap, ◌+◌, ◌%◌, arith, subst,
  length-append, inl, inr, ◌==◌, Bool-cases,
}
use ara2_bridge.Base.Bytes.{take, drop, copy_at, grow, zeros}
use ara2_bridge.Errors.{ok, Result-cases}
use ara2_bridge.AudioFile.{Endian, little, big, encode_u32}
use ara2_bridge.AudioFile.Rewrite.{
  Output, write_all, write_padding, write_chunk, encoded_size, copy_range,
}

append_nil : (xs : List ℕ) → xs ≡ xs ++ []
append_nil [] = refl
append_nil (x ∷ xs) = ap (λ ys. x ∷ ys) (append_nil xs)

append_assoc : (xs ys zs : List ℕ) → (xs ++ ys) ++ zs ≡ xs ++ (ys ++ zs)
append_assoc [] ys zs = refl
append_assoc (x ∷ xs) ys zs = ap (λ l. x ∷ l) (append_assoc xs ys zs)

copy_at-start : (bs : List ℕ) → copy_at 0 bs (zeros (length bs)) ≡ bs
unfolding copy_at
copy_at-start [] = refl
copy_at-start (b ∷ bs) = ap (λ l. b ∷ l) (copy_at-start bs)

copy_at-end : (xs bs : List ℕ) → copy_at (length xs) bs (xs ++ zeros (length bs)) ≡ xs ++ bs
unfolding copy_at
copy_at-end [] bs = copy_at-start bs
copy_at-end (x ∷ xs) bs = ap (λ l. x ∷ l) (copy_at-end xs bs)

grow-end : (xs bs : List ℕ) → grow (length xs + length bs) xs ≡ xs ++ zeros (length bs)
unfolding grow
grow-end xs [] = ground (arith, append_nil xs)
grow-end xs (b ∷ bs) = ground arith

-- An output whose position is its end, after some bytes were appended.
pub record Appended (o : Output) (bs : List ℕ) (o' : Output) : Type 0 where
  pub bytes : o'.bytes ≡ o.bytes ++ bs
  pub at_end : o'.position ≡ length o'.bytes

pub write_all-Appended :
    (bs : List ℕ) (o : Output) → o.position ≡ length o.bytes → Appended o bs (write_all bs o)
unfolding write_all
write_all-Appended bs o e =
    let size : o.position + length bs ≡ length o.bytes + length bs = ap (λ p. p + length bs) e in
    let written : (write_all bs o).bytes ≡ o.bytes ++ bs =
      subst (λ p. copy_at p bs (grow (p + length bs) o.bytes) ≡ o.bytes ++ bs) (sym e)
        (ap (copy_at (length o.bytes) bs) (grow-end o.bytes bs) ∙ copy_at-end o.bytes bs) in
    record {
      bytes = written;
      at_end = size ∙ sym (length-append o.bytes bs) ∙ ap length (sym written);
    }

pub Appended-trans :
    {o : Output} {first : List ℕ} {o' : Output} {bs : List ℕ} {o'' : Output}
    → Appended o first o'
    → Appended o' bs o''
    → Appended o (first ++ bs) o''
Appended-trans {o} {first} {o'} {bs} {o''} h k = record {
  bytes = k.bytes ∙ ap (λ l. l ++ bs) h.bytes ∙ append_assoc o.bytes first bs;
  at_end = k.at_end;
}

pub length-encode_u32 : (endian : Endian) (n : ℕ) → length (encode_u32 endian n) ≡ 4
unfolding encode_u32
length-encode_u32 little n = refl
length-encode_u32 big n = refl

-- The bytes of a chunk with some encoded size.
abbrev pub chunk_bytes : List ℕ → Endian → ℕ → List ℕ → List ℕ → List ℕ
chunk_bytes id endian size payload padding = (id ++ encode_u32 endian size) ++ (payload ++ padding)

pub stays_Appended : (o : Output) → o.position ≡ length o.bytes → Appended o [] o
stays_Appended o e = record { bytes = append_nil o.bytes; at_end = e }

write_padding-Appended :
    (payload : List ℕ) (o : Output)
    → o.position ≡ length o.bytes
    → (padding : List ℕ) × (length padding ≡ length payload % 2)
      × Appended o padding (write_padding payload o)
unfolding write_padding
write_padding-Appended payload o e = elim (Bool-cases (length payload % 2 == 0)) [
  | inl even ↦
      let same : o ≡ write_padding payload o = rw even refl in
      ([], ground arith, subst (λ z. Appended o [] z) same (stays_Appended o e))
  | inr odd ↦
      let same : write_all (0 ∷ []) o ≡ write_padding payload o = rw odd refl in
      (
        0 ∷ [],
        ground arith,
        subst (λ z. Appended o (0 ∷ []) z) same (write_all-Appended (0 ∷ []) o e),
      )
]

pub length-chunk_bytes :
    (id : List ℕ) (endian : Endian) (size : ℕ) (payload padding : List ℕ)
    → length (chunk_bytes id endian size payload padding)
      ≡ length id + 4 + length payload + length padding
length-chunk_bytes id endian size payload padding = omega (
  arith,
  length-append (id ++ encode_u32 endian size) (payload ++ padding),
  length-append id (encode_u32 endian size),
  length-append payload padding,
  length-encode_u32 endian size,
)

-- A chunk is written as its header, its payload and a byte of padding if that is odd.
pub write_chunk-Appended :
    (id payload : List ℕ) (endian : Endian) (large : Bool) (o : Output) {o' : Output}
    → o.position ≡ length o.bytes
    → write_chunk id payload endian large o ≡ ok o'
    → (size : ℕ) × (padding : List ℕ) × (length padding ≡ length payload % 2)
      × Appended o (chunk_bytes id endian size payload padding) o'
unfolding write_chunk
write_chunk-Appended id payload endian large o {o'} e w =
    elim (Result-cases (encoded_size payload large)) [
      | inr (x, f) ↦ ground arith
      | inl (size, f) ↦
          let o1 = write_all id o in
          let o2 = write_all (encode_u32 endian size) o1 in
          let o3 = write_all payload o2 in
          let h1 = write_all-Appended id o e in
          let h2 = write_all-Appended (encode_u32 endian size) o1 h1.at_end in
          let h3 = write_all-Appended payload o2 h2.at_end in
          let (padding, n, h4) = write_padding-Appended payload o3 h3.at_end in
          let same : write_padding payload o3 ≡ o' = ground arith in
          (
            size,
            padding,
            n,
            subst (λ z. Appended o (chunk_bytes id endian size payload padding) z) same
                (Appended-trans (Appended-trans h1 h2) (Appended-trans h3 h4)),
          )
    ]

pub copy_range-Appended :
    (input : List ℕ) (start n : ℕ) (o : Output) {o' : Output}
    → o.position ≡ length o.bytes
    → copy_range input start n o ≡ ok o'
    → (length (take n (drop start input)) ≡ n) × Appended o (take n (drop start input)) o'
unfolding copy_range
copy_range-Appended input start n o {o'} e w =
    let fits : length (take n (drop start input)) ≡ n = ground arith in
    let same : write_all (take n (drop start input)) o ≡ o' = ground arith in
    (fits, subst (λ z. Appended o (take n (drop start input)) z) same (write_all-Appended _ o e))
