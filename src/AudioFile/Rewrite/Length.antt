-- ===== src/AudioFile/Rewrite/Length.antt =====
-- The length of what `rewrite_ixml` writes for a container that is not large.
use ara2_bridge.Base.{
  ℕ, Option, some, none, List, [], ◌∷◌, ◌++◌, length, ◌||◌, Bool, true, false, if◌then◌else◌, ◌≡◌,
  refl, sym, ◌∙◌, ap, ◌+◌, ◌-◌, ◌%◌, arith, subst, length-append,
}
use ara2_bridge.Base.Bytes.{take, drop}
use ara2_bridge.Errors.{Result, ok, ok_bind}
use ara2_bridge.AudioFile.{AudioFileError, ChunkInfo, Layout, Endian, id_ixml, is_large_riff}
use ara2_bridge.AudioFile.Rewrite.{
  Output, Rewriting, copy_range, keep_chunk, patch_copy, write_replacement, replace_chunk,
  rewrite_chunk, rewrite_chunks, is_ixml_index, has_row,
}
use ara2_bridge.AudioFile.Rewrite.Appends.{
  Appended, Appended-trans, write_chunk-Appended, copy_range-Appended, stays_Appended, chunk_bytes,
  length-chunk_bytes,
}

-- The bytes of a replacement with its header and padding.
abbrev pub extent : Option (List ℕ) → ℕ
extent none = 0
extent (some xml) = 8 + length xml + length xml % 2

-- By how much one chunk of the input lets the output grow.
abbrev pub growth : Rewriting → ℕ → ChunkInfo → ℕ
growth w index found =
    if is_ixml_index w.layout index then extent w.replacement else found.end - found.start

-- The output grew by some bytes of a given number.
abbrev pub Grows : Output → ℕ → Output → Type 0
Grows o n o' = (bs : List ℕ) × (length bs ≡ n) × Appended o bs o'

patch_copy-small :
    (w : Rewriting) (found : ChunkInfo) (start : ℕ) (o : Output)
    → is_large_riff w.layout ≡ false
    → patch_copy w found start o ≡ ok o
unfolding patch_copy
patch_copy-small w found start o small = rw small refl

keep_chunk-Grows :
    (w : Rewriting) (found : ChunkInfo) (o : Output) {o' : Output}
    → is_large_riff w.layout ≡ false
    → o.position ≡ length o.bytes
    → keep_chunk w found o ≡ ok o'
    → Grows o (found.end - found.start) o'
unfolding keep_chunk
keep_chunk-Grows w found o {o'} small e k =
    let n : ℕ = found.end - found.start in
    let (copied, f, g) =
      ok_bind (copy_range w.input found.start n o) (λ copied. patch_copy w found o.position copied)
        k in
    let done : ok copied ≡ ok o' = sym (patch_copy-small w found o.position copied small) ∙ g in
    let same : copied ≡ o' = cc in
    let bs : List ℕ = take n (drop found.start w.input) in
    let (fits, h) = copy_range-Appended w.input found.start n o e f in
    (bs, fits, subst (λ z. Appended o bs z) same h)

pub write_replacement-Grows :
    (endian : Endian) (large : Bool) (replacement : Option (List ℕ)) (o : Output) {o' : Output}
    → o.position ≡ length o.bytes
    → write_replacement endian large replacement o ≡ ok o'
    → Grows o (extent replacement) o'
unfolding write_replacement
write_replacement-Grows endian large none o {o'} e k =
    let same : o ≡ o' = cc in subst (λ z. Grows o 0 z) same (([], refl, stays_Appended o e))
write_replacement-Grows endian large (some xml) o e k =
    let (size, padding, n, h) = write_chunk-Appended id_ixml xml endian large o e k in
    (
      chunk_bytes id_ixml endian size xml padding,
      length-chunk_bytes id_ixml endian size xml padding ∙ ap (λ p. 8 + length xml + p) n,
      h,
    )

if-Grows :
    (b : Bool) (x y : Result AudioFileError Output) (m n : ℕ) {o o' : Output}
    → (x ≡ ok o' → Grows o m o')
    → (y ≡ ok o' → Grows o n o')
    → (if b then x else y) ≡ ok o'
    → Grows o (if b then m else n) o'
if-Grows true x y m n f g = f
if-Grows false x y m n f g = g

rewrite_chunk-Grows :
    (w : Rewriting) (index : ℕ) (found : ChunkInfo) (o : Output) {o' : Output}
    → is_large_riff w.layout ≡ false
    → o.position ≡ length o.bytes
    → rewrite_chunk w index found o ≡ ok o'
    → Grows o (growth w index found) o'
unfolding rewrite_chunk replace_chunk
rewrite_chunk-Grows w index found o small e =
    if-Grows (is_ixml_index w.layout index) (replace_chunk w (has_row found) o)
      (keep_chunk w found o) (extent w.replacement) (found.end - found.start)
      (write_replacement-Grows w.layout.endian (has_row found) w.replacement o e)
      (keep_chunk-Grows w found o small e)

-- By how much the chunks from an index on let the output grow, and whether one of them is replaced.
abbrev pub total_growth : Rewriting → ℕ → List ChunkInfo → ℕ
total_growth w index [] = 0
total_growth w index (found ∷ chunks) = growth w index found + total_growth w (index + 1) chunks

abbrev pub meets : Layout → ℕ → List ChunkInfo → Bool → Bool
meets l index [] replaced = replaced
meets l index (found ∷ chunks) replaced =
    meets l (index + 1) chunks (replaced || is_ixml_index l index)

Grows-trans : {o o' o'' : Output} {m n : ℕ} → Grows o m o' → Grows o' n o'' → Grows o (m + n) o''
Grows-trans (xs, x, h) (ys, y, k) =
    (xs ++ ys, omega (arith, length-append xs ys), Appended-trans h k)

pub rewrite_chunks-Grows :
    (w : Rewriting) (index : ℕ) (chunks : List ChunkInfo) (o : Output) (replaced : Bool)
    {o' : Output} {replaced' : Bool}
    → is_large_riff w.layout ≡ false
    → o.position ≡ length o.bytes
    → rewrite_chunks w index chunks o replaced ≡ ok (o', replaced')
    → Grows o (total_growth w index chunks) o' × (meets w.layout index chunks replaced ≡ replaced')
unfolding rewrite_chunks
rewrite_chunks-Grows w index [] o replaced {o'} small e k =
    let same : o ≡ o' = cc in (subst (λ z. Grows o 0 z) same ([], refl, stays_Appended o e), cc)
rewrite_chunks-Grows w index (found ∷ chunks) o replaced small e k =
    let (o1, f, g) =
      ok_bind (rewrite_chunk w index found o)
        (λ o1. rewrite_chunks w (index + 1) chunks o1 (replaced || is_ixml_index w.layout index))
        k in
    let (bs, n, h) = rewrite_chunk-Grows w index found o small e f in
    let (rest, met) =
      rewrite_chunks-Grows w (index + 1) chunks o1 (replaced || is_ixml_index w.layout index) small
        h.at_end g in
    (Grows-trans (bs, n, h) rest, met)
