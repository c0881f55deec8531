-- ===== src/AudioFile/Rewrite/Declared.antt =====
-- A container that is not large declares its own length after `rewrite_ixml`.
use ara2_bridge.Base.{
  ℕ, Option, some, none, List, [], ◌++◌, length, get_elem?, Bool, true, false, if◌then◌else◌, ◌≡◌,
  refl, sym, ◌∙◌, ap, ◌+◌, ◌≤◌, ◌<◌, arith, subst, inl, inr, Option-cases, length-append,
  get_elem?-none,
}
use ara2_bridge.Base.Bytes.{to_le}
use ara2_bridge.Errors.{ok, Result-cases, ok_bind}
use ara2_bridge.AudioFile.{Layout, encode_u32, is_large_riff, u32_max}
use ara2_bridge.AudioFile.Inspect.{inspect}
use ara2_bridge.AudioFile.Inspect.Structure.{Tiles}
use ara2_bridge.AudioFile.Inspect.Outcome.{inspect-Tiles}
use ara2_bridge.AudioFile.Rewrite.{
  Output, Rewriting, fresh, ixml_chunk, after_inspect, chunk_extent, old_extent, replacement_extent,
  new_outer_size, write_header, append_chunk, replace_chunk, rewrite_chunks, rewrite_layout,
  rewrite_ixml, write_all, is_index,
}
use ara2_bridge.AudioFile.Rewrite.Appends.{
  Appended, Appended-trans, write_all-Appended, stays_Appended, length-encode_u32,
}
use ara2_bridge.AudioFile.Rewrite.Length.{
  Grows, extent, total_growth, meets, rewrite_chunks-Grows, write_replacement-Grows,
}
use ara2_bridge.AudioFile.Rewrite.Payload.{ixml_chunk-at}
use ara2_bridge.AudioFile.Rewrite.Sums.{sum_kept, sum_replaced}

chunk_extent-ok_inv : (xml : List ℕ) {n : ℕ} → chunk_extent xml ≡ ok n → n ≡ extent (some xml)
unfolding chunk_extent
chunk_extent-ok_inv xml e = ground arith

replacement_extent-ok_inv :
    (replacement : Option (List ℕ)) {n : ℕ}
    → replacement_extent replacement ≡ ok n
    → n ≡ extent replacement
unfolding replacement_extent
replacement_extent-ok_inv none e = cc
replacement_extent-ok_inv (some xml) e = chunk_extent-ok_inv xml e

new_outer_size-ok_inv :
    (l : Layout) (replacement : Option (List ℕ)) {n : ℕ}
    → is_large_riff l ≡ false
    → new_outer_size l replacement ≡ ok n
    → (n + 8 + old_extent (ixml_chunk l) ≡ l.file_len + extent replacement) × (n ≤ u32_max)
unfolding new_outer_size
new_outer_size-ok_inv l replacement small e = elim (Result-cases (replacement_extent replacement)) [
  | inr (x, f) ↦ ground arith
  | inl (r, f) ↦ let size = replacement_extent-ok_inv replacement f in (ground arith, ground arith)
]

-- The header of a container.
abbrev pub header_bytes : Layout → ℕ → List ℕ
header_bytes l outer_size = (l.signature ++ encode_u32 l.endian outer_size) ++ l.form

length-header_bytes :
    (l : Layout) (n : ℕ)
    → length l.signature ≡ 4
    → length l.form ≡ 4
    → length (header_bytes l n) ≡ 12
length-header_bytes l n x y = omega (
  arith,
  length-append (l.signature ++ encode_u32 l.endian n) l.form,
  length-append l.signature (encode_u32 l.endian n),
  length-encode_u32 l.endian n,
)

write_header-Appended :
    (l : Layout) (n : ℕ)
    → is_large_riff l ≡ false
    → Appended fresh (header_bytes l n) (write_header l n fresh)
unfolding write_header
write_header-Appended l n small =
    let size : List ℕ = encode_u32 l.endian n in
    let sized : size ≡ (if is_large_riff l then to_le 4 u32_max else size) =
      sym (ap (λ b. if b then to_le 4 u32_max else size) small) in
    let h1 = write_all-Appended l.signature fresh refl in
    let h2 = write_all-Appended size (write_all l.signature fresh) h1.at_end in
    let h3 = write_all-Appended l.form (write_all size (write_all l.signature fresh)) h2.at_end in
    subst
      (λ z.
        Appended fresh (header_bytes l n)
          (write_all l.form (write_all z (write_all l.signature fresh))))
      sized (Appended-trans (Appended-trans h1 h2) h3)

append_chunk-Grows :
    (w : Rewriting) (o : Output) (replaced : Bool) {o' : Output}
    → o.position ≡ length o.bytes
    → append_chunk w (o, replaced) ≡ ok o'
    → Grows o (if replaced then 0 else extent w.replacement) o'
unfolding append_chunk replace_chunk
append_chunk-Grows w o true {o'} e k =
    let same : o ≡ o' = cc in subst (λ z. Grows o 0 z) same ([], refl, stays_Appended o e)
append_chunk-Grows w o false e k = write_replacement-Grows w.layout.endian false w.replacement o e k

ixml_chunk-none : (l : Layout) → l.ixml ≡ none → ixml_chunk l ≡ none
unfolding ixml_chunk
ixml_chunk-none l e = rw e refl

-- The bytes after the header, with those of the replaced chunk, make up the old body and the new
-- payload.
body_sum :
    (w : Rewriting) (b : ℕ) (replaced : Bool)
    → Tiles 12 w.layout.chunks b
    → ((j : ℕ) → w.layout.ixml ≡ some j → j < length w.layout.chunks)
    → meets w.layout 0 w.layout.chunks false ≡ replaced
    → 12
        + total_growth w 0 w.layout.chunks
        + (if replaced then 0 else extent w.replacement)
        + old_extent (ixml_chunk w.layout)
      ≡ b + extent w.replacement
body_sum w b replaced tiles within met = elim (Option-cases w.layout.ixml) [
  | inl f ↦
      let (sum, same) =
        sum_kept w 12 0 w.layout.chunks false tiles (λ j h. ap (λ o. is_index o j) f) in
      let late : (if replaced then 0 else extent w.replacement) ≡ extent w.replacement =
        ap (λ b. if b then 0 else extent w.replacement) (sym met ∙ same) in
      let old = ap old_extent (ixml_chunk-none w.layout f) in omega arith
  | inr (i, f) ↦ elim (Option-cases (get_elem? w.layout.chunks i)) [
    | inl g ↦
        let far = get_elem?-none w.layout.chunks i g in
        let near = within i f in absurd (omega arith)
    | inr (found, g) ↦
        let shifted : i ≡ 0 + i = omega arith in
        let (sum, same) =
          sum_replaced w 12 0 i w.layout.chunks false b found tiles (f ∙ ap some shifted) g in
        let late : (if replaced then 0 else extent w.replacement) ≡ 0 =
          ap (λ b. if b then 0 else extent w.replacement) (sym met ∙ same) in
        let old = ap old_extent (ixml_chunk-at w.layout found f g) in omega arith
  ]
]

rewrite_layout-Declared :
    (input : List ℕ) (replacement : Option (List ℕ)) (l : Layout) {o : Output}
    → is_large_riff l ≡ false
    → Tiles 12 l.chunks l.file_len
    → ((j : ℕ) → l.ixml ≡ some j → j < length l.chunks)
    → (length l.signature ≡ 4) × (length l.form ≡ 4)
    → rewrite_layout input replacement l ≡ ok o
    → (outer_size : ℕ) × (body : List ℕ) × (o.bytes ≡ header_bytes l outer_size ++ body)
      × (length o.bytes ≡ 8 + outer_size)
      × (outer_size ≤ u32_max)
unfolding rewrite_layout
rewrite_layout-Declared input replacement l {o} small tiles within (n1, n2) e =
    let (n, f, e) = ok_bind (new_outer_size l replacement) _ e in
    let ((o1, replaced), g, h) =
      ok_bind (rewrite_chunks _ 0 l.chunks (write_header l n fresh) false) _ e in
    let w : Rewriting = record {
      layout = l;
      input = input;
      replacement = replacement;
      outer_size = n;
    } in
    let (sized, bounded) = new_outer_size-ok_inv l replacement small f in
    let header = write_header-Appended l n small in
    let ((xs, x, k), met) =
      rewrite_chunks-Grows w 0 l.chunks (write_header l n fresh) false small header.at_end g in
    let (ys, y, m) = append_chunk-Grows w o1 replaced k.at_end h in
    let sum = body_sum w l.file_len replaced tiles within met in
    let all = Appended-trans header (Appended-trans k m) in
    let total = ap length all.bytes ∙ length-append (header_bytes l n) (xs ++ ys) in
    let head = length-header_bytes l n n1 n2 in
    let body = length-append xs ys in (n, xs ++ ys, all.bytes, omega arith, bounded)

-- When a container that is not large is rewritten with success, the result is a header and a body,
-- the header has the old signature and form, and its size field, within 32 bits, is the length of
-- the result less 8.
pub rewrite_ixml-Declared :
    (usize_max : ℕ) (input : List ℕ) (replacement : Option (List ℕ)) {l : Layout} {o : Output}
    → inspect usize_max input ≡ some (ok l)
    → is_large_riff l ≡ false
    → rewrite_ixml usize_max input replacement ≡ some (ok o)
    → (outer_size : ℕ) × (body : List ℕ) × (o.bytes ≡ header_bytes l outer_size ++ body)
      × (length o.bytes ≡ 8 + outer_size)
      × (outer_size ≤ u32_max)
unfolding rewrite_ixml after_inspect
rewrite_ixml-Declared usize_max input replacement {l} {o} e small r =
    let (len, tiles, _, _, within, four) = inspect-Tiles usize_max input e in
    let done : some (rewrite_layout input replacement l) ≡ some (ok o) =
      sym (ap (after_inspect (rewrite_layout input replacement)) e) ∙ r in
    let same : rewrite_layout input replacement l ≡ ok o = cc in
    rewrite_layout-Declared input replacement l small
      (subst (λ b. Tiles 12 l.chunks b) (sym len) tiles) within four same
