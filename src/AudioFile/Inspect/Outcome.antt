-- ===== src/AudioFile/Inspect/Outcome.antt =====
-- `inspect` ends, and what it returns describes the whole stream.
use ara2_bridge.Base.{
  ℕ, suc, true, false, Option, some, List, [], ◌∷◌, length, ◌≡◌, refl, sym, ◌∙◌, ap, ◌≤◌, inl, inr,
  arith, subst, Bool-cases, Option-cases, ◌&&◌, if◌then◌else◌,
}
use ara2_bridge.Base.Bytes.{take, drop, same_bytes}
use ara2_bridge.Errors.{Result, ok, err, Result-cases, map_ok, ok_bind, map_ok-ok_inv}
use ara2_bridge.AudioFile.{
  AudioFileError, AudioFileKind, Endian, Layout, max_container_chunks, decode_u32, id_riff, id_rf64,
  id_bw64, id_form, id_wave, id_aiff, id_aifc,
}
use ara2_bridge.AudioFile.Inspect.{
  Container, Scan, identify, outer_size, inspect, first_scan, opened, open_container, inspect_from,
  with_layout, read_prefix, rounds, to_layout,
}
use ara2_bridge.AudioFile.Inspect.Structure.{Scanned, Tiles, Marks, Within, scan-ends}

read_prefix-ok_inv :
    (input : List ℕ) {bytes : List ℕ} → read_prefix input ≡ ok bytes → 12 ≤ length input
unfolding read_prefix
read_prefix-ok_inv input e = ground arith

same_bytes-length : (xs ys : List ℕ) → same_bytes xs ys ≡ true → length xs ≡ length ys
same_bytes-length [] [] e = refl
same_bytes-length [] (y ∷ ys) e = cc
same_bytes-length (x ∷ xs) [] e = cc
same_bytes-length (x ∷ xs) (y ∷ ys) e = ap suc (same_bytes-length xs ys (ground arith))

both-length :
    (s f s' f' : List ℕ)
    → (same_bytes s s' && same_bytes f f') ≡ true
    → (length s ≡ length s') × (length f ≡ length f')
both-length s f s' f' e = elim (Bool-cases (same_bytes s s')) [
  | inl x ↦ (
    same_bytes-length s s' x,
    same_bytes-length f f' (sym (ap (λ b. b && same_bytes f f') x) ∙ e),
  )
  | inr x ↦ let no : false ≡ true = sym (ap (λ b. b && same_bytes f f') x) ∙ e in cc
]

-- One of the tests of `identify`.
one_of :
    (s f s' f' : List ℕ) (r : AudioFileKind × Endian) (rest : Option (AudioFileKind × Endian))
    {x : AudioFileKind × Endian} {P : Type 0}
    → ((length s ≡ length s') × (length f ≡ length f') → P)
    → (rest ≡ some x → P)
    → (if same_bytes s s' && same_bytes f f' then some r else rest) ≡ some x
    → P
one_of s f s' f' r rest {x} hit miss e = elim (Bool-cases (same_bytes s s' && same_bytes f f')) [
  | inl t ↦ hit (both-length s f s' f' t)
  | inr t ↦ miss (sym (ap (λ b. if b then some r else rest) t) ∙ e)
]

identify-length :
    (s f : List ℕ) {x : AudioFileKind × Endian}
    → identify s f ≡ some x
    → (length s ≡ 4) × (length f ≡ 4)
unfolding identify
identify-length s f =
    one_of s f id_riff id_wave _ _ (λ h. h)
      (one_of s f id_rf64 id_wave _ _ (λ h. h)
        (one_of s f id_bw64 id_wave _ _ (λ h. h)
          (one_of s f id_form id_aiff _ _ (λ h. h)
            (one_of s f id_form id_aifc _ _ (λ h. h) (λ e. cc)))))

-- A signature and a form have four bytes each.
abbrev pub FourEach : List ℕ × List ℕ → Type 0
FourEach (signature, form) = (length signature ≡ 4) × (length form ≡ 4)

opened-ok_inv :
    (usize_max : ℕ) (input bytes : List ℕ) {c : Container} {names : List ℕ × List ℕ}
    → opened usize_max input bytes ≡ ok (c, names)
    → (c.input ≡ input) × (c.declared_end ≡ length input) × FourEach names
unfolding opened
opened-ok_inv usize_max input bytes {c} {names} e =
    elim (Option-cases (identify (take 4 bytes) (take 4 (drop 8 bytes)))) [
      | inl g ↦ ground arith
      | inr ((kind, endian), g) ↦
          let raw : ℕ = decode_u32 endian (take 4 (drop 4 bytes)) in
          elim (Result-cases (outer_size usize_max kind raw input)) [
            | inr (x, k) ↦ ground arith
            | inl ((declared, sizes), k) ↦
                let named : (take 4 bytes, take 4 (drop 8 bytes)) ≡ names = ground arith in
                (ground arith, ground arith, subst FourEach named (identify-length _ _ g))
          ]
    ]

open_container-ok_inv :
    (usize_max : ℕ) (input : List ℕ) {c : Container} {names : List ℕ × List ℕ}
    → open_container usize_max input ≡ ok (c, names)
    → (c.input ≡ input) × (c.declared_end ≡ length input) × (12 ≤ length input) × FourEach names
unfolding open_container
open_container-ok_inv usize_max input e =
    let (bytes, f, g) = ok_bind (read_prefix input) (opened usize_max input) e in
    let (same, declared, four) = opened-ok_inv usize_max input bytes g in
    (same, declared, read_prefix-ok_inv input f, four)

first_scan-Scanned : (c : Container) → 12 ≤ c.declared_end → Scanned c (first_scan c)
unfolding first_scan
first_scan-Scanned c h = record {
  tiles = refl;
  inside = h;
  few = omega arith;
  marks = λ j found e. cc;
  within = λ j e. cc;
}

-- What the scan of an opened container gives.
open_container-scan :
    (usize_max : ℕ) (input : List ℕ) {c : Container} {names : List ℕ × List ℕ}
    → open_container usize_max input ≡ ok (c, names)
    → (r : Result AudioFileError Scan) × (inspect usize_max input
        ≡ some (map_ok (to_layout c names) r))
      × ((s : Scan) → r ≡ ok s → Scanned c s × (s.cursor ≡ c.declared_end))
unfolding inspect inspect_from with_layout
open_container-scan usize_max input {c} {names} e =
    let (_, declared, long, _) = open_container-ok_inv usize_max input e in
    let start = first_scan-Scanned c (omega arith) in
    let (r, ends, good) = scan-ends rounds c (first_scan c) start (omega arith) in
    (r, ap inspect_from e ∙ ap (with_layout c names) ends, good)

-- The inspection of any stream ends, with a layout or with an error.
pub inspect-ends :
    (usize_max : ℕ) (input : List ℕ)
    → (r : Result AudioFileError Layout) × (inspect usize_max input ≡ some r)
unfolding inspect inspect_from
inspect-ends usize_max input = elim (Result-cases (open_container usize_max input)) [
  | inr (x, e) ↦ (err x, ap inspect_from e)
  | inl ((c, names), e) ↦
      let (r, ends, _) = open_container-scan usize_max input e in
      (map_ok (to_layout c names) r, ends)
]

-- When an inspection succeeds, the layout has the stream's length, the chunks follow each other
-- from position 12 to the end of the stream, they are at most as many as is allowed, and exactly
-- the chunk at the layout's iXML index, if it has one, is an iXML chunk; the signature and the form
-- have four bytes each.
pub inspect-Tiles :
    (usize_max : ℕ) (input : List ℕ) {l : Layout}
    → inspect usize_max input ≡ some (ok l)
    → (l.file_len ≡ length input)
      × Tiles 12 l.chunks (length input)
      × (length l.chunks ≤ max_container_chunks)
      × Marks l.chunks l.ixml
      × Within l.chunks l.ixml
      × FourEach (l.signature, l.form)
unfolding inspect inspect_from
inspect-Tiles usize_max input {l} e = elim (Result-cases (open_container usize_max input)) [
  | inr (x, f) ↦ let refused : some (err x) ≡ some (ok l) = sym (ap inspect_from f) ∙ e in cc
  | inl ((c, names), f) ↦
      let (same, declared, _, four) = open_container-ok_inv usize_max input f in
      let (r, ends, good) = open_container-scan usize_max input f in
      let given : some (map_ok (to_layout c names) r) ≡ some (ok l) = sym ends ∙ e in
      let (s, g, found) = map_ok-ok_inv (to_layout c names) r {b = l} cc in
      let (h, reached) = good s g in
      subst
        (λ z.
          (z.file_len ≡ length input)
          × Tiles 12 z.chunks (length input)
          × (length z.chunks ≤ max_container_chunks)
          × Marks z.chunks z.ixml
          × Within z.chunks z.ixml
          × FourEach (z.signature, z.form))
        found
        (
          ap length same,
          subst (λ b. Tiles 12 s.chunks b) (reached ∙ declared) h.tiles,
          h.few,
          h.marks,
          h.within,
          four,
        )
]
