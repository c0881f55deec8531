-- ===== src/AudioFile/Inspect/Structure.antt =====
-- What `inspect` promises of the chunks that it returns.
use ara2_bridge.Base.{
  ℕ, zero, suc, true, false, Option, some, List, [], ◌∷◌, ◌++◌, length, ltb, get_elem?, ◌≡◌, refl,
  sym, ◌∙◌, ap, ◌+◌, ◌≤◌, ◌<◌, inl, inr, ◌↔◌, arith, length-append, get_elem?-lt,
  get_elem?-append_left, get_elem?-append_end, subst, Bool-cases, ltb→lt,
}
use ara2_bridge.Base.Bytes.{same_bytes}
use ara2_bridge.Errors.{Result, ok, err, Result-cases}
use ara2_bridge.AudioFile.{AudioFileError, ChunkInfo, max_container_chunks, id_ixml}
use ara2_bridge.AudioFile.Inspect.{Container, Scan, read_chunk, note_ixml, scan}
use ara2_bridge.AudioFile.Inspect.Steps.{StartsAt, read_chunk-ok_inv, note_ixml-ok_inv}

-- The chunks follow each other from one position to another, without gap or overlap.
abbrev pub Tiles : ℕ → List ChunkInfo → ℕ → Type 0
Tiles a [] b = a ≡ b
Tiles a (found ∷ chunks) b = StartsAt a found × Tiles found.end chunks b

-- Exactly the chunk at the marked index is an iXML chunk.
abbrev pub Marks : List ChunkInfo → Option ℕ → Type 0
Marks chunks ixml =
    (j : ℕ) (found : ChunkInfo)
    → get_elem? chunks j ≡ some found
    → (same_bytes found.id id_ixml ≡ true) ↔ (ixml ≡ some j)

-- The marked index is one of a chunk.
abbrev pub Within : List ChunkInfo → Option ℕ → Type 0
Within chunks ixml = (j : ℕ) → ixml ≡ some j → j < length chunks

Tiles-snoc :
    (a : ℕ) (chunks : List ChunkInfo) (found : ChunkInfo) {b : ℕ}
    → Tiles a chunks b
    → StartsAt b found
    → Tiles a (chunks ++ found ∷ []) found.end
Tiles-snoc a [] found tiles starts = (subst (λ x. StartsAt x found) (sym tiles) starts, refl)
Tiles-snoc a (first ∷ chunks) found (here, tiles) starts =
    (here, Tiles-snoc first.end chunks found tiles starts)

Marks-snoc :
    (chunks : List ChunkInfo) (found : ChunkInfo) (ixml : Option ℕ) {ixml' : Option ℕ}
    → Marks chunks ixml
    → Within chunks ixml
    → note_ixml found.id (length chunks) ixml ≡ ok ixml'
    → Marks (chunks ++ found ∷ []) ixml'
Marks-snoc chunks found ixml {ixml'} marks within noted j x at =
    let n : length (chunks ++ found ∷ []) ≡ length chunks + 1 = length-append chunks (found ∷ []) in
    let j_lt = get_elem?-lt (chunks ++ found ∷ []) j at in
    let last = get_elem?-append_end chunks found in
    elim (Bool-cases (ltb j (length chunks))) [
      | inl old ↦
          let here = sym (get_elem?-append_left chunks (found ∷ []) j (ltb→lt _ _ old)) ∙ at in
          let (to, from) = marks j x here in
          elim (note_ixml-ok_inv found.id (length chunks) ixml noted) [
            | inl (_, h, f) ↦ (λ t. let g = to t in cc, λ g. ground arith)
            | inr (_, f) ↦ (λ t. f ∙ to t, λ g. from (sym f ∙ g))
          ]
      | inr new ↦
          let j_eq : length chunks ≡ j = ground arith in
          let same : some found ≡ some x =
            sym last ∙ ap (get_elem? (chunks ++ found ∷ [])) j_eq ∙ at in
          let same_id : found.id ≡ x.id = cc in
          elim (note_ixml-ok_inv found.id (length chunks) ixml noted) [
            | inl (t, _, f) ↦
                (λ _. f ∙ ap some j_eq, λ _. subst (λ i. same_bytes i id_ixml ≡ true) same_id t)
            | inr (t, f) ↦ (
              λ g. ground arith,
              λ g.
                  let old = within j (sym f ∙ g) in
                  let none_left : ⊥ = omega arith in absurd none_left,
            )
          ]
    ]

Within-snoc :
    (chunks : List ChunkInfo) (found : ChunkInfo) (ixml : Option ℕ) {ixml' : Option ℕ}
    → Within chunks ixml
    → note_ixml found.id (length chunks) ixml ≡ ok ixml'
    → Within (chunks ++ found ∷ []) ixml'
Within-snoc chunks found ixml {ixml'} within noted j e =
    let n : length (chunks ++ found ∷ []) ≡ length chunks + 1 = length-append chunks (found ∷ []) in
    elim (note_ixml-ok_inv found.id (length chunks) ixml noted) [
      | inl (_, _, f) ↦ ground arith
      | inr (_, f) ↦ let old = within j (sym f ∙ e) in omega arith
    ]

-- What holds before and after every round.
pub record Scanned (c : Container) (s : Scan) : Type 0 where
  pub tiles : Tiles 12 s.chunks s.cursor
  pub inside : s.cursor ≤ c.declared_end
  pub few : length s.chunks ≤ max_container_chunks
  pub marks : Marks s.chunks s.ixml
  pub within : Within s.chunks s.ixml

read_chunk-Scanned :
    (c : Container) (s : Scan) {s' : Scan}
    → read_chunk c s ≡ ok s'
    → Scanned c s
    → Scanned c s' × (length s'.chunks ≡ length s.chunks + 1)
read_chunk-Scanned c s {s'} e h =
    let (found, chunks, starts, cursor, inside, few, noted) = read_chunk-ok_inv c s e in
    let n : length (s.chunks ++ found ∷ []) ≡ length s.chunks + 1 =
      length-append s.chunks (found ∷ []) in
    let grown : length s'.chunks ≡ length s.chunks + 1 = ap length chunks ∙ n in
    (
      record {
        tiles =
            subst (λ l. Tiles 12 l s'.cursor) (sym chunks)
              (subst (λ b. Tiles 12 (s.chunks ++ found ∷ []) b) (sym cursor)
                (Tiles-snoc 12 s.chunks found h.tiles starts));
        inside = omega arith;
        few = omega arith;
        marks =
            subst (λ l. Marks l s'.ixml) (sym chunks)
              (Marks-snoc s.chunks found s.ixml h.marks h.within noted);
        within =
            subst (λ l. Within l s'.ixml) (sym chunks)
              (Within-snoc s.chunks found s.ixml h.within noted);
      },
      grown,
    )

scan-done :
    (fuel : ℕ) (c : Container) (s : Scan)
    → ltb s.cursor c.declared_end ≡ false
    → scan (suc fuel) c s ≡ some (ok s)
unfolding scan
scan-done fuel c s e = ground arith

scan-refused :
    (fuel : ℕ) (c : Container) (s : Scan) {x : AudioFileError}
    → ltb s.cursor c.declared_end ≡ true
    → read_chunk c s ≡ err x
    → scan (suc fuel) c s ≡ some (err x)
unfolding scan
scan-refused fuel c s e f = ground arith

scan-more :
    (fuel : ℕ) (c : Container) (s : Scan) {s' : Scan}
    → ltb s.cursor c.declared_end ≡ true
    → read_chunk c s ≡ ok s'
    → scan (suc fuel) c s ≡ scan fuel c s'
unfolding scan
scan-more fuel c s e f = ground arith

-- A scan with fuel for the chunks that are left to find ends, and what it finds is well-formed.
pub scan-ends :
    (fuel : ℕ) (c : Container) (s : Scan)
    → Scanned c s
    → max_container_chunks < fuel + length s.chunks
    → (r : Result AudioFileError Scan) × (scan fuel c s ≡ some r)
      × ((s' : Scan) → r ≡ ok s' → Scanned c s' × (s'.cursor ≡ c.declared_end))
scan-ends zero c s h fuel = let few = h.few in absurd (omega arith)
scan-ends (suc fuel) c s h enough = elim (Bool-cases (ltb s.cursor c.declared_end)) [
  | inr done ↦ (
    ok s,
    scan-done fuel c s done,
    λ s' e.
        let same : s ≡ s' = cc in
        let inside = h.inside in
        let reached : s.cursor ≡ c.declared_end = ground arith in
        subst (λ z. Scanned c z × (z.cursor ≡ c.declared_end)) same (h, reached),
  )
  | inl more ↦ elim (Result-cases (read_chunk c s)) [
    | inr (x, e) ↦ (err x, scan-refused fuel c s more e, λ s' f. cc)
    | inl (s', e) ↦
        let (h', n) = read_chunk-Scanned c s e h in
        let (r, ends, good) = scan-ends fuel c s' h' (omega arith) in
        (r, scan-more fuel c s more e ∙ ends, good)
  ]
]

Tiles-le : (a : ℕ) (chunks : List ChunkInfo) {b : ℕ} → Tiles a chunks b → a ≤ b
Tiles-le a [] tiles = omega arith
Tiles-le a (found ∷ chunks) ((_, _, e), tiles) = omega (arith, Tiles-le found.end chunks tiles)

-- A chunk's payload follows its header and lies before the end.
pub Tiles-inside :
    (a : ℕ) (chunks : List ChunkInfo) (i : ℕ) {b : ℕ} {found : ChunkInfo}
    → Tiles a chunks b
    → get_elem? chunks i ≡ some found
    → (a + 8 ≤ found.data_start)
      × (found.data_start + found.data_size ≤ found.end)
      × (found.end ≤ b)
Tiles-inside a [] i tiles e = cc
Tiles-inside a (first ∷ chunks) zero {b} {found} ((_, x, y), tiles) e =
    let same : first ≡ found = cc in
    let later = Tiles-le first.end chunks tiles in
    subst (λ z. (a + 8 ≤ z.data_start) × (z.data_start + z.data_size ≤ z.end) × (z.end ≤ b)) same
      (omega arith, omega arith, later)
Tiles-inside a (first ∷ chunks) (suc i) ((_, x, y), tiles) e =
    let (p, q, r) = Tiles-inside first.end chunks i tiles e in (omega arith, q, r)
