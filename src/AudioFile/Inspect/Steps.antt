-- ===== src/AudioFile/Inspect/Steps.antt =====
-- What a round of the scan of `inspect` does when it succeeds.
use ara2_bridge.Base.{
  ℕ, true, false, Option, some, none, List, [], ◌∷◌, ◌++◌, length, ◌≡◌, refl, ◌+◌, ◌%◌, ◌≤◌, ◌<◌,
  ◌⊎◌, inl, inr, arith, Bool-cases, Option-cases,
}
use ara2_bridge.Base.Bytes.{take, drop, same_bytes}
use ara2_bridge.Errors.{ok, Result-cases}
use ara2_bridge.AudioFile.{ChunkInfo, max_container_chunks, id_ixml, decode_u32, read_exact}
use ara2_bridge.AudioFile.Inspect.{Container, Scan, read_chunk, note_ixml, chunk_size}

-- A chunk that starts at a position: its header, its payload and a byte of padding if that is odd.
abbrev pub StartsAt : ℕ → ChunkInfo → Type 0
StartsAt a found =
    (found.start ≡ a)
    × (found.data_start ≡ a + 8)
    × (found.end ≡ a + 8 + found.data_size + found.data_size % 2)

pub read_chunk-ok_inv :
    (c : Container) (s : Scan) {s' : Scan}
    → read_chunk c s ≡ ok s'
    → (found : ChunkInfo) × (s'.chunks ≡ s.chunks ++ found ∷ [])
      × StartsAt s.cursor found
      × (s'.cursor ≡ found.end)
      × (found.end ≤ c.declared_end)
      × (length s.chunks < max_container_chunks)
      × (note_ixml found.id (length s.chunks) s.ixml ≡ ok s'.ixml)
unfolding read_chunk
read_chunk-ok_inv c s {s'} e = elim (Result-cases (read_exact s.cursor 8 c.input)) [
  | inr (x, f) ↦ ground arith
  | inl (header, f) ↦
      let id : List ℕ = take 4 header in
      let raw : ℕ = decode_u32 c.endian (drop 4 header) in
      elim (Result-cases (chunk_size c id raw s.table_use)) [
        | inr (x, g) ↦ ground arith
        | inl (((size, row), used), g) ↦
            elim (Result-cases (note_ixml id (length s.chunks) s.ixml)) [
              | inr (x, n) ↦ ground arith
              | inl (ixml, n) ↦
                  let found : ChunkInfo = record {
                    id = id;
                    start = s.cursor;
                    data_start = s.cursor + 8;
                    data_size = size;
                    end = s.cursor + 8 + size + size % 2;
                    large_table_index = row;
                  } in
                  (
                    found,
                    ground arith,
                    (refl, refl, refl),
                    ground arith,
                    ground arith,
                    ground arith,
                    ground arith,
                  )
            ]
      ]
]

pub note_ixml-ok_inv :
    (id : List ℕ) (n : ℕ) (ixml : Option ℕ) {ixml' : Option ℕ}
    → note_ixml id n ixml ≡ ok ixml'
    → ((same_bytes id id_ixml ≡ true) × (ixml ≡ none) × (ixml' ≡ some n))
      ⊎ ((same_bytes id id_ixml ≡ false) × (ixml' ≡ ixml))
unfolding note_ixml
note_ixml-ok_inv id n ixml e = elim (Bool-cases (same_bytes id id_ixml)) [
  | inl t ↦ elim (Option-cases ixml) [
    | inl h ↦ inl (t, h, ground arith)
    | inr (i, h) ↦ ground arith
  ]
  | inr f ↦ inr (f, ground arith)
]
