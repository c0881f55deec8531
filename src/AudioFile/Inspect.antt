-- ===== src/AudioFile/Inspect.antt =====
-- `inspect` of ara2-bridge-core/src/audio_file/container.rs and the sizes of large containers.
pub mod Steps
pub mod Structure
pub mod Outcome
use ara2_bridge.Base.{
  ℕ, zero, suc, String, Bool, true, false, not, ◌&&◌, Option, some, none, List, [], ◌∷◌, ◌++◌,
  length, leb, ltb, set, map, if◌then◌else◌, ◌==◌, ◌+◌, ◌-◌, ◌*◌, ◌%◌,
}
use ara2_bridge.Base.Bytes.{u64_max, take, drop, from_le, same_bytes}
use ara2_bridge.Errors.{Result, ok, err, guard, ok_or, map_ok, ◌>>=◌, ◌>>◌}
use ara2_bridge.AudioFile.{
  AudioFileKind, wave, rf64, bw64, aiff, aifc, AudioFileError, io, ambiguous_ixml, size_overflow,
  unsupported_container, invalid, limit, Endian, little, big, ChunkInfo, Layout, is_large_kind,
  u32_max, max_container_chunks, max_ds64_table_entries, id_ixml, id_ds64, id_data, decode_u32,
  read_exact, wave64_riff_guid, id_riff, id_rf64, id_bw64, id_form, id_wave, id_aiff, id_aifc,
}

-- The sizes of a `ds64` chunk: of the data chunk, and by identifier.
pub record LargeSizes : Type 0 where
  pub data_bytes : ℕ
  pub table : List (List ℕ × ℕ)

abbrev pub no_sizes : LargeSizes
no_sizes = record { data_bytes = 0; table = [] }

-- The rows of the size table from a position on.
read_rows : ℕ → ℕ → List ℕ → Result AudioFileError (List (List ℕ × ℕ))
read_rows zero position input = ok []
read_rows (suc n) position input = do
  row ← read_exact position 12 input
  rows ← read_rows n (position + 12) input
  ok ((take 4 row, from_le (drop 4 row)) ∷ rows)

-- The declared end and the sizes; `usize_max` bounds the table's bytes.
unfoldable pub read_ds64 : ℕ → List ℕ → Result AudioFileError (ℕ × LargeSizes)
unfolding read_exact read_rows
read_ds64 usize_max input = do
  header ← read_exact 12 8 input
  guard (same_bytes (take 4 header) id_ds64) (invalid "RF64/BW64 must begin with ds64")
  let size = from_le (drop 4 header)
  guard (not (ltb size 28)) (invalid "ds64 payload is too short")
  guard (leb (20 + size) u64_max) size_overflow
  guard (not (ltb (length input) (20 + size))) (invalid "truncated ds64 payload")
  head ← read_exact 20 28 input
  let riff_size = from_le (take 8 head)
  let data_size = from_le (take 8 (drop 8 head))
  let table_len = from_le (take 4 (drop 24 head))
  guard (not (ltb max_ds64_table_entries table_len)) (limit "ds64 size-table entries")
  guard (leb table_len usize_max && leb (table_len * 12) usize_max) size_overflow
  guard (leb (28 + table_len * 12) usize_max) size_overflow
  guard (leb size usize_max) size_overflow
  guard (not (ltb size (28 + table_len * 12))) (invalid "truncated ds64 size table")
  table ← read_rows table_len 48 input
  guard (leb (riff_size + 8) u64_max) size_overflow
  ok (riff_size + 8, record { data_bytes = data_size; table = table })

-- The first row for an identifier that is not used yet, from an index on.
find_row : List ℕ → ℕ → List (List ℕ × ℕ) → List Bool → Option (ℕ × ℕ)
find_row id index [] used = none
find_row id index ((table_id, size) ∷ rows) [] = none
find_row id index ((table_id, size) ∷ rows) (u ∷ used) =
    let rest = find_row id (index + 1) rows used in
    if not u && same_bytes table_id id then some (size, index) else rest

-- The size of a chunk, the row that it took, and which rows are used then.
unfoldable pub resolve_large_size :
    List ℕ → LargeSizes → List Bool → Result AudioFileError ((ℕ × Option ℕ) × List Bool)
unfolding find_row
resolve_large_size id sizes used =
    if same_bytes id id_data
    then ok ((sizes.data_bytes, none), used)
    else elim (find_row id 0 sizes.table used) [
      | some (size, index) ↦ ok ((size, some index), set used index true)
      | none ↦ err (invalid "large chunk has no ds64 size-table entry")
    ]

-- The variables of the scan.
pub record Scan : Type 0 where
  pub chunks : List ChunkInfo
  pub cursor : ℕ
  pub ixml : Option ℕ
  pub table_use : List Bool

-- What stays fixed during a scan.
pub record Container : Type 0 where
  pub input : List ℕ
  pub kind : AudioFileKind
  pub endian : Endian
  pub declared_end : ℕ
  pub sizes : LargeSizes

unfoldable pub chunk_size :
    Container → List ℕ → ℕ → List Bool → Result AudioFileError ((ℕ × Option ℕ) × List Bool)
unfolding resolve_large_size
chunk_size c id raw_size used =
    if raw_size == u32_max
    then (if not (is_large_kind c.kind)
        then err (invalid "0xFFFFFFFF chunk size outside RF64/BW64")
        else resolve_large_size id c.sizes used)
    else ok ((raw_size, none), used)

-- The index of the iXML chunk after one more chunk; a second one is ambiguous.
unfoldable pub note_ixml : List ℕ → ℕ → Option ℕ → Result AudioFileError (Option ℕ)
note_ixml id index ixml =
    if same_bytes id id_ixml
    then elim ixml [ none ↦ ok (some index) | some _ ↦ err ambiguous_ixml ]
    else ok ixml

-- One round of the scan.
unfoldable pub read_chunk : Container → Scan → Result AudioFileError Scan
unfolding read_exact chunk_size note_ixml decode_u32
read_chunk c s = do
  guard (not (leb max_container_chunks (length s.chunks))) (limit "container chunk count")
  guard (not (ltb (c.declared_end - s.cursor) 8)) (invalid "truncated chunk header")
  header ← read_exact s.cursor 8 c.input
  let id = take 4 header
  let raw_size = decode_u32 c.endian (drop 4 header)
  ((data_size, large_table_index), used) ← chunk_size c id raw_size s.table_use
  let data_start = s.cursor + 8
  let end = data_start + data_size + data_size % 2
  guard (leb end u64_max) size_overflow
  guard (not (ltb c.declared_end end)) (invalid "chunk extends beyond the container")
  ixml ← note_ixml id (length s.chunks) s.ixml
  let found : ChunkInfo = record {
    id = id;
    start = s.cursor;
    data_start = data_start;
    data_size = data_size;
    end = end;
    large_table_index = large_table_index;
  }
  ok (record { chunks = s.chunks ++ found ∷ []; cursor = end; ixml = ixml; table_use = used })

-- The scan on fuel; `none` means that the fuel ran out.
unfoldable pub scan : ℕ → Container → Scan → Option (Result AudioFileError Scan)
scan zero c s = none
scan (suc fuel) c s = elim (ltb s.cursor c.declared_end) [
  | false ↦ some (ok s)
  | true ↦ elim (read_chunk c s) [ err e ↦ some (err e) | ok s' ↦ scan fuel c s' ]
]

-- The container family that a signature and a form name.
unfoldable pub identify : List ℕ → List ℕ → Option (AudioFileKind × Endian)
identify signature form =
    if same_bytes signature id_riff && same_bytes form id_wave
    then some (wave, little)
    else (if same_bytes signature id_rf64 && same_bytes form id_wave
        then some (rf64, little)
        else (if same_bytes signature id_bw64 && same_bytes form id_wave
            then some (bw64, little)
            else (if same_bytes signature id_form && same_bytes form id_aiff
                then some (aiff, big)
                else (if same_bytes signature id_form && same_bytes form id_aifc
                    then some (aifc, big)
                    else none))))

-- The declared end and the large sizes.
unfoldable pub outer_size : ℕ → AudioFileKind → ℕ → List ℕ → Result AudioFileError (ℕ × LargeSizes)
unfolding read_ds64
outer_size usize_max kind raw_outer input =
    if is_large_kind kind
    then (if not (raw_outer == u32_max)
        then err (invalid "RF64/BW64 outer size is not 0xFFFFFFFF")
        else read_ds64 usize_max input)
    else ok (raw_outer + 8, no_sizes)

-- The first bytes of the stream, at most 16.
unfoldable pub read_prefix : List ℕ → Result AudioFileError (List ℕ)
unfolding read_exact
read_prefix input = do
  let prefix_len = if ltb (length input) 16 then length input else 16
  prefix ← read_exact 0 prefix_len input
  guard (not (prefix_len == 16 && same_bytes prefix wave64_riff_guid))
      (unsupported_container "Wave64")
  guard (not (ltb (length input) 12)) (invalid "file is shorter than a container header")
  ok prefix

-- The container, its signature and its form, from the first bytes.
unfoldable pub opened : ℕ → List ℕ → List ℕ → Result AudioFileError (Container × (List ℕ × List ℕ))
opened usize_max input prefix = do
  let signature = take 4 prefix
  let form = take 4 (drop 8 prefix)
  (kind, endian) ← ok_or (identify signature form) (unsupported_container "unknown")
  let raw_outer = decode_u32 endian (take 4 (drop 4 prefix))
  (declared_end, sizes) ← outer_size usize_max kind raw_outer input
  guard (declared_end == length input) (invalid "declared container size does not match the stream")
  let container : Container = record {
    input = input;
    kind = kind;
    endian = endian;
    declared_end = declared_end;
    sizes = sizes;
  }
  ok (container, (signature, form))

-- What `inspect` does before its loop.
unfoldable pub open_container : ℕ → List ℕ → Result AudioFileError (Container × (List ℕ × List ℕ))
open_container usize_max input = read_prefix input >>= opened usize_max input

unfoldable pub all_unused : List (List ℕ × ℕ) → List Bool
all_unused rows = map (λ _. false) rows

-- The scan starts after the form.
unfoldable pub first_scan : Container → Scan
unfolding all_unused
first_scan c = record {
  chunks = [];
  cursor = 12;
  ixml = none;
  table_use = all_unused c.sizes.table;
}

-- The fuel is one round for each chunk that is allowed, and one that refuses the next.
abbrev pub rounds : ℕ
rounds = max_container_chunks + 1

abbrev pub to_layout : Container → List ℕ × List ℕ → Scan → Layout
to_layout c (signature, form) s = record {
  kind = c.kind;
  endian = c.endian;
  signature = signature;
  form = form;
  file_len = length c.input;
  chunks = s.chunks;
  ixml = s.ixml;
}

unfoldable pub with_layout :
    Container
    → List ℕ × List ℕ
    → Option (Result AudioFileError Scan)
    → Option (Result AudioFileError Layout)
with_layout c names none = none
with_layout c names (some r) = some (map_ok (to_layout c names) r)

unfoldable pub inspect_from :
    Result AudioFileError (Container × (List ℕ × List ℕ)) → Option (Result AudioFileError Layout)
unfolding first_scan scan with_layout
inspect_from (err e) = some (err e)
inspect_from (ok (c, names)) = with_layout c names (scan rounds c (first_scan c))

unfoldable pub inspect : ℕ → List ℕ → Option (Result AudioFileError Layout)
unfolding open_container read_prefix opened identify outer_size decode_u32 inspect_from read_chunk
inspect usize_max input = inspect_from (open_container usize_max input)
