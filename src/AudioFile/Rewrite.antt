-- ===== src/AudioFile/Rewrite.antt =====
-- `read_ixml_with_limit` and `rewrite_ixml` of ara2-bridge-core/src/audio_file/container.rs.
-- The output is a stream in memory that starts empty, and a result has it when all went well.
pub mod Appends
pub mod Payload
pub mod Length
pub mod Sums
pub mod Declared
use ara2_bridge.Base.{
  ℕ, suc, Bool, true, false, not, ◌&&◌, ◌||◌, Option, some, none, List, [], ◌∷◌, ◌++◌, length, leb,
  ltb, get_elem?, if◌then◌else◌, ◌==◌, ◌+◌, ◌-◌, ◌*◌, ◌%◌,
}
use ara2_bridge.Base.Bytes.{u64_max, take, drop, to_le, same_bytes, copy_at, grow}
use ara2_bridge.Errors.{Result, ok, err, guard, map_ok, ◌>>=◌, ◌>>◌}
use ara2_bridge.AudioFile.{
  AudioFileError, size_overflow, invalid, limit, Endian, ChunkInfo, Layout, is_large_riff, u32_max,
  id_ixml, id_ds64, encode_u32, read_exact,
}
use ara2_bridge.AudioFile.Inspect.{inspect}

-- The chunk at the layout's iXML index, which `inspect` keeps in range.
unfoldable pub ixml_chunk : Layout → Option ChunkInfo
ixml_chunk l = elim l.ixml [ none ↦ none | some index ↦ get_elem? l.chunks index ]

unfoldable pub read_payload :
    ℕ → ℕ → List ℕ → Option ChunkInfo → Result AudioFileError (Option (List ℕ))
unfolding read_exact
read_payload usize_max max_xml_bytes input none = ok none
read_payload usize_max max_xml_bytes input (some found) = do
  guard (leb found.data_size usize_max) size_overflow
  guard (not (ltb max_xml_bytes found.data_size)) (limit "iXML payload")
  payload ← read_exact found.data_start found.data_size input
  ok (some payload)

-- What an inspection is followed by.
unfoldable pub after_inspect :
    {A : Type 0}
    → (Layout → Result AudioFileError A)
    → Option (Result AudioFileError Layout)
    → Option (Result AudioFileError A)
after_inspect f none = none
after_inspect f (some r) = some (r >>= f)

unfoldable pub read_ixml_with_limit :
    ℕ → ℕ → List ℕ → Option (Result AudioFileError (Option (List ℕ)))
unfolding ixml_chunk read_payload inspect after_inspect
read_ixml_with_limit usize_max max_xml_bytes input =
    after_inspect (λ l. read_payload usize_max max_xml_bytes input (ixml_chunk l))
      (inspect usize_max input)

-- The default limit of 16 MiB.
unfoldable pub read_ixml : ℕ → List ℕ → Option (Result AudioFileError (Option (List ℕ)))
unfolding read_ixml_with_limit
read_ixml usize_max input = read_ixml_with_limit usize_max 16777216 input

-- The output: its bytes, and the position of the next write.
pub record Output : Type 0 where
  pub bytes : List ℕ
  pub position : ℕ

abbrev pub fresh : Output
fresh = record { bytes = []; position = 0 }

unfoldable pub write_all : List ℕ → Output → Output
unfolding copy_at grow
write_all bs o = record {
  bytes = copy_at o.position bs (grow (o.position + length bs) o.bytes);
  position = o.position + length bs;
}

unfoldable pub chunk_extent : List ℕ → Result AudioFileError ℕ
chunk_extent payload = do
  guard (not (ltb u32_max (length payload))) size_overflow
  guard (leb (8 + length payload + length payload % 2) u64_max) size_overflow
  ok (8 + length payload + length payload % 2)

unfoldable pub encoded_size : List ℕ → Bool → Result AudioFileError ℕ
encoded_size payload use_large_size =
    if use_large_size
    then ok u32_max
    else (if leb (length payload) u32_max then ok (length payload) else err size_overflow)

-- A byte of padding after a payload of odd length.
unfoldable pub write_padding : List ℕ → Output → Output
write_padding payload o = if length payload % 2 == 0 then o else write_all (0 ∷ []) o

unfoldable pub write_chunk : List ℕ → List ℕ → Endian → Bool → Output → Result AudioFileError Output
write_chunk id payload endian use_large_size o = do
  let o1 = write_all id o
  size ← encoded_size payload use_large_size
  let o2 = write_all (encode_u32 endian size) o1
  let o3 = write_all payload o2
  ok (write_padding payload o3)

unfoldable pub copy_range : List ℕ → ℕ → ℕ → Output → Result AudioFileError Output
copy_range input start n o = do
  let copied = take n (drop start input)
  guard (length copied == n) (invalid "stream ended during chunk copy")
  ok (write_all copied o)

abbrev pub large_row : Option ChunkInfo → Option ℕ
large_row none = none
large_row (some found) = found.large_table_index

-- The sizes in a `ds64` chunk that was copied to a position.
unfoldable pub patch_sizes :
    ℕ → ℕ → Option ℕ → Option (List ℕ) → Output → Result AudioFileError Output
patch_sizes output_start outer_size none xml o =
    ok (write_all (to_le 8 outer_size) (record o { position = output_start + 8 }))
patch_sizes output_start outer_size (some table_index) none o =
    ok (write_all (to_le 8 outer_size) (record o { position = output_start + 8 }))
patch_sizes output_start outer_size (some table_index) (some xml) o = do
  let o1 = write_all (to_le 8 outer_size) (record o { position = output_start + 8 })
  let offset = output_start + (8 + 28 + 4 + table_index * 12)
  guard (leb offset u64_max) size_overflow
  ok (write_all (to_le 8 (length xml)) (record o1 { position = offset }))

-- What the loop over the chunks reads: the layout, the stream, the new payload and the outer size.
pub record Rewriting : Type 0 where
  pub layout : Layout
  pub input : List ℕ
  pub replacement : Option (List ℕ)
  pub outer_size : ℕ

-- The sizes in the copy of a large container's `ds64` chunk, which starts at a position.
unfoldable pub patch_copy : Rewriting → ChunkInfo → ℕ → Output → Result AudioFileError Output
patch_copy w found output_start copied =
    if is_large_riff w.layout && same_bytes found.id id_ds64
    then (if ltb found.data_size 28
        then err (invalid "ds64 payload is too short")
        else map_ok (λ (patched : Output). record patched { position = copied.position })
            (patch_sizes output_start w.outer_size (large_row (ixml_chunk w.layout)) w.replacement
              copied))
    else ok copied

-- A chunk that is kept.
unfoldable pub keep_chunk : Rewriting → ChunkInfo → Output → Result AudioFileError Output
keep_chunk w found o = do
  copied ← copy_range w.input found.start (found.end - found.start) o
  patch_copy w found o.position copied

-- The new payload in the place of the old chunk, or nothing.
unfoldable pub write_replacement :
    Endian → Bool → Option (List ℕ) → Output → Result AudioFileError Output
write_replacement endian use_large_size none o = ok o
write_replacement endian use_large_size (some xml) o =
    write_chunk id_ixml xml endian use_large_size o

unfoldable pub replace_chunk : Rewriting → Bool → Output → Result AudioFileError Output
replace_chunk w use_large_size o = write_replacement w.layout.endian use_large_size w.replacement o

abbrev pub is_index : Option ℕ → ℕ → Bool
is_index none index = false
is_index (some i) index = index == i

-- `Some(index) == layout.ixml`.
abbrev pub is_ixml_index : Layout → ℕ → Bool
is_ixml_index l index = is_index l.ixml index

abbrev pub has_row : ChunkInfo → Bool
has_row found = elim found.large_table_index [ none ↦ false | some _ ↦ true ]

-- One chunk: replaced at the iXML index, kept elsewhere.
unfoldable pub rewrite_chunk : Rewriting → ℕ → ChunkInfo → Output → Result AudioFileError Output
rewrite_chunk w index found o =
    if is_ixml_index w.layout index then replace_chunk w (has_row found) o else keep_chunk w found o

-- The loop over the chunks, from an index on; the flag tells whether it replaced one.
unfoldable pub rewrite_chunks :
    Rewriting → ℕ → List ChunkInfo → Output → Bool → Result AudioFileError (Output × Bool)
rewrite_chunks w index [] o replaced = ok (o, replaced)
rewrite_chunks w index (found ∷ chunks) o replaced = do
  o1 ← rewrite_chunk w index found o
  rewrite_chunks w (index + 1) chunks o1 (replaced || is_ixml_index w.layout index)

abbrev pub old_extent : Option ChunkInfo → ℕ
old_extent none = 0
old_extent (some found) = found.end - found.start

unfoldable pub replacement_extent : Option (List ℕ) → Result AudioFileError ℕ
replacement_extent none = ok 0
replacement_extent (some xml) = chunk_extent xml

-- The outer size of the new container.
unfoldable pub new_outer_size : Layout → Option (List ℕ) → Result AudioFileError ℕ
new_outer_size l replacement = do
  replacement_total ← replacement_extent replacement
  let old_total = old_extent (ixml_chunk l)
  let new_total = l.file_len - old_total + replacement_total
  guard (leb old_total l.file_len && leb new_total u64_max) size_overflow
  guard (leb 8 new_total) (invalid "container is shorter than its header")
  guard (is_large_riff l || leb (new_total - 8) u32_max) size_overflow
  ok (new_total - 8)

unfoldable pub write_header : Layout → ℕ → Output → Output
write_header l outer_size o =
    let size = if is_large_riff l then to_le 4 u32_max else encode_u32 l.endian outer_size in
    write_all l.form (write_all size (write_all l.signature o))

-- The new payload at the end, unless the loop had a place for it.
unfoldable pub append_chunk : Rewriting → Output × Bool → Result AudioFileError Output
append_chunk w (o, replaced) = if replaced then ok o else replace_chunk w false o

unfoldable pub rewrite_layout : List ℕ → Option (List ℕ) → Layout → Result AudioFileError Output
rewrite_layout input replacement l = do
  outer_size ← new_outer_size l replacement
  let w : Rewriting = record {
    layout = l;
    input = input;
    replacement = replacement;
    outer_size = outer_size;
  }
  written ← rewrite_chunks w 0 l.chunks (write_header l outer_size fresh) false
  append_chunk w written

unfoldable pub rewrite_ixml : ℕ → List ℕ → Option (List ℕ) → Option (Result AudioFileError Output)
unfolding write_all rewrite_chunks rewrite_chunk replace_chunk write_replacement write_chunk
    write_padding encoded_size keep_chunk copy_range ixml_chunk patch_sizes patch_copy
    new_outer_size replacement_extent chunk_extent write_header append_chunk rewrite_layout inspect
    after_inspect encode_u32
rewrite_ixml usize_max input replacement =
    after_inspect (rewrite_layout input replacement) (inspect usize_max input)
