-- ===== src/AudioFile.antt =====
-- Audio containers of ara2-bridge-core/src/audio_file/container.rs: their structure and errors.
-- A stream that is read is a list of bytes.
pub mod Inspect
pub mod Rewrite
use ara2_bridge.Base.{
  ℕ, String, Bool, true, false, Option, List, [], ◌∷◌, length, leb, if◌then◌else◌, ◌+◌, ◌^◌, ◌-◌,
}
use ara2_bridge.Base.Bytes.{take, drop, from_le, from_be, to_le, to_be}
use ara2_bridge.Errors.{Result, ok, err}

pub data AudioFileKind : Type 0 where
  wave rf64 bw64 aiff aifc : AudioFileKind

-- The failures of the embedded XML (xml.rs).
pub data ChunkError : Type 0 where
  duplicate_element missing_element bad_xml xml_limit : String → ChunkError

pub data AudioFileError : Type 0 where
  io ambiguous_ixml size_overflow symlink_refused : AudioFileError
  unsupported_container invalid limit : String → AudioFileError
  chunk : ChunkError → AudioFileError

pub data Endian : Type 0 where
  little big : Endian

pub record ChunkInfo : Type 0 where
  pub id : List ℕ
  pub start : ℕ
  pub data_start : ℕ
  pub data_size : ℕ
  pub end : ℕ
  pub large_table_index : Option ℕ

pub record Layout : Type 0 where
  pub kind : AudioFileKind
  pub endian : Endian
  pub signature : List ℕ
  pub form : List ℕ
  pub file_len : ℕ
  pub chunks : List ChunkInfo
  pub ixml : Option ℕ

abbrev pub is_large_kind : AudioFileKind → Bool
is_large_kind wave = false
is_large_kind rf64 = true
is_large_kind bw64 = true
is_large_kind aiff = false
is_large_kind aifc = false

abbrev pub is_large_riff : Layout → Bool
is_large_riff l = is_large_kind l.kind

abbrev pub u32_max : ℕ
u32_max = 2 ^ 32 - 1

abbrev pub max_container_chunks : ℕ
max_container_chunks = 65536

abbrev pub max_ds64_table_entries : ℕ
max_ds64_table_entries = 65536

-- The identifiers of four bytes.
abbrev pub id_ixml : List ℕ
id_ixml = b'i' ∷ b'X' ∷ b'M' ∷ b'L' ∷ []

abbrev pub id_ds64 : List ℕ
id_ds64 = b'd' ∷ b's' ∷ b'6' ∷ b'4' ∷ []

abbrev pub id_data : List ℕ
id_data = b'd' ∷ b'a' ∷ b't' ∷ b'a' ∷ []

abbrev pub id_riff : List ℕ
id_riff = b'R' ∷ b'I' ∷ b'F' ∷ b'F' ∷ []

abbrev pub id_rf64 : List ℕ
id_rf64 = b'R' ∷ b'F' ∷ b'6' ∷ b'4' ∷ []

abbrev pub id_bw64 : List ℕ
id_bw64 = b'B' ∷ b'W' ∷ b'6' ∷ b'4' ∷ []

abbrev pub id_form : List ℕ
id_form = b'F' ∷ b'O' ∷ b'R' ∷ b'M' ∷ []

abbrev pub id_wave : List ℕ
id_wave = b'W' ∷ b'A' ∷ b'V' ∷ b'E' ∷ []

abbrev pub id_aiff : List ℕ
id_aiff = b'A' ∷ b'I' ∷ b'F' ∷ b'F' ∷ []

abbrev pub id_aifc : List ℕ
id_aifc = b'A' ∷ b'I' ∷ b'F' ∷ b'C' ∷ []

abbrev pub wave64_riff_guid : List ℕ
wave64_riff_guid =
    b'r' ∷ b'i' ∷ b'f' ∷ b'f' ∷ 46 ∷ 145 ∷ 207 ∷ 17 ∷ 165 ∷ 214 ∷ 40 ∷ 219 ∷ 4 ∷ 193 ∷ 0 ∷ 0 ∷ []

unfoldable pub decode_u32 : Endian → List ℕ → ℕ
decode_u32 little bytes = from_le bytes
decode_u32 big bytes = from_be bytes

-- The bytes that `write_u32` writes.
unfoldable pub encode_u32 : Endian → ℕ → List ℕ
encode_u32 little n = to_le 4 n
encode_u32 big n = to_be 4 n

-- `seek` from the start and `read_exact`.
unfoldable pub read_exact : ℕ → ℕ → List ℕ → Result AudioFileError (List ℕ)
read_exact start n input =
    if leb (start + n) (length input) then ok (take n (drop start input)) else err io
