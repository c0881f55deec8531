-- ===== src/Examples/AudioFiles.antt =====
-- Concrete audio containers: a WAVE file with and without an iXML chunk.
use ara2_bridge.Base.{
  ℕ, Option, some, none, List, [], ◌∷◌, ◌++◌, length, ◌≡◌, refl, ◌≤◌, ◌+◌, arith,
}
use ara2_bridge.Errors.{Result, ok, err}
use ara2_bridge.AudioFile.{
  AudioFileError, ambiguous_ixml, id_riff, id_wave, id_ixml, id_rf64, id_ds64, Layout, ChunkInfo,
  wave, little, max_container_chunks, u32_max,
}
use ara2_bridge.AudioFile.Inspect.{inspect}
use ara2_bridge.AudioFile.Inspect.Structure.{Tiles, Marks, Within}
use ara2_bridge.AudioFile.Inspect.Outcome.{FourEach, inspect-Tiles}
use ara2_bridge.AudioFile.Rewrite.{read_ixml_with_limit, rewrite_ixml, Output}
use ara2_bridge.AudioFile.Rewrite.Payload.{read_ixml-rewrite_ixml-end, read_ixml-payload}
use ara2_bridge.AudioFile.Rewrite.Declared.{header_bytes, rewrite_ixml-Declared}

abbrev max_bytes : ℕ
max_bytes = 1000

-- A format chunk of 3 bytes and its padding.
abbrev format_chunk : List ℕ
format_chunk = b'f' ∷ b'm' ∷ b't' ∷ b' ' ∷ 3 ∷ 0 ∷ 0 ∷ 0 ∷ 7 ∷ 8 ∷ 9 ∷ 0 ∷ []

abbrev xml_chunk : List ℕ
xml_chunk = id_ixml ++ 2 ∷ 0 ∷ 0 ∷ 0 ∷ b'h' ∷ b'i' ∷ []

abbrev wave_file : ℕ → List ℕ → List ℕ
wave_file size body = id_riff ++ size ∷ 0 ∷ 0 ∷ 0 ∷ id_wave ++ body

abbrev plain_file : List ℕ
plain_file = wave_file 16 format_chunk

abbrev tagged_file : List ℕ
tagged_file = wave_file 26 (format_chunk ++ xml_chunk)

read_plain : read_ixml_with_limit max_bytes max_bytes plain_file ≡ some (ok none)
unfolding read_ixml_with_limit
read_plain = refl

read_tagged :
    read_ixml_with_limit max_bytes max_bytes tagged_file ≡ some (ok (some (b'h' ∷ b'i' ∷ [])))
unfolding read_ixml_with_limit
read_tagged = refl

read_twice :
    read_ixml_with_limit max_bytes max_bytes (wave_file 24 (xml_chunk ++ xml_chunk))
    ≡ some (err ambiguous_ixml)
unfolding read_ixml_with_limit
read_twice = refl

insert_plain :
    rewrite_ixml max_bytes plain_file (some (b'h' ∷ b'i' ∷ []))
    ≡ some (ok (record { bytes = tagged_file; position = 34 }))
unfolding rewrite_ixml
insert_plain = refl

remove_tagged :
    rewrite_ixml max_bytes tagged_file none
    ≡ some (ok (record { bytes = plain_file; position = 24 }))
unfolding rewrite_ixml
remove_tagged = refl

abbrev format_info : ChunkInfo
format_info = record {
  id = b'f' ∷ b'm' ∷ b't' ∷ b' ' ∷ [];
  start = 12;
  data_start = 20;
  data_size = 3;
  end = 24;
  large_table_index = none;
}

abbrev xml_info : ChunkInfo
xml_info = record {
  id = id_ixml;
  start = 24;
  data_start = 32;
  data_size = 2;
  end = 34;
  large_table_index = none;
}

abbrev tagged_layout : Layout
tagged_layout = record {
  kind = wave;
  endian = little;
  signature = id_riff;
  form = id_wave;
  file_len = 34;
  chunks = format_info ∷ xml_info ∷ [];
  ixml = some 1;
}

inspect_tagged : inspect max_bytes tagged_file ≡ some (ok tagged_layout)
unfolding inspect
inspect_tagged = refl

inspect-Tiles_example :
    (tagged_layout.file_len ≡ length tagged_file)
    × Tiles 12 (format_info ∷ xml_info ∷ []) 34
    × (2 ≤ max_container_chunks)
    × Marks (format_info ∷ xml_info ∷ []) (some 1)
    × Within (format_info ∷ xml_info ∷ []) (some 1)
    × FourEach (id_riff, id_wave)
inspect-Tiles_example = inspect-Tiles max_bytes tagged_file inspect_tagged

read_ixml-payload_example :
    (read_ixml_with_limit max_bytes max_bytes tagged_file ≡ some (ok (some (b'h' ∷ b'i' ∷ []))))
    × (length {A = ℕ} (b'h' ∷ b'i' ∷ []) ≡ xml_info.data_size)
read_ixml-payload_example =
    read_ixml-payload max_bytes max_bytes tagged_file {l = tagged_layout} {i = 1} xml_info
      inspect_tagged refl refl (omega arith) (omega arith)

read_ixml-rewrite_ixml-end_example :
    ((r : Result AudioFileError (Option (List ℕ))) × (read_ixml_with_limit max_bytes max_bytes
          plain_file
        ≡ some r))
    × ((r : Result AudioFileError Output) × (rewrite_ixml max_bytes plain_file none ≡ some r))
read_ixml-rewrite_ixml-end_example = read_ixml-rewrite_ixml-end max_bytes max_bytes plain_file none

rewrite_ixml-Declared_example :
    (outer_size : ℕ) × (body : List ℕ) × (plain_file
      ≡ header_bytes tagged_layout outer_size ++ body)
    × (24 ≡ 8 + outer_size)
    × (outer_size ≤ u32_max)
rewrite_ixml-Declared_example =
    rewrite_ixml-Declared max_bytes tagged_file none inspect_tagged refl remove_tagged

abbrev eight : ℕ → List ℕ
eight n = n ∷ 0 ∷ 0 ∷ 0 ∷ 0 ∷ 0 ∷ 0 ∷ 0 ∷ []

-- A chunk of 64-bit sizes without a table, whose first size is given.
abbrev sizes_chunk : ℕ → List ℕ
sizes_chunk n = id_ds64 ++ 28 ∷ 0 ∷ 0 ∷ 0 ∷ eight n ++ eight 0 ++ eight 0 ++ 0 ∷ 0 ∷ 0 ∷ 0 ∷ []

abbrev large_file : List ℕ → List ℕ
large_file body = id_rf64 ++ 255 ∷ 255 ∷ 255 ∷ 255 ∷ id_wave ++ body

-- A second `ds64` chunk is patched like the leading one: its first size, 5, is overwritten.
rewrite_second_sizes :
    rewrite_ixml max_bytes (large_file (sizes_chunk 76 ++ sizes_chunk 5)) none
    ≡ some (ok (record { bytes = large_file (sizes_chunk 76 ++ sizes_chunk 76); position = 84 }))
unfolding rewrite_ixml
rewrite_second_sizes = refl
