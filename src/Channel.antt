-- ===== src/Channel.antt =====
-- Channel arrangements of ara2-bridge-core/src/channel.rs. A float is its bit pattern, and the byte
-- order of the target is an argument.
pub mod Decoding
pub mod Formats
use ara2_bridge.Base.{
  ℕ, zero, suc, String, Bool, true, false, not, ◌&&◌, ◌||◌, Option, some, none, List, [], ◌∷◌,
  length, ltb, leb, any, if◌then◌else◌, ◌==◌, ◌+◌, ◌-◌, ◌*◌, ◌/◌, ◌%◌, ◌^◌,
}
use ara2_bridge.Base.Bytes.{take, drop, from_le, from_be}
use ara2_bridge.Errors.{Result, ok, err, guard, map_ok, AraError, invalid_argument, ◌>>=◌, ◌>>◌}

pub record CoreAudioChannelDescription : Type 0 where
  pub label : ℕ
  pub flags : ℕ
  pub coordinates : ℕ × ℕ × ℕ

-- `f32::is_finite`: the exponent is not all ones.
abbrev pub is_finite : ℕ → Bool
is_finite bits = not ((bits / 2 ^ 23) % 2 ^ 8 == 255)

abbrev pub all_finite : ℕ × ℕ × ℕ → Bool
all_finite (x, y, z) = is_finite x && (is_finite y && is_finite z)

unfoldable pub new_description : ℕ → ℕ → ℕ × ℕ × ℕ → Result AraError CoreAudioChannelDescription
new_description label flags coordinates = do
  guard (all_finite coordinates) (invalid_argument "Core Audio channel coordinates must be finite")
  ok (record { label = label; flags = flags; coordinates = coordinates })

pub data CoreAudioChannelLayout : Type 0 where
  tag_layout : ℕ → CoreAudioChannelLayout
  description_layout : List CoreAudioChannelDescription → CoreAudioChannelLayout

pub record OpaqueChannelArrangement : Type 0 where
  pub data_type : ℕ
  pub bytes : List ℕ

pub data ChannelArrangement : Type 0 where
  undefined : ChannelArrangement
  vst3 aax : ℕ → ChannelArrangement
  core_audio : CoreAudioChannelLayout → ChannelArrangement
  clap_map : List ℕ → ChannelArrangement
  clap_ambisonic : (ordering normalization : ℕ) → ChannelArrangement
  opaque_arrangement : OpaqueChannelArrangement → ChannelArrangement

-- `from_ne_bytes`, for a target that stores the highest byte first or last.
abbrev pub from_ne : Bool → List ℕ → ℕ
from_ne true bytes = from_be bytes
from_ne false bytes = from_le bytes

-- The word at a position.
abbrev pub word_at : Bool → ℕ → List ℕ → ℕ
word_at big start bytes = from_ne big (take 4 (drop start bytes))

-- The descriptions of as many chunks of 20 bytes.
unfoldable pub read_descriptions :
    Bool → ℕ → List ℕ → Result AraError (List CoreAudioChannelDescription)
unfolding new_description
read_descriptions big zero bytes = ok []
read_descriptions big (suc n) bytes = do
  description ←
      new_description (word_at big 0 bytes) (word_at big 4 bytes)
        (word_at big 8 bytes, word_at big 12 bytes, word_at big 16 bytes)
  rest ← read_descriptions big n (drop 20 bytes)
  ok (description ∷ rest)

-- The layout without descriptions, and the one with as many as it says.
unfoldable pub decode_tag : ℕ → ℕ → ℕ → Result AraError ChannelArrangement
decode_tag tag description_count size = do
  guard (not (not (description_count == 0) || not (size == 12)))
      (invalid_argument "tagged Core Audio layout must have no descriptions")
  ok (core_audio (tag_layout tag))

unfoldable pub decode_descriptions : Bool → ℕ → ℕ → List ℕ → Result AraError ChannelArrangement
decode_descriptions big usize_max count bytes = do
  guard (leb count usize_max) (invalid_argument "Core Audio description count overflow")
  guard (leb (count * 20) usize_max && leb (count * 20 + 12) usize_max)
      (invalid_argument "Core Audio layout extent overflow")
  guard (length bytes == count * 20 + 12)
      (invalid_argument "Core Audio description extent mismatch")
  descriptions ← read_descriptions big count (drop 12 bytes)
  ok (core_audio (description_layout descriptions))

unfoldable pub decode_core_audio : Bool → ℕ → List ℕ → Result AraError ChannelArrangement
decode_core_audio big usize_max bytes = do
  guard (not (ltb (length bytes) 12))
      (invalid_argument "Core Audio layout is shorter than its header")
  let tag = word_at big 0 bytes
  let description_count = word_at big 8 bytes
  guard (not (tag == 65536)) (invalid_argument "Core Audio bitmap layouts are not allowed")
  if tag == 0
      then decode_descriptions big usize_max description_count bytes
      else decode_tag tag description_count (length bytes)

-- Bytes of a given number.
abbrev pub exactly : ℕ → String → List ℕ → Result AraError (Unit {0})
exactly n what bytes = guard (length bytes == n) (invalid_argument what)

-- The data type is the bit pattern of an `i32`.
unfoldable pub from_raw : Bool → ℕ → ℕ → List ℕ → ℕ → Result AraError ChannelArrangement
from_raw big usize_max zero bytes channel_count =
    exactly 0 "undefined arrangement must have no bytes" bytes >> ok undefined
from_raw big usize_max (suc zero) bytes channel_count =
    exactly 8 "VST3 arrangement must be 8 bytes" bytes >> ok (vst3 (from_ne big bytes))
from_raw big usize_max (suc (suc zero)) bytes channel_count = decode_core_audio big usize_max bytes
from_raw big usize_max (suc (suc (suc zero))) bytes channel_count =
    exactly 4 "AAX arrangement must be 4 bytes" bytes >> ok (aax (from_ne big bytes))
from_raw big usize_max (suc (suc (suc (suc zero)))) bytes channel_count =
    exactly channel_count "CLAP channel map extent must equal channel count" bytes
    >> ok (clap_map bytes)
from_raw big usize_max (suc (suc (suc (suc (suc zero))))) bytes channel_count =
    exactly 8 "CLAP ambisonic info must be 8 bytes" bytes
    >> ok (clap_ambisonic (from_ne big (take 4 bytes)) (from_ne big (drop 4 bytes)))
from_raw big usize_max (suc (suc (suc (suc (suc (suc n)))))) bytes channel_count =
    err (invalid_argument "unknown channel arrangement data type")
