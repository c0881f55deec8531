-- ===== src/Properties.antt =====
-- The owned model-object properties of ara2-bridge-core/src/properties/model.rs and document.rs, and
-- the API generations of ara2-bridge-core/src/generation.rs. A float and a signed integer that the
-- bridge only carries is a natural number, its bit pattern.
use Prim.Native.Char.{code}
use ara2_bridge.Base.{
  ℕ, String, Bool, true, false, not, ◌&&◌, ◌||◌, Option, none, some, List, leb, ◌==◌, if◌then◌else◌,
}
use ara2_bridge.Errors.{
  Result, ok, err, ◌>>=◌, ◌>>◌, guard, ok_or, AraError, invalid_argument, unsupported,
}
use ara2_bridge.Registry.{ModelRef, musical_context_kind, region_sequence_kind}

pub data ApiGeneration : Type 0 where
  v1_draft v1_final v2_draft v2_final v2x_draft v23_final : ApiGeneration

abbrev pub as_raw : ApiGeneration → ℕ
as_raw v1_draft = 1
as_raw v1_final = 2
as_raw v2_draft = 3
as_raw v2_final = 4
as_raw v2x_draft = 5
as_raw v23_final = 6

-- `g >= bound`.
abbrev pub at_least : ApiGeneration → ApiGeneration → Bool
at_least bound g = leb (as_raw bound) (as_raw g)

-- `aarch64` says whether the target is that architecture.
abbrev supported_on_target : Bool → ApiGeneration → Bool
supported_on_target aarch64 g = not aarch64 || at_least v2_final g

unfoldable pub ensure_generation : Bool → ApiGeneration → Result AraError (Unit {0})
ensure_generation aarch64 g =
    guard (supported_on_target aarch64 g)
      (unsupported "API generation is unavailable on this target")

pub record Color : Type 0 where
  pub red : ℕ
  pub green : ℕ
  pub blue : ℕ

pub record RawChannelArrangement : Type 0 where
  pub data_type : ℕ
  pub bytes : List ℕ

pub record DocumentProperties : Type 0 where
  pub name : Option String

pub record MusicalContextProperties : Type 0 where
  pub name : Option String
  pub order_index : ℕ
  pub color : Option Color

pub record RegionSequenceProperties : Type 0 where
  pub name : Option String
  pub order_index : ℕ
  pub musical_context : ModelRef musical_context_kind
  pub color : Option Color

pub record AudioSourceProperties : Type 0 where
  pub name : Option String
  pub persistent_id : String
  pub sample_count : ℕ
  pub sample_rate : ℕ
  pub channel_count : ℕ
  pub merits_64_bit_samples : Bool
  pub channel_arrangement : Option RawChannelArrangement

pub record AudioModificationProperties : Type 0 where
  pub name : Option String
  pub persistent_id : String

pub record PlaybackRegionProperties : Type 0 where
  pub transformation_flags : ℕ
  pub start_in_modification : ℕ
  pub duration_in_modification : ℕ
  pub start_in_playback : ℕ
  pub duration_in_playback : ℕ
  pub musical_context : Option (ModelRef musical_context_kind)
  pub region_sequence : Option (ModelRef region_sequence_kind)
  pub name : Option String
  pub color : Option Color

-- `CString::new` refuses an interior NUL.
has_nul : String → Bool
has_nul String.[] = false
has_nul (String.◌∷◌ c s) = code c == 0 || has_nul s

display_string : Option String → Result AraError (Option String)
unfolding has_nul
display_string none = ok none
display_string (some s) =
    if has_nul s then err (invalid_argument "display string contains NUL") else ok (some s)

-- `RegionSequenceProperties::new`.
unfoldable pub new_region_sequence_properties :
    Option String
    → ℕ
    → ModelRef musical_context_kind
    → Option Color
    → Result AraError RegionSequenceProperties
unfolding display_string
new_region_sequence_properties name order_index musical_context color = do
  checked ← display_string name
  ok (record {
    name = checked;
    order_index = order_index;
    musical_context = musical_context;
    color = color;
  })

-- The checks of the five `as_ffi`; the record that they build carries the same values.
unfoldable pub region_sequence_as_ffi : Bool → ApiGeneration → Result AraError (Unit {0})
unfolding ensure_generation
region_sequence_as_ffi aarch64 g = do
  ensure_generation aarch64 g
  guard (at_least v2_draft g) (unsupported "region sequences are unavailable in ARA1")

abbrev is_some {ℓ} : {A : Type ℓ} → Option A → Bool
is_some none = false
is_some (some _) = true

unfoldable pub playback_region_as_ffi :
    Bool → ApiGeneration → PlaybackRegionProperties → Result AraError (Unit {0})
unfolding ensure_generation
playback_region_as_ffi aarch64 g p = do
  ensure_generation aarch64 g
  guard (not (at_least v2_draft g && not (is_some p.region_sequence)))
      (invalid_argument "ARA2 playback region requires a region sequence")
  guard (not (not (at_least v2_draft g) && not (is_some p.musical_context)))
      (invalid_argument "ARA1 playback region requires a musical context")

unfoldable pub with_region_sequence :
    ModelRef region_sequence_kind
    → PlaybackRegionProperties
    → Result AraError PlaybackRegionProperties
with_region_sequence reference p = do
  ok_or p.region_sequence
      (invalid_argument "cannot assign a region sequence to ARA1 playback properties")
  ok (record p { region_sequence = some reference })

unfoldable pub with_musical_context :
    ModelRef musical_context_kind
    → PlaybackRegionProperties
    → Result AraError PlaybackRegionProperties
with_musical_context reference p = do
  ok_or p.musical_context
      (invalid_argument "cannot assign a musical context to ARA2 playback properties")
  ok (record p { musical_context = some reference })
