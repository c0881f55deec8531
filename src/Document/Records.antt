-- ===== src/Document/Records.antt =====
-- ara2-bridge-host/src/document/records.rs and the graph fields of `DocumentSession` in
-- ara2-bridge-host/src/document/mod.rs.
use text.Mathlib.Text.{◌==◌ as str_eq}
use ara2_bridge.Base.{String, ℕ, Bool, true, false, Option, List, [], ◌∷◌, if◌then◌else◌}
use ara2_bridge.Registry.{
  Handle, Registry, musical_context_kind, region_sequence_kind, audio_source_kind,
  audio_modification_kind, playback_region_kind,
}
use ara2_bridge.Properties.{
  MusicalContextProperties, RegionSequenceProperties, AudioSourceProperties,
  AudioModificationProperties, PlaybackRegionProperties,
}

-- A peer is the address of the plug-in's object, `None` while the record is provisional.
pub record MusicalContextRecord : Type 0 where
  pub properties : MusicalContextProperties
  pub peer : Option ℕ

pub record RegionSequenceRecord : Type 0 where
  pub properties : RegionSequenceProperties
  pub peer : Option ℕ
  pub context : Handle musical_context_kind

pub record AudioSourceRecord : Type 0 where
  pub properties : AudioSourceProperties
  pub peer : Option ℕ
  pub active : Bool
  pub samples_access_enabled : Bool

pub record AudioModificationRecord : Type 0 where
  pub properties : AudioModificationProperties
  pub peer : Option ℕ
  pub source : Handle audio_source_kind
  pub active : Bool

pub record PlaybackRegionRecord : Type 0 where
  pub properties : PlaybackRegionProperties
  pub peer : Option ℕ
  pub modification : Handle audio_modification_kind
  pub sequence : Option (Handle region_sequence_kind)
  pub context : Option (Handle musical_context_kind)

-- The registries and the set of persistent identifiers.
pub record Graph : Type 0 where
  pub musical_contexts : Registry musical_context_kind MusicalContextRecord
  pub region_sequences : Registry region_sequence_kind RegionSequenceRecord
  pub audio_sources : Registry audio_source_kind AudioSourceRecord
  pub audio_modifications : Registry audio_modification_kind AudioModificationRecord
  pub playback_regions : Registry playback_region_kind PlaybackRegionRecord
  pub persistent_ids : List String

-- `HashSet<String>` as a list.
unfoldable pub contains : String → List String → Bool
contains id [] = false
contains id (x ∷ ids) = if str_eq x id then true else contains id ids

unfoldable pub insert_id : String → List String → List String
unfolding contains
insert_id id ids = if contains id ids then ids else id ∷ ids

unfoldable pub remove_id : String → List String → List String
remove_id id [] = []
remove_id id (x ∷ ids) = if str_eq x id then remove_id id ids else x ∷ remove_id id ids
