-- ===== src/Document/Fields.antt =====
-- The registries of the session as fields to read and write (ara2-bridge-host/src/document/mod.rs).
use ara2_bridge.Base.{String, List}
use ara2_bridge.Errors.{ok, err}
use ara2_bridge.Registry.{
  Handle, Registry, remove, musical_context_kind, region_sequence_kind, audio_source_kind,
  audio_modification_kind, playback_region_kind,
}
use ara2_bridge.Document.Records.{
  MusicalContextRecord, RegionSequenceRecord, AudioSourceRecord, AudioModificationRecord,
  PlaybackRegionRecord,
}
use ara2_bridge.Document.Session.{Session}

-- What a stored record of each registry writes into the session.
abbrev pub with_contexts : Session → Registry musical_context_kind MusicalContextRecord → Session
with_contexts s r = record s { graph = record s.graph { musical_contexts = r } }

abbrev pub with_sequences : Session → Registry region_sequence_kind RegionSequenceRecord → Session
with_sequences s r = record s { graph = record s.graph { region_sequences = r } }

abbrev pub with_sources : Session → Registry audio_source_kind AudioSourceRecord → Session
with_sources s r = record s { graph = record s.graph { audio_sources = r } }

abbrev pub with_modifications :
    Session → Registry audio_modification_kind AudioModificationRecord → Session
with_modifications s r = record s { graph = record s.graph { audio_modifications = r } }

abbrev pub with_regions : Session → Registry playback_region_kind PlaybackRegionRecord → Session
with_regions s r = record s { graph = record s.graph { playback_regions = r } }

abbrev pub with_ids : (List String → List String) → Session → Session
with_ids f s = record s { graph = record s.graph { persistent_ids = f s.graph.persistent_ids } }

-- `let _ = registry.remove(handle)`.
abbrev pub drop_context : Handle musical_context_kind → Session → Session
drop_context h s = elim (remove h s.graph.musical_contexts) [
  | ok (_, r) ↦ with_contexts s r
  | err _ ↦ s
]

abbrev pub drop_sequence : Handle region_sequence_kind → Session → Session
drop_sequence h s = elim (remove h s.graph.region_sequences) [
  | ok (_, r) ↦ with_sequences s r
  | err _ ↦ s
]

abbrev pub drop_source : Handle audio_source_kind → Session → Session
drop_source h s = elim (remove h s.graph.audio_sources) [ ok (_, r) ↦ with_sources s r | err _ ↦ s ]

abbrev pub drop_modification : Handle audio_modification_kind → Session → Session
drop_modification h s = elim (remove h s.graph.audio_modifications) [
  | ok (_, r) ↦ with_modifications s r
  | err _ ↦ s
]

abbrev pub drop_region : Handle playback_region_kind → Session → Session
drop_region h s = elim (remove h s.graph.playback_regions) [
  | ok (_, r) ↦ with_regions s r
  | err _ ↦ s
]
