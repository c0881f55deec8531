-- ===== src/Document/Linked.antt =====
-- Referential integrity of the document graph (ara2-bridge-host/src/document), and the graph
-- mutations that keep it.
pub mod Add
pub mod Edit
pub mod Drop
use ara2_bridge.Base.{List, String, ℕ, Option, none, some, ◌≡◌, refl}
use ara2_bridge.Errors.{ok}
use ara2_bridge.Registry.{
  Handle, Registry, insert, get, modify, remove, musical_context_kind, region_sequence_kind,
  audio_source_kind, audio_modification_kind, playback_region_kind,
}
use ara2_bridge.Registry.Refs.{IsLive}
use ara2_bridge.Registry.Links.{
  Points, Refs, NoRef, Refs-insert, Refs-modify, Refs-modify_same, Refs-remove, Refs-insert_target,
  Refs-modify_target, Refs-remove_target, fresh-NoRef,
}
use ara2_bridge.Document.Records.{
  Graph, MusicalContextRecord, RegionSequenceRecord, AudioSourceRecord, AudioModificationRecord,
  PlaybackRegionRecord,
}

abbrev pub context_of : RegionSequenceRecord → Option (Handle musical_context_kind)
context_of r = some r.context

abbrev pub source_of : AudioModificationRecord → Option (Handle audio_source_kind)
source_of r = some r.source

abbrev pub modification_of : PlaybackRegionRecord → Option (Handle audio_modification_kind)
modification_of r = some r.modification

abbrev pub sequence_of : PlaybackRegionRecord → Option (Handle region_sequence_kind)
sequence_of r = r.sequence

abbrev pub region_context_of : PlaybackRegionRecord → Option (Handle musical_context_kind)
region_context_of r = r.context

-- Every edge of a live record leads to a live record.
pub record IsLinked (g : Graph) : Type 0 where
  pub contexts : Refs context_of g.region_sequences g.musical_contexts
  pub sources : Refs source_of g.audio_modifications g.audio_sources
  pub modifications : Refs modification_of g.playback_regions g.audio_modifications
  pub sequences : Refs sequence_of g.playback_regions g.region_sequences
  pub region_contexts : Refs region_context_of g.playback_regions g.musical_contexts

-- The identifiers carry no edge.
pub with_ids-IsLinked :
    (g : Graph) (ids : List String) → IsLinked g → IsLinked (record g { persistent_ids = ids })
with_ids-IsLinked g ids i = record {
  contexts = i.contexts;
  sources = i.sources;
  modifications = i.modifications;
  sequences = i.sequences;
  region_contexts = i.region_contexts;
}
