-- ===== src/Document/Linked/Drop.antt =====
-- Removals that keep the document graph linked (ara2-bridge-host/src/document).
use ara2_bridge.Base.{◌≡◌}
use ara2_bridge.Errors.{ok}
use ara2_bridge.Registry.{
  Handle, Registry, remove, musical_context_kind, region_sequence_kind, audio_source_kind,
  audio_modification_kind, playback_region_kind,
}
use ara2_bridge.Registry.Links.{NoRef, Refs-remove, Refs-remove_target}
use ara2_bridge.Document.Records.{
  Graph, MusicalContextRecord, RegionSequenceRecord, AudioSourceRecord, AudioModificationRecord,
  PlaybackRegionRecord,
}
use ara2_bridge.Document.Linked.{
  IsLinked, context_of, source_of, modification_of, sequence_of, region_context_of,
}

module _ (g : Graph) (i : IsLinked g) where
  pub drop_context :
      (h : Handle musical_context_kind) {v : MusicalContextRecord}
      {r : Registry musical_context_kind MusicalContextRecord}
      → remove h g.musical_contexts ≡ ok (v, r)
      → NoRef context_of g.region_sequences h
      → NoRef region_context_of g.playback_regions h
      → IsLinked (record g { musical_contexts = r })
  drop_context h e p_contexts p_region_contexts = record {
    contexts =
        Refs-remove_target context_of h g.region_sequences g.musical_contexts e p_contexts
          i.contexts;
    sources = i.sources;
    modifications = i.modifications;
    sequences = i.sequences;
    region_contexts =
        Refs-remove_target region_context_of h g.playback_regions g.musical_contexts e
          p_region_contexts i.region_contexts;
  }

  pub drop_sequence :
      (h : Handle region_sequence_kind) {v : RegionSequenceRecord}
      {r : Registry region_sequence_kind RegionSequenceRecord}
      → remove h g.region_sequences ≡ ok (v, r)
      → NoRef sequence_of g.playback_regions h
      → IsLinked (record g { region_sequences = r })
  drop_sequence h e p_sequences = record {
    contexts = Refs-remove context_of h g.region_sequences g.musical_contexts e i.contexts;
    sources = i.sources;
    modifications = i.modifications;
    sequences =
        Refs-remove_target sequence_of h g.playback_regions g.region_sequences e p_sequences
          i.sequences;
    region_contexts = i.region_contexts;
  }

  pub drop_source :
      (h : Handle audio_source_kind) {v : AudioSourceRecord}
      {r : Registry audio_source_kind AudioSourceRecord}
      → remove h g.audio_sources ≡ ok (v, r)
      → NoRef source_of g.audio_modifications h
      → IsLinked (record g { audio_sources = r })
  drop_source h e p_sources = record {
    contexts = i.contexts;
    sources =
        Refs-remove_target source_of h g.audio_modifications g.audio_sources e p_sources i.sources;
    modifications = i.modifications;
    sequences = i.sequences;
    region_contexts = i.region_contexts;
  }

  pub drop_modification :
      (h : Handle audio_modification_kind) {v : AudioModificationRecord}
      {r : Registry audio_modification_kind AudioModificationRecord}
      → remove h g.audio_modifications ≡ ok (v, r)
      → NoRef modification_of g.playback_regions h
      → IsLinked (record g { audio_modifications = r })
  drop_modification h e p_modifications = record {
    contexts = i.contexts;
    sources = Refs-remove source_of h g.audio_modifications g.audio_sources e i.sources;
    modifications =
        Refs-remove_target modification_of h g.playback_regions g.audio_modifications e
          p_modifications i.modifications;
    sequences = i.sequences;
    region_contexts = i.region_contexts;
  }

  pub drop_region :
      (h : Handle playback_region_kind) {v : PlaybackRegionRecord}
      {r : Registry playback_region_kind PlaybackRegionRecord}
      → remove h g.playback_regions ≡ ok (v, r)
      → IsLinked (record g { playback_regions = r })
  drop_region h e = record {
    contexts = i.contexts;
    sources = i.sources;
    modifications =
        Refs-remove modification_of h g.playback_regions g.audio_modifications e i.modifications;
    sequences = Refs-remove sequence_of h g.playback_regions g.region_sequences e i.sequences;
    region_contexts =
        Refs-remove region_context_of h g.playback_regions g.musical_contexts e i.region_contexts;
  }
