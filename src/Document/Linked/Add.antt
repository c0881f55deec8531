-- ===== src/Document/Linked/Add.antt =====
-- Insertions that keep the document graph linked (ara2-bridge-host/src/document).
use ara2_bridge.Base.{ℕ, ◌≡◌}
use ara2_bridge.Errors.{ok}
use ara2_bridge.Registry.{
  Handle, Registry, insert, musical_context_kind, region_sequence_kind, audio_source_kind,
  audio_modification_kind, playback_region_kind,
}
use ara2_bridge.Registry.Links.{Points, Refs-insert, Refs-insert_target}
use ara2_bridge.Document.Records.{
  Graph, MusicalContextRecord, RegionSequenceRecord, AudioSourceRecord, AudioModificationRecord,
  PlaybackRegionRecord,
}
use ara2_bridge.Document.Linked.{
  IsLinked, context_of, source_of, modification_of, sequence_of, region_context_of,
}

module _ (g : Graph) (i : IsLinked g) where
  pub add_context :
      (a : ℕ) (v : MusicalContextRecord) {h : Handle musical_context_kind}
      {r : Registry musical_context_kind MusicalContextRecord}
      → insert a v g.musical_contexts ≡ ok (h, r)
      → IsLinked (record g { musical_contexts = r })
  add_context a v e = record {
    contexts = Refs-insert_target context_of a v g.region_sequences g.musical_contexts e i.contexts;
    sources = i.sources;
    modifications = i.modifications;
    sequences = i.sequences;
    region_contexts =
        Refs-insert_target region_context_of a v g.playback_regions g.musical_contexts e
          i.region_contexts;
  }

  pub add_sequence :
      (a : ℕ) (v : RegionSequenceRecord) {h : Handle region_sequence_kind}
      {r : Registry region_sequence_kind RegionSequenceRecord}
      → insert a v g.region_sequences ≡ ok (h, r)
      → Points (context_of v) g.musical_contexts
      → IsLinked (record g { region_sequences = r })
  add_sequence a v e p_contexts = record {
    contexts =
        Refs-insert context_of a v g.region_sequences g.musical_contexts e p_contexts i.contexts;
    sources = i.sources;
    modifications = i.modifications;
    sequences =
        Refs-insert_target sequence_of a v g.playback_regions g.region_sequences e i.sequences;
    region_contexts = i.region_contexts;
  }

  pub add_source :
      (a : ℕ) (v : AudioSourceRecord) {h : Handle audio_source_kind}
      {r : Registry audio_source_kind AudioSourceRecord}
      → insert a v g.audio_sources ≡ ok (h, r)
      → IsLinked (record g { audio_sources = r })
  add_source a v e = record {
    contexts = i.contexts;
    sources = Refs-insert_target source_of a v g.audio_modifications g.audio_sources e i.sources;
    modifications = i.modifications;
    sequences = i.sequences;
    region_contexts = i.region_contexts;
  }

  pub add_modification :
      (a : ℕ) (v : AudioModificationRecord) {h : Handle audio_modification_kind}
      {r : Registry audio_modification_kind AudioModificationRecord}
      → insert a v g.audio_modifications ≡ ok (h, r)
      → Points (source_of v) g.audio_sources
      → IsLinked (record g { audio_modifications = r })
  add_modification a v e p_sources = record {
    contexts = i.contexts;
    sources = Refs-insert source_of a v g.audio_modifications g.audio_sources e p_sources i.sources;
    modifications =
        Refs-insert_target modification_of a v g.playback_regions g.audio_modifications e
          i.modifications;
    sequences = i.sequences;
    region_contexts = i.region_contexts;
  }

  pub add_region :
      (a : ℕ) (v : PlaybackRegionRecord) {h : Handle playback_region_kind}
      {r : Registry playback_region_kind PlaybackRegionRecord}
      → insert a v g.playback_regions ≡ ok (h, r)
      → Points (modification_of v) g.audio_modifications
      → Points (sequence_of v) g.region_sequences
      → Points (region_context_of v) g.musical_contexts
      → IsLinked (record g { playback_regions = r })
  add_region a v e p_modifications p_sequences p_region_contexts = record {
    contexts = i.contexts;
    sources = i.sources;
    modifications =
        Refs-insert modification_of a v g.playback_regions g.audio_modifications e p_modifications
          i.modifications;
    sequences =
        Refs-insert sequence_of a v g.playback_regions g.region_sequences e p_sequences i.sequences;
    region_contexts =
        Refs-insert region_context_of a v g.playback_regions g.musical_contexts e p_region_contexts
          i.region_contexts;
  }
