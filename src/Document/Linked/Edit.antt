-- ===== src/Document/Linked/Edit.antt =====
-- Writes that keep the document graph linked (ara2-bridge-host/src/document).
use ara2_bridge.Base.{◌≡◌}
use ara2_bridge.Errors.{ok}
use ara2_bridge.Registry.{
  Handle, Registry, get, modify, musical_context_kind, region_sequence_kind, audio_source_kind,
  audio_modification_kind, playback_region_kind,
}
use ara2_bridge.Registry.Links.{Points, Refs-modify, Refs-modify_target}
use ara2_bridge.Document.Records.{
  Graph, MusicalContextRecord, RegionSequenceRecord, AudioSourceRecord, AudioModificationRecord,
  PlaybackRegionRecord,
}
use ara2_bridge.Document.Linked.{
  IsLinked, context_of, source_of, modification_of, sequence_of, region_context_of,
}

module _ (g : Graph) (i : IsLinked g) where
  pub edit_context :
      (h : Handle musical_context_kind) (f : MusicalContextRecord → MusicalContextRecord)
      {r : Registry musical_context_kind MusicalContextRecord}
      → modify h f g.musical_contexts ≡ ok r
      → IsLinked (record g { musical_contexts = r })
  edit_context h f e = record {
    contexts = Refs-modify_target context_of h f g.region_sequences g.musical_contexts e i.contexts;
    sources = i.sources;
    modifications = i.modifications;
    sequences = i.sequences;
    region_contexts =
        Refs-modify_target region_context_of h f g.playback_regions g.musical_contexts e
          i.region_contexts;
  }

  pub edit_sequence :
      (h : Handle region_sequence_kind) (f : RegionSequenceRecord → RegionSequenceRecord)
      {r : Registry region_sequence_kind RegionSequenceRecord}
      → modify h f g.region_sequences ≡ ok r
      → ((u : RegionSequenceRecord)
          → get h g.region_sequences ≡ ok u
          → Points (context_of (f u)) g.musical_contexts)
      → IsLinked (record g { region_sequences = r })
  edit_sequence h f e p_contexts = record {
    contexts =
        Refs-modify context_of h f g.region_sequences g.musical_contexts e p_contexts i.contexts;
    sources = i.sources;
    modifications = i.modifications;
    sequences =
        Refs-modify_target sequence_of h f g.playback_regions g.region_sequences e i.sequences;
    region_contexts = i.region_contexts;
  }

  pub edit_source :
      (h : Handle audio_source_kind) (f : AudioSourceRecord → AudioSourceRecord)
      {r : Registry audio_source_kind AudioSourceRecord}
      → modify h f g.audio_sources ≡ ok r
      → IsLinked (record g { audio_sources = r })
  edit_source h f e = record {
    contexts = i.contexts;
    sources = Refs-modify_target source_of h f g.audio_modifications g.audio_sources e i.sources;
    modifications = i.modifications;
    sequences = i.sequences;
    region_contexts = i.region_contexts;
  }

  pub edit_modification :
      (h : Handle audio_modification_kind) (f : AudioModificationRecord → AudioModificationRecord)
      {r : Registry audio_modification_kind AudioModificationRecord}
      → modify h f g.audio_modifications ≡ ok r
      → ((u : AudioModificationRecord)
          → get h g.audio_modifications ≡ ok u
          → Points (source_of (f u)) g.audio_sources)
      → IsLinked (record g { audio_modifications = r })
  edit_modification h f e p_sources = record {
    contexts = i.contexts;
    sources = Refs-modify source_of h f g.audio_modifications g.audio_sources e p_sources i.sources;
    modifications =
        Refs-modify_target modification_of h f g.playback_regions g.audio_modifications e
          i.modifications;
    sequences = i.sequences;
    region_contexts = i.region_contexts;
  }

  pub edit_region :
      (h : Handle playback_region_kind) (f : PlaybackRegionRecord → PlaybackRegionRecord)
      {r : Registry playback_region_kind PlaybackRegionRecord}
      → modify h f g.playback_regions ≡ ok r
      → ((u : PlaybackRegionRecord)
          → get h g.playback_regions ≡ ok u
          → Points (modification_of (f u)) g.audio_modifications)
      → ((u : PlaybackRegionRecord)
          → get h g.playback_regions ≡ ok u
          → Points (sequence_of (f u)) g.region_sequences)
      → ((u : PlaybackRegionRecord)
          → get h g.playback_regions ≡ ok u
          → Points (region_context_of (f u)) g.musical_contexts)
      → IsLinked (record g { playback_regions = r })
  edit_region h f e p_modifications p_sequences p_region_contexts = record {
    contexts = i.contexts;
    sources = i.sources;
    modifications =
        Refs-modify modification_of h f g.playback_regions g.audio_modifications e p_modifications
          i.modifications;
    sequences =
        Refs-modify sequence_of h f g.playback_regions g.region_sequences e p_sequences i.sequences;
    region_contexts =
        Refs-modify region_context_of h f g.playback_regions g.musical_contexts e p_region_contexts
          i.region_contexts;
  }
