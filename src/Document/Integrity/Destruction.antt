-- ===== src/Document/Integrity/Destruction.antt =====
-- Destruction keeps the graph linked (ara2-bridge-host/src/document/edit.rs).
use ara2_bridge.Registry.{
  Handle, remove, musical_context_kind, region_sequence_kind, audio_source_kind,
  audio_modification_kind, playback_region_kind,
}
use ara2_bridge.Document.Session.{Session, Plugin}
use ara2_bridge.Document.Fields.{
  with_contexts, with_sequences, with_sources, with_modifications, with_regions,
}
use ara2_bridge.Document.Keeps.{keep_check, keep_write_map, keep_last_update, keep_pure, keep_call}
use ara2_bridge.Document.Linked.{
  IsLinked, with_ids-IsLinked, context_of, source_of, modification_of, sequence_of,
  region_context_of,
}
use ara2_bridge.Document.Linked.Drop.{
  drop_context, drop_sequence, drop_source, drop_modification, drop_region,
}
use ara2_bridge.Document.Destroy.{
  destroy_musical_context, destroy_region_sequence, destroy_audio_source,
  destroy_audio_modification, destroy_playback_region, context_in_use,
}
use ara2_bridge.Document.Integrity.{guard-not_ok, ||-false, any-NoRef}

module _ (plugin : Plugin) (s : Session) (i : IsLinked s.graph) where
  -- Destroying a musical context leaves no edge dangling.
  pub destroy_musical_context-IsLinked :
      (h : Handle musical_context_kind) → IsLinked (destroy_musical_context plugin h s).0.graph
  unfolding destroy_musical_context
  destroy_musical_context-IsLinked h = keep_check IsLinked _ _ _ i λ _ unused.
      keep_check IsLinked _ _ _ i λ r _. keep_check IsLinked _ _ _ i λ p _.
        keep_call IsLinked _ _ _ _ i λ _ refs calls.
          keep_write_map IsLinked (λ t (_, r). with_contexts t r)
            (λ t. remove h t.graph.musical_contexts) _ _ i
            λ (v, r) removed. keep_pure IsLinked _ _ (
              let (no_sequence, no_region) =
                ||-false _ _ (guard-not_ok (context_in_use h s) _ unused) in
              drop_context s.graph i h removed
                (any-NoRef context_of s.graph.region_sequences h no_sequence)
                (any-NoRef region_context_of s.graph.playback_regions h no_region))

  pub destroy_region_sequence-IsLinked :
      (h : Handle region_sequence_kind) → IsLinked (destroy_region_sequence plugin h s).0.graph
  unfolding destroy_region_sequence
  destroy_region_sequence-IsLinked h = keep_check IsLinked _ _ _ i λ _ unused.
      keep_check IsLinked _ _ _ i λ r _. keep_check IsLinked _ _ _ i λ p _.
        keep_call IsLinked _ _ _ _ i λ _ refs calls.
          keep_write_map IsLinked (λ t (_, r). with_sequences t r)
            (λ t. remove h t.graph.region_sequences) _ _ i
            λ (v, r) removed. keep_pure IsLinked _ _ (
              drop_sequence s.graph i h removed
                (any-NoRef sequence_of s.graph.playback_regions h (guard-not_ok _ _ unused)))

  pub destroy_audio_source-IsLinked :
      (h : Handle audio_source_kind) → IsLinked (destroy_audio_source plugin h s).0.graph
  unfolding destroy_audio_source
  destroy_audio_source-IsLinked h = keep_check IsLinked _ _ _ i λ _ unused.
      keep_check IsLinked _ _ _ i λ _ _. keep_check IsLinked _ _ _ i λ p _.
        keep_call IsLinked _ _ _ _ i λ _ refs calls.
          keep_write_map IsLinked (λ t (_, r). with_sources t r)
            (λ t. remove h t.graph.audio_sources) _ _ i
            λ (v, r) removed. keep_last_update IsLinked _ _ (
              with_ids-IsLinked (record s.graph { audio_sources = r }) _
                (drop_source s.graph i h removed
                  (any-NoRef source_of s.graph.audio_modifications h (guard-not_ok _ _ unused))))

  pub destroy_audio_modification-IsLinked :
      (h : Handle audio_modification_kind)
      → IsLinked (destroy_audio_modification plugin h s).0.graph
  unfolding destroy_audio_modification
  destroy_audio_modification-IsLinked h = keep_check IsLinked _ _ _ i λ _ unused.
      keep_check IsLinked _ _ _ i λ r _. keep_check IsLinked _ _ _ i λ p _.
        keep_call IsLinked _ _ _ _ i λ _ refs calls.
          keep_write_map IsLinked (λ t (_, r). with_modifications t r)
            (λ t. remove h t.graph.audio_modifications) _ _ i
            λ (v, r) removed. keep_last_update IsLinked _ _ (
              with_ids-IsLinked (record s.graph { audio_modifications = r }) _
                (drop_modification s.graph i h removed
                  (any-NoRef modification_of s.graph.playback_regions h (guard-not_ok _ _ unused))))

  pub destroy_playback_region-IsLinked :
      (h : Handle playback_region_kind) → IsLinked (destroy_playback_region plugin h s).0.graph
  unfolding destroy_playback_region
  destroy_playback_region-IsLinked h = keep_check IsLinked _ _ _ i λ r _.
      keep_check IsLinked _ _ _ i λ p _. keep_call IsLinked _ _ _ _ i λ _ refs calls.
        keep_write_map IsLinked (λ t (_, r). with_regions t r)
          (λ t. remove h t.graph.playback_regions) _ _ i
          λ (v, r) removed. keep_pure IsLinked _ _ (drop_region s.graph i h removed)
