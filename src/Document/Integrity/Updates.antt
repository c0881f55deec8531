-- ===== src/Document/Integrity/Updates.antt =====
-- Updates and changes of activation keep the graph linked (ara2-bridge-host/src/document/edit.rs).
use ara2_bridge.Base.{ℕ, Bool, not, String, Option, Bool-cases, inl, inr}
use ara2_bridge.Registry.{
  Handle, modify, musical_context_kind, region_sequence_kind, audio_source_kind,
  audio_modification_kind, playback_region_kind,
}
use ara2_bridge.Properties.{
  DocumentProperties, MusicalContextProperties, RegionSequenceProperties, AudioSourceProperties,
  AudioModificationProperties, PlaybackRegionProperties,
}
use ara2_bridge.Document.Session.{Session, Plugin}
use ara2_bridge.Document.Fields.{
  with_contexts, with_sequences, with_sources, with_modifications, with_regions,
}
use ara2_bridge.Document.Keeps.{
  keep_check, keep_write_map, keep_update, keep_last_update, keep_pure, keep_call, after_call,
}
use ara2_bridge.Document.Linked.{IsLinked, with_ids-IsLinked}
use ara2_bridge.Document.Linked.Edit.{
  edit_context, edit_sequence, edit_source, edit_modification, edit_region,
}
use ara2_bridge.Document.Update.{
  swap_id, update_document_properties, update_musical_context, update_musical_context_content,
  update_region_sequence, update_audio_source, update_audio_source_content,
  update_audio_modification,
}
use text.Mathlib.Text.{◌==◌ as str_eq}
use ara2_bridge.Document.Resolved.{resolve_context-IsLive, region_edges-Point}
use ara2_bridge.Document.Regions.{update_playback_region}
use ara2_bridge.Document.Destroy.{
  set_audio_source_samples_access, set_audio_source_deactivated, set_audio_modification_deactivated,
}

module _ (plugin : Plugin) (s : Session) (i : IsLinked s.graph) where
  pub update_document_properties-IsLinked :
      (p : DocumentProperties) → IsLinked (update_document_properties plugin p s).0.graph
  unfolding update_document_properties
  update_document_properties-IsLinked p =
      keep_call IsLinked _ _ _ _ i λ _ refs calls. keep_last_update IsLinked _ _ i

  pub update_musical_context-IsLinked :
      (h : Handle musical_context_kind) (p : MusicalContextProperties)
      → IsLinked (update_musical_context plugin h p s).0.graph
  unfolding update_musical_context
  update_musical_context-IsLinked h p = keep_check IsLinked _ _ _ i λ _ _.
      keep_check IsLinked _ _ _ i λ _ _. keep_check IsLinked _ _ _ i λ _ _.
        keep_call IsLinked _ _ _ _ i λ _ refs calls.
          keep_write_map IsLinked with_contexts
            (λ t. modify h (λ r. record r { properties = p }) t.graph.musical_contexts) _ _ i
            λ r written. keep_pure IsLinked _ _ (edit_context s.graph i h _ written)

  pub set_audio_source_samples_access-IsLinked :
      (h : Handle audio_source_kind) (b : Bool)
      → IsLinked (set_audio_source_samples_access plugin h b s).0.graph
  unfolding set_audio_source_samples_access
  set_audio_source_samples_access-IsLinked h b = keep_check IsLinked _ _ _ i λ _ _.
      keep_check IsLinked _ _ _ i λ _ _. keep_check IsLinked _ _ _ i λ _ _.
        keep_check IsLinked _ _ _ i λ _ _. keep_call IsLinked _ _ _ _ i λ _ refs calls.
          keep_write_map IsLinked with_sources
            (λ t. modify h (λ r. record r { samples_access_enabled = b }) t.graph.audio_sources) _ _
            i λ r written. keep_pure IsLinked _ _ (edit_source s.graph i h _ written)

  pub set_audio_source_deactivated-IsLinked :
      (h : Handle audio_source_kind) (b : Bool)
      → IsLinked (set_audio_source_deactivated plugin h b s).0.graph
  unfolding set_audio_source_deactivated
  set_audio_source_deactivated-IsLinked h b = keep_check IsLinked _ _ _ i λ _ _.
      keep_check IsLinked _ _ _ i λ _ _. keep_check IsLinked _ _ _ i λ _ _.
        keep_call IsLinked _ _ _ _ i λ _ refs calls.
          keep_write_map IsLinked with_sources
            (λ t. modify h (λ r. record r { active = not b }) t.graph.audio_sources) _ _ i
            λ r written. keep_pure IsLinked _ _ (edit_source s.graph i h _ written)

  pub set_audio_modification_deactivated-IsLinked :
      (h : Handle audio_modification_kind) (b : Bool)
      → IsLinked (set_audio_modification_deactivated plugin h b s).0.graph
  unfolding set_audio_modification_deactivated
  set_audio_modification_deactivated-IsLinked h b = keep_check IsLinked _ _ _ i λ _ _.
      keep_check IsLinked _ _ _ i λ _ _. keep_check IsLinked _ _ _ i λ _ _.
        keep_check IsLinked _ _ _ i λ _ _. keep_call IsLinked _ _ _ _ i λ _ refs calls.
          keep_write_map IsLinked with_modifications
            (λ t. modify h (λ r. record r { active = not b }) t.graph.audio_modifications) _ _ i
            λ r written.
              keep_pure IsLinked _ _
                (edit_modification s.graph i h _ written λ u live. i.sources h u live)

  pub update_musical_context_content-IsLinked :
      (h : Handle musical_context_kind) (range : Option (ℕ × ℕ)) (flags : ℕ)
      → IsLinked (update_musical_context_content plugin h range flags s).0.graph
  unfolding update_musical_context_content
  update_musical_context_content-IsLinked h range flags = keep_check IsLinked _ _ _ i λ _ _.
      keep_check IsLinked _ _ _ i
        λ _ _. keep_call IsLinked _ _ _ _ i λ _ refs calls. keep_pure IsLinked _ _ i

  pub update_audio_source_content-IsLinked :
      (h : Handle audio_source_kind) (range : Option (ℕ × ℕ)) (flags : ℕ)
      → IsLinked (update_audio_source_content plugin h range flags s).0.graph
  unfolding update_audio_source_content
  update_audio_source_content-IsLinked h range flags = keep_check IsLinked _ _ _ i λ _ _.
      keep_check IsLinked _ _ _ i λ _ _.
        keep_check IsLinked _ _ _ i
          λ _ _. keep_call IsLinked _ _ _ _ i λ _ refs calls. keep_pure IsLinked _ _ i

  pub update_region_sequence-IsLinked :
      (h : Handle region_sequence_kind) (p : RegionSequenceProperties)
      → IsLinked (update_region_sequence plugin h p s).0.graph
  unfolding update_region_sequence
  update_region_sequence-IsLinked h p = keep_check IsLinked _ _ _ i λ _ _.
      keep_check IsLinked _ _ _ i λ found resolved. keep_check IsLinked _ _ _ i λ _ _.
        keep_check IsLinked _ _ _ i λ _ _. keep_check IsLinked _ _ _ i λ _ _.
          keep_check IsLinked _ _ _ i λ _ _. keep_call IsLinked _ _ _ _ i λ _ refs calls.
            keep_write_map IsLinked with_sequences
              (λ t.
                modify h (λ r. record r { properties = p; context = found.0 })
                  t.graph.region_sequences)
              _ _ i
              λ r written. keep_pure IsLinked _ _ (
                edit_sequence s.graph i h _ written
                  λ _ _. resolve_context-IsLive p.musical_context.pointer s resolved)

  swapped : (old new : String) (t : Session) → IsLinked t.graph → IsLinked (swap_id old new t).graph
  swapped old new t j = elim (Bool-cases (str_eq old new)) [
    | inl e ↦ rw e j
    | inr e ↦ rw e (with_ids-IsLinked t.graph _ j)
  ]

  pub update_audio_source-IsLinked :
      (h : Handle audio_source_kind) (p : AudioSourceProperties)
      → IsLinked (update_audio_source plugin h p s).0.graph
  unfolding update_audio_source
  update_audio_source-IsLinked h p = keep_check IsLinked _ _ _ i λ old _.
      keep_check IsLinked _ _ _ i λ _ _. keep_check IsLinked _ _ _ i λ _ _.
        keep_check IsLinked _ _ _ i λ _ _. keep_check IsLinked _ _ _ i λ _ _.
          keep_call IsLinked _ _ _ _ i λ _ refs calls. keep_update IsLinked _ _ _ (
            let t : Session =
              swap_id old.properties.persistent_id p.persistent_id (after_call s refs calls) in
            let j : IsLinked t.graph =
              swapped old.properties.persistent_id p.persistent_id (after_call s refs calls) i in
            keep_write_map IsLinked with_sources
              (λ t. modify h (λ r. record r { properties = p }) t.graph.audio_sources) _ _ j
              λ r written. keep_pure IsLinked _ _ (edit_source t.graph j h _ written))

  pub update_audio_modification-IsLinked :
      (h : Handle audio_modification_kind) (p : AudioModificationProperties)
      → IsLinked (update_audio_modification plugin h p s).0.graph
  unfolding update_audio_modification
  update_audio_modification-IsLinked h p = keep_check IsLinked _ _ _ i λ old _.
      keep_check IsLinked _ _ _ i λ _ _. keep_check IsLinked _ _ _ i λ _ _.
        keep_check IsLinked _ _ _ i λ _ _. keep_call IsLinked _ _ _ _ i λ _ refs calls.
          keep_update IsLinked _ _ _ (
            let t : Session =
              swap_id old.properties.persistent_id p.persistent_id (after_call s refs calls) in
            let j : IsLinked t.graph =
              swapped old.properties.persistent_id p.persistent_id (after_call s refs calls) i in
            keep_write_map IsLinked with_modifications
              (λ t. modify h (λ r. record r { properties = p }) t.graph.audio_modifications) _ _ j
              λ r written.
                keep_pure IsLinked _ _
                  (edit_modification t.graph j h _ written λ u live. j.sources h u live))

  pub update_playback_region-IsLinked :
      (h : Handle playback_region_kind) (p : PlaybackRegionProperties)
      → IsLinked (update_playback_region plugin h p s).0.graph
  unfolding update_playback_region
  update_playback_region-IsLinked h p = keep_check IsLinked _ _ _ i λ edges resolved.
      keep_check IsLinked _ _ _ i λ _ _. keep_check IsLinked _ _ _ i λ _ _.
        keep_check IsLinked _ _ _ i λ _ _. keep_call IsLinked _ _ _ _ i λ _ refs calls.
          keep_write_map IsLinked with_regions
            (λ t.
              modify h
                (λ r. record r {
                  properties = p;
                  sequence = edges.sequence;
                  context = edges.context;
                })
                t.graph.playback_regions)
            _ _ i
            λ r written. keep_pure IsLinked _ _ (
              let (a, b) = region_edges-Point p s resolved in
              edit_region s.graph i h _ written (λ u live. i.modifications h u live) (λ _ _. a)
                (λ _ _. b))
