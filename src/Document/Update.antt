-- ===== src/Document/Update.antt =====
-- The update operations of ara2-bridge-host/src/document/edit.rs, for records other than regions.
use ara2_bridge.Base.{ℕ, String, Bool, not, ◌&&◌, Option, if◌then◌else◌}
use ara2_bridge.Errors.{guard, ok_or, invalid_argument, invalid_state, unsupported, map_ok}
use ara2_bridge.Registry.{
  Handle, get, modify, musical_context_kind, region_sequence_kind, audio_source_kind,
  audio_modification_kind,
}
use ara2_bridge.Properties.{
  DocumentProperties, MusicalContextProperties, RegionSequenceProperties, AudioSourceProperties,
  AudioModificationProperties, at_least, v2_draft, ensure_generation, region_sequence_as_ffi,
}
use ara2_bridge.Document.Records.{contains, insert_id, remove_id}
use ara2_bridge.Document.Session.{
  Session, Plugin, Call, Op, ◌>>=◌, ◌>>◌, pure, check, write, update, call,
}
use ara2_bridge.Document.Fields.{
  with_contexts, with_sequences, with_sources, with_modifications, with_ids,
}
use text.Mathlib.Text.{◌==◌ as str_eq}
use ara2_bridge.Document.Create.{resolve_context, peer_sequence_properties}

-- Updates the document properties retained by both peers.
unfoldable pub update_document_properties : Plugin → DocumentProperties → Op (Unit {0})
update_document_properties plugin properties = do
  call plugin (Call.update_document_properties properties)
  update (λ s. record s { properties = properties })

-- Updates a live musical context.
unfoldable pub update_musical_context :
    Plugin → Handle musical_context_kind → MusicalContextProperties → Op (Unit {0})
update_musical_context plugin h properties = do
  r ← check (λ s. get h s.graph.musical_contexts)
  p ← check (λ s. ok_or r.peer (invalid_state "musical context is provisional"))
  check (λ s. ensure_generation s.aarch64 s.generation)
  call plugin (Call.update_musical_context p properties)
  write (λ s.
      map_ok (with_contexts s)
        (modify h (λ r. record r { properties = properties }) s.graph.musical_contexts))
  pure tt

-- Notifies the plug-in that host musical-context content changed; a range is its two bit patterns.
unfoldable pub update_musical_context_content :
    Plugin → Handle musical_context_kind → Option (ℕ × ℕ) → ℕ → Op (Unit {0})
update_musical_context_content plugin h range flags = do
  r ← check (λ s. get h s.graph.musical_contexts)
  p ← check (λ s. ok_or r.peer (invalid_state "musical context is provisional"))
  call plugin (Call.update_musical_context_content p range flags)
  pure tt

-- Updates a region sequence and its checked musical-context edge.
unfoldable pub update_region_sequence :
    Plugin → Handle region_sequence_kind → RegionSequenceProperties → Op (Unit {0})
update_region_sequence plugin h properties = do
  check (λ s. guard (at_least v2_draft s.generation) (unsupported "ARA 1 region sequences"))
  (context, context_peer) ← check (resolve_context properties.musical_context.pointer)
  peer_properties ← check (λ s. peer_sequence_properties properties context_peer)
  r ← check (λ s. get h s.graph.region_sequences)
  p ← check (λ s. ok_or r.peer (invalid_state "region sequence is provisional"))
  check (λ s. region_sequence_as_ffi s.aarch64 s.generation)
  call plugin (Call.update_region_sequence p peer_properties)
  write (λ s. map_ok (with_sequences s) (
      modify h (λ r. record r { properties = properties; context = context })
        s.graph.region_sequences))
  pure tt

-- `old_id != new_id && persistent_ids.contains(&new_id)`.
unfoldable pub is_taken : String → String → Session → Bool
is_taken old new s = not (str_eq old new) && contains new s.graph.persistent_ids

-- The exchange of identifiers after an accepted update.
abbrev pub swap_id : String → String → Session → Session
swap_id old new s =
    if str_eq old new then s else with_ids (λ ids. insert_id new (remove_id old ids)) s

-- Updates a live audio source, preserving document-wide persistent-ID uniqueness.
unfoldable pub update_audio_source :
    Plugin → Handle audio_source_kind → AudioSourceProperties → Op (Unit {0})
update_audio_source plugin h properties = do
  r ← check (λ s. get h s.graph.audio_sources)
  check (λ s. guard r.active (invalid_state "audio source is deactivated"))
  p ← check (λ s. ok_or r.peer (invalid_state "audio source is provisional"))
  check (λ s.
      guard (not (is_taken r.properties.persistent_id properties.persistent_id s))
        (invalid_argument "duplicate persistent ID"))
  check (λ s. ensure_generation s.aarch64 s.generation)
  call plugin (Call.update_audio_source p properties)
  update (swap_id r.properties.persistent_id properties.persistent_id)
  write (λ s.
      map_ok (with_sources s)
        (modify h (λ r. record r { properties = properties }) s.graph.audio_sources))
  pure tt

-- Notifies the plug-in that host audio-source samples or content changed.
unfoldable pub update_audio_source_content :
    Plugin → Handle audio_source_kind → Option (ℕ × ℕ) → ℕ → Op (Unit {0})
update_audio_source_content plugin h range flags = do
  r ← check (λ s. get h s.graph.audio_sources)
  check (λ s. guard r.active (invalid_state "audio source is deactivated"))
  p ← check (λ s. ok_or r.peer (invalid_state "audio source is provisional"))
  call plugin (Call.update_audio_source_content p range flags)
  pure tt

-- Updates a live audio modification, preserving document-wide persistent-ID uniqueness.
unfoldable pub update_audio_modification :
    Plugin → Handle audio_modification_kind → AudioModificationProperties → Op (Unit {0})
update_audio_modification plugin h properties = do
  r ← check (λ s. get h s.graph.audio_modifications)
  check (λ s. guard r.active (invalid_state "audio modification is deactivated"))
  p ← check (λ s. ok_or r.peer (invalid_state "audio modification is provisional"))
  check (λ s.
      guard (not (is_taken r.properties.persistent_id properties.persistent_id s))
        (invalid_argument "duplicate persistent ID"))
  call plugin (Call.update_audio_modification p properties)
  update (swap_id r.properties.persistent_id properties.persistent_id)
  write (λ s.
      map_ok (with_modifications s)
        (modify h (λ r. record r { properties = properties }) s.graph.audio_modifications))
  pure tt
