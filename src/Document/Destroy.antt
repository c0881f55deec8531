-- ===== src/Document/Destroy.antt =====
-- Activation, destruction and the scope of editing in ara2-bridge-host/src/document/edit.rs.
use ara2_bridge.Base.{Bool, true, false, not, ◌||◌, ◌&&◌, Option, none, some, any}
use ara2_bridge.Errors.{Result, ok, err, guard, ok_or, AraError, invalid_state, map_ok}
use ara2_bridge.Registry.{
  Kind, Handle, same_handle, get, modify, remove, values, musical_context_kind,
  region_sequence_kind, audio_source_kind, audio_modification_kind, playback_region_kind,
}
use ara2_bridge.Document.Records.{remove_id}
use ara2_bridge.Document.Session.{
  Session, Plugin, Call, Op, ◌>>=◌, ◌>>◌, pure, check, write, update, call,
}
use ara2_bridge.Document.Fields.{
  with_contexts, with_sequences, with_sources, with_modifications, with_regions, with_ids,
}

-- Enables or synchronously disables plug-in sample access for one active source.
unfoldable pub set_audio_source_samples_access :
    Plugin → Handle audio_source_kind → Bool → Op (Unit {0})
set_audio_source_samples_access plugin h enable = do
  check (λ s. guard (not s.poisoned) (invalid_state "document session is poisoned"))
  r ← check (λ s. get h s.graph.audio_sources)
  check (λ s. guard r.active (invalid_state "audio source is deactivated"))
  p ← check (λ s. ok_or r.peer (invalid_state "audio source is provisional"))
  call plugin (Call.enable_samples_access p enable)
  write (λ s.
      map_ok (with_sources s)
        (modify h (λ r. record r { samples_access_enabled = enable }) s.graph.audio_sources))
  pure tt

-- Changes undo-history activation after enforcing source/modification ordering.
unfoldable pub set_audio_source_deactivated :
    Plugin → Handle audio_source_kind → Bool → Op (Unit {0})
set_audio_source_deactivated plugin h deactivate = do
  r ← check (λ s. get h s.graph.audio_sources)
  check (λ s.
      guard
        (not (
          deactivate
          && any (λ m. same_handle m.source h && m.active) (values s.graph.audio_modifications)))
        (invalid_state "audio source still has active modifications"))
  p ← check (λ s. ok_or r.peer (invalid_state "audio source is provisional"))
  call plugin (Call.deactivate_audio_source p deactivate)
  write (λ s.
      map_ok (with_sources s)
        (modify h (λ r. record r { active = not deactivate }) s.graph.audio_sources))
  pure tt

-- `!deactivate && !audio_sources.get(source)?.active` is refused.
unfoldable pub source_allows :
    Bool → Handle audio_source_kind → Session → Result AraError (Unit {0})
source_allows true source s = ok tt
source_allows false source s = elim (get source s.graph.audio_sources) [
  | err e ↦ err e
  | ok owner ↦ guard owner.active (invalid_state "audio source is deactivated")
]

-- Changes modification undo-history activation after enforcing graph ordering.
unfoldable pub set_audio_modification_deactivated :
    Plugin → Handle audio_modification_kind → Bool → Op (Unit {0})
unfolding source_allows
set_audio_modification_deactivated plugin h deactivate = do
  r ← check (λ s. get h s.graph.audio_modifications)
  check (λ s.
      guard
        (not (
          deactivate
          && any (λ region. same_handle region.modification h) (values s.graph.playback_regions)))
        (invalid_state "audio modification still has playback regions"))
  check (source_allows deactivate r.source)
  p ← check (λ s. ok_or r.peer (invalid_state "audio modification is provisional"))
  call plugin (Call.deactivate_audio_modification p deactivate)
  write (λ s.
      map_ok (with_modifications s)
        (modify h (λ r. record r { active = not deactivate }) s.graph.audio_modifications))
  pure tt

-- `region.edge == Some(handle)`.
abbrev pub same_edge : {K : Kind} → Option (Handle K) → Handle K → Bool
same_edge none h = false
same_edge (some k) h = same_handle k h

abbrev pub context_in_use : Handle musical_context_kind → Session → Bool
context_in_use h s =
    any (λ sequence. same_handle sequence.context h) (values s.graph.region_sequences)
    || any (λ region. same_edge region.context h) (values s.graph.playback_regions)

abbrev pub sequence_in_use : Handle region_sequence_kind → Session → Bool
sequence_in_use h s = any (λ region. same_edge region.sequence h) (values s.graph.playback_regions)

abbrev pub source_in_use : Handle audio_source_kind → Session → Bool
source_in_use h s = any (λ m. same_handle m.source h) (values s.graph.audio_modifications)

abbrev pub modification_in_use : Handle audio_modification_kind → Session → Bool
modification_in_use h s =
    any (λ region. same_handle region.modification h) (values s.graph.playback_regions)

-- Destroys one context after proving no dependent graph object remains.
unfoldable pub destroy_musical_context : Plugin → Handle musical_context_kind → Op (Unit {0})
destroy_musical_context plugin h = do
  check (λ s.
      guard (not (context_in_use h s))
        (invalid_state "musical context still has dependent regions or sequences"))
  r ← check (λ s. get h s.graph.musical_contexts)
  p ← check (λ s. ok_or r.peer (invalid_state "musical context is provisional"))
  call plugin (Call.destroy_musical_context p)
  write (λ s. map_ok (λ (_, r). with_contexts s r) (remove h s.graph.musical_contexts))
  pure tt

-- Destroys a region sequence after proving no playback region references it.
unfoldable pub destroy_region_sequence : Plugin → Handle region_sequence_kind → Op (Unit {0})
destroy_region_sequence plugin h = do
  check (λ s.
      guard (not (sequence_in_use h s))
        (invalid_state "region sequence still has playback regions"))
  r ← check (λ s. get h s.graph.region_sequences)
  p ← check (λ s. ok_or r.peer (invalid_state "region sequence is provisional"))
  call plugin (Call.destroy_region_sequence p)
  write (λ s. map_ok (λ (_, r). with_sequences s r) (remove h s.graph.region_sequences))
  pure tt

-- Destroys an audio source after proving no modification references it.
unfoldable pub destroy_audio_source : Plugin → Handle audio_source_kind → Op (Unit {0})
destroy_audio_source plugin h = do
  check
      (λ s. guard (not (source_in_use h s)) (invalid_state "audio source still has modifications"))
  r ← check (λ s. get h s.graph.audio_sources)
  p ← check (λ s. ok_or r.peer (invalid_state "audio source is provisional"))
  call plugin (Call.destroy_audio_source p)
  write (λ s. map_ok (λ (_, r). with_sources s r) (remove h s.graph.audio_sources))
  update (with_ids (remove_id r.properties.persistent_id))

-- Destroys an audio modification after proving no playback region references it.
unfoldable pub destroy_audio_modification : Plugin → Handle audio_modification_kind → Op (Unit {0})
destroy_audio_modification plugin h = do
  check (λ s.
      guard (not (modification_in_use h s))
        (invalid_state "audio modification still has playback regions"))
  r ← check (λ s. get h s.graph.audio_modifications)
  p ← check (λ s. ok_or r.peer (invalid_state "audio modification is provisional"))
  call plugin (Call.destroy_audio_modification p)
  write (λ s. map_ok (λ (_, r). with_modifications s r) (remove h s.graph.audio_modifications))
  update (with_ids (remove_id r.properties.persistent_id))

-- Destroys one leaf playback region.
unfoldable pub destroy_playback_region : Plugin → Handle playback_region_kind → Op (Unit {0})
destroy_playback_region plugin h = do
  r ← check (λ s. get h s.graph.playback_regions)
  p ← check (λ s. ok_or r.peer (invalid_state "playback region is provisional"))
  call plugin (Call.destroy_playback_region p)
  write (λ s. map_ok (λ (_, r). with_regions s r) (remove h s.graph.playback_regions))
  pure tt
