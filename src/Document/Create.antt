-- ===== src/Document/Create.antt =====
-- The create operations of ara2-bridge-host/src/document/edit.rs: a provisional record is stored,
-- the plug-in is asked for its peer, and the record is completed or taken back.
use ara2_bridge.Base.{ℕ, zero, suc, String, Bool, true, false, not, ◌||◌, none, some}
use ara2_bridge.Errors.{
  Result, ok, err, guard, ok_or, AraError, invalid_argument, invalid_state, unsupported, peer,
  map_ok,
}
use ara2_bridge.Registry.{
  Kind, Handle, insert, get, modify, opaque_pointer, handle_from_opaque, from_raw,
  musical_context_kind, region_sequence_kind, audio_source_kind, audio_modification_kind,
}
use ara2_bridge.Properties.{
  MusicalContextProperties, RegionSequenceProperties, AudioSourceProperties,
  AudioModificationProperties, at_least, v2_draft, ensure_generation, region_sequence_as_ffi,
  new_region_sequence_properties,
}
use ara2_bridge.Document.Records.{contains, insert_id, remove_id}
use ara2_bridge.Document.Session.{
  Session, Plugin, Call, Op, ◌>>=◌, ◌>>◌, pure, fail, check, write, write_or, update,
  invoke_provisional,
}
use ara2_bridge.Document.Fields.{
  with_contexts, with_sequences, with_sources, with_modifications, with_ids, drop_context,
  drop_sequence, drop_source, drop_modification,
}

-- `poisoned |= escaped`.
abbrev pub poison_if : Bool → Session → Session
poison_if escaped s = record s { poisoned = s.poisoned || escaped }

-- The outcome of a create call: an error or a null peer takes the provisional record back, and a
-- peer is written into it.
unfoldable pub settle :
    {K : Kind}
    → (Session → Session)
    → (ℕ → Session → Result AraError Session)
    → String
    → Handle K
    → Result AraError ℕ × Bool
    → Op (Handle K)
settle undo complete message h (err e, escaped) = do
  update (λ s. poison_if escaped (undo s))
  fail e
settle undo complete message h (ok zero, escaped) = do
  update (λ s. poison_if escaped (undo s))
  fail (peer message)
settle undo complete message h (ok (suc p), escaped) = do write (complete (suc p)); pure h

-- Provisionally registers and creates one musical context.
unfoldable pub create_musical_context :
    Plugin → ℕ → MusicalContextProperties → Op (Handle musical_context_kind)
create_musical_context plugin address properties = do
  h ←
      write_or (λ s. s)
        (λ s.
          map_ok (λ (h, r). (h, with_contexts s r))
            (insert address (record { properties = properties; peer = none })
              s.graph.musical_contexts))
  host_ref ← check (λ s. opaque_pointer h s.graph.musical_contexts)
  stored ← check (λ s. get h s.graph.musical_contexts)
  check (λ s. ensure_generation s.aarch64 s.generation)
  reply ←
      invoke_provisional plugin host_ref (Call.create_musical_context host_ref stored.properties)
  settle (drop_context h)
      (λ p s.
        map_ok (with_contexts s)
          (modify h (λ r. record r { peer = some p }) s.graph.musical_contexts))
      "plug-in rejected musical context" h reply

-- The peer of a live musical context at a host address, with its handle.
unfoldable pub resolve_context : ℕ → Session → Result AraError (Handle musical_context_kind × ℕ)
resolve_context pointer s = elim (handle_from_opaque pointer s.graph.musical_contexts) [
  | err e ↦ err e
  | ok h ↦ elim (get h s.graph.musical_contexts) [
    | err e ↦ err e
    | ok r ↦ map_ok (λ p. (h, p)) (ok_or r.peer (invalid_state "musical context is provisional"))
  ]
]

-- The properties that the plug-in sees: the context reference is its own.
unfoldable pub peer_sequence_properties :
    RegionSequenceProperties → ℕ → Result AraError RegionSequenceProperties
peer_sequence_properties properties context_peer = elim (from_raw context_peer) [
  | err e ↦ err e
  | ok reference ↦
      new_region_sequence_properties properties.name properties.order_index reference
        properties.color
]

-- Provisionally registers and creates an ARA 2 region sequence.
unfoldable pub create_region_sequence :
    Plugin → ℕ → RegionSequenceProperties → Op (Handle region_sequence_kind)
create_region_sequence plugin address properties = do
  check (λ s. guard (at_least v2_draft s.generation) (unsupported "ARA 1 region sequences"))
  (context, context_peer) ← check (resolve_context properties.musical_context.pointer)
  peer_properties ← check (λ s. peer_sequence_properties properties context_peer)
  h ←
      write_or (λ s. s)
        (λ s.
          map_ok (λ (h, r). (h, with_sequences s r))
            (insert address (record { properties = properties; peer = none; context = context })
              s.graph.region_sequences))
  host_ref ← check (λ s. opaque_pointer h s.graph.region_sequences)
  check (λ s. region_sequence_as_ffi s.aarch64 s.generation)
  reply ← invoke_provisional plugin host_ref (Call.create_region_sequence host_ref peer_properties)
  settle (drop_sequence h)
      (λ p s.
        map_ok (with_sequences s)
          (modify h (λ r. record r { peer = some p }) s.graph.region_sequences))
      "plug-in rejected region sequence" h reply

-- `persistent_ids.insert`, refused for an identifier that the document has.
unfoldable pub claim_id : String → Op (Unit {0})
claim_id id = do
  check (λ s.
      guard (not (contains id s.graph.persistent_ids)) (invalid_argument "duplicate persistent ID"))
  update (with_ids (insert_id id))

-- Provisionally registers and creates one audio source with a document-unique ID.
unfoldable pub create_audio_source :
    Plugin → ℕ → AudioSourceProperties → Op (Handle audio_source_kind)
create_audio_source plugin address properties = do
  claim_id properties.persistent_id
  h ← write_or (with_ids (remove_id properties.persistent_id)) (λ s.
      map_ok (λ (h, r). (h, with_sources s r))
        (insert address
          (record {
            properties = properties;
            peer = none;
            active = true;
            samples_access_enabled = false;
          })
          s.graph.audio_sources))
  host_ref ← check (λ s. opaque_pointer h s.graph.audio_sources)
  stored ← check (λ s. get h s.graph.audio_sources)
  check (λ s. ensure_generation s.aarch64 s.generation)
  reply ← invoke_provisional plugin host_ref (Call.create_audio_source host_ref stored.properties)
  settle (λ s. with_ids (remove_id properties.persistent_id) (drop_source h s))
      (λ p s.
        map_ok (with_sources s) (modify h (λ r. record r { peer = some p }) s.graph.audio_sources))
      "plug-in rejected audio source" h reply

-- What creating and cloning a modification share: all after the checks of the original.
unfoldable pub store_modification :
    Plugin
    → ℕ
    → Handle audio_source_kind
    → AudioModificationProperties
    → (ℕ → AudioModificationProperties → Call)
    → String
    → Op (Handle audio_modification_kind)
store_modification plugin address source properties request message = do
  claim_id properties.persistent_id
  h ← write_or (with_ids (remove_id properties.persistent_id)) (λ s.
      map_ok (λ (h, r). (h, with_modifications s r))
        (insert address
          (record { properties = properties; peer = none; source = source; active = true })
          s.graph.audio_modifications))
  host_ref ← check (λ s. opaque_pointer h s.graph.audio_modifications)
  stored ← check (λ s. get h s.graph.audio_modifications)
  reply ← invoke_provisional plugin host_ref (request host_ref stored.properties)
  settle (λ s. with_ids (remove_id properties.persistent_id) (drop_modification h s))
      (λ p s.
        map_ok (with_modifications s)
          (modify h (λ r. record r { peer = some p }) s.graph.audio_modifications))
      message h reply

-- Provisionally registers and creates one audio modification for a live source.
unfoldable pub create_audio_modification :
    Plugin
    → ℕ
    → Handle audio_source_kind
    → AudioModificationProperties
    → Op (Handle audio_modification_kind)
create_audio_modification plugin address source properties = do
  owner ← check (λ s. get source s.graph.audio_sources)
  source_peer ← check (λ s. ok_or owner.peer (invalid_state "audio source is provisional"))
  store_modification plugin address source properties (Call.create_audio_modification source_peer)
      "plug-in rejected audio modification"

-- Clones one live audio modification into a distinct host identity and persistent ID.
unfoldable pub clone_audio_modification :
    Plugin
    → ℕ
    → Handle audio_modification_kind
    → AudioModificationProperties
    → Op (Handle audio_modification_kind)
clone_audio_modification plugin address original properties = do
  r ← check (λ s. get original s.graph.audio_modifications)
  check (λ s. guard r.active (invalid_state "audio modification is deactivated"))
  owner ← check (λ s. get r.source s.graph.audio_sources)
  check (λ s. guard owner.active (invalid_state "audio source is deactivated"))
  original_peer ← check (λ s. ok_or r.peer (invalid_state "audio modification is provisional"))
  store_modification plugin address r.source properties
      (Call.clone_audio_modification original_peer) "plug-in rejected cloned audio modification"
