-- ===== src/Document/Regions.antt =====
-- The playback-region operations of ara2-bridge-host/src/document/edit.rs: regions carry the graph
-- edges that depend on the API generation.
use ara2_bridge.Base.{ℕ, Option, none, some, if◌then◌else◌}
use ara2_bridge.Errors.{Result, ok, err, ok_or, AraError, invalid_argument, invalid_state, map_ok}
use ara2_bridge.Registry.{
  Handle, insert, get, modify, opaque_pointer, handle_from_opaque, from_raw, musical_context_kind,
  region_sequence_kind, audio_modification_kind, playback_region_kind,
}
use ara2_bridge.Properties.{
  PlaybackRegionProperties, at_least, v2_draft, playback_region_as_ffi, with_region_sequence,
  with_musical_context,
}
use ara2_bridge.Document.Session.{
  Session, Plugin, Call, Op, ◌>>=◌, ◌>>◌, pure, check, write, write_or, call, invoke_provisional,
}
use ara2_bridge.Document.Fields.{with_regions, drop_region}
use ara2_bridge.Document.Create.{settle, resolve_context}

-- The peer of a live region sequence at a host address, with its handle.
unfoldable pub resolve_sequence : ℕ → Session → Result AraError (Handle region_sequence_kind × ℕ)
resolve_sequence pointer s = elim (handle_from_opaque pointer s.graph.region_sequences) [
  | err e ↦ err e
  | ok h ↦ elim (get h s.graph.region_sequences) [
    | err e ↦ err e
    | ok r ↦ map_ok (λ p. (h, p)) (ok_or r.peer (invalid_state "region sequence is provisional"))
  ]
]

-- The edges of a region and the properties that the plug-in sees.
pub record Edges : Type 0 where
  pub sequence : Option (Handle region_sequence_kind)
  pub context : Option (Handle musical_context_kind)
  pub peer_properties : PlaybackRegionProperties

unfoldable pub edges_of_sequence :
    PlaybackRegionProperties → Handle region_sequence_kind × ℕ → Result AraError Edges
edges_of_sequence properties (h, p) = elim (from_raw p) [
  | err e ↦ err e
  | ok reference ↦
      map_ok (λ q. record { sequence = some h; context = none; peer_properties = q })
        (with_region_sequence reference properties)
]

unfoldable pub edges_of_context :
    PlaybackRegionProperties → Handle musical_context_kind × ℕ → Result AraError Edges
edges_of_context properties (h, p) = elim (from_raw p) [
  | err e ↦ err e
  | ok reference ↦
      map_ok (λ q. record { sequence = none; context = some h; peer_properties = q })
        (with_musical_context reference properties)
]

unfoldable pub ara2_edges : PlaybackRegionProperties → Session → Result AraError Edges
unfolding edges_of_sequence resolve_sequence
ara2_edges properties s = elim properties.region_sequence [
  | none ↦ err (invalid_argument "ARA 2 playback region requires a region sequence")
  | some reference ↦ elim (resolve_sequence reference.pointer s) [
    | err e ↦ err e
    | ok found ↦ edges_of_sequence properties found
  ]
]

unfoldable pub ara1_edges : PlaybackRegionProperties → Session → Result AraError Edges
unfolding edges_of_context
ara1_edges properties s = elim properties.musical_context [
  | none ↦ err (invalid_argument "ARA 1 playback region requires a musical context")
  | some reference ↦ elim (resolve_context reference.pointer s) [
    | err e ↦ err e
    | ok found ↦ edges_of_context properties found
  ]
]

-- The generation decides which edge a region has.
unfoldable pub region_edges : PlaybackRegionProperties → Session → Result AraError Edges
unfolding ara2_edges ara1_edges
region_edges properties s =
    if at_least v2_draft s.generation then ara2_edges properties s else ara1_edges properties s

-- Provisionally registers and creates one playback region with checked graph edges.
unfoldable pub create_playback_region :
    Plugin
    → ℕ
    → Handle audio_modification_kind
    → PlaybackRegionProperties
    → Op (Handle playback_region_kind)
unfolding region_edges
create_playback_region plugin address modification properties = do
  owner ← check (λ s. get modification s.graph.audio_modifications)
  modification_peer ←
      check (λ s. ok_or owner.peer (invalid_state "audio modification is provisional"))
  edges ← check (region_edges properties)
  h ←
      write_or (λ s. s)
        (λ s.
          map_ok (λ (h, r). (h, with_regions s r))
            (insert address
              (record {
                properties = properties;
                peer = none;
                modification = modification;
                sequence = edges.sequence;
                context = edges.context;
              })
              s.graph.playback_regions))
  host_ref ← check (λ s. opaque_pointer h s.graph.playback_regions)
  check (λ s. playback_region_as_ffi s.aarch64 s.generation edges.peer_properties)
  reply ←
      invoke_provisional plugin host_ref
        (Call.create_playback_region modification_peer host_ref edges.peer_properties)
  settle (drop_region h)
      (λ p s.
        map_ok (with_regions s)
          (modify h (λ r. record r { peer = some p }) s.graph.playback_regions))
      "plug-in rejected playback region" h reply

-- Updates a playback region and its checked generation-specific graph edge.
unfoldable pub update_playback_region :
    Plugin → Handle playback_region_kind → PlaybackRegionProperties → Op (Unit {0})
unfolding region_edges
update_playback_region plugin h properties = do
  edges ← check (region_edges properties)
  r ← check (λ s. get h s.graph.playback_regions)
  p ← check (λ s. ok_or r.peer (invalid_state "playback region is provisional"))
  check (λ s. playback_region_as_ffi s.aarch64 s.generation edges.peer_properties)
  call plugin (Call.update_playback_region p edges.peer_properties)
  write (λ s. map_ok (with_regions s) (
      modify h
        (λ r. record r {
          properties = properties;
          sequence = edges.sequence;
          context = edges.context;
        })
        s.graph.playback_regions))
  pure tt
