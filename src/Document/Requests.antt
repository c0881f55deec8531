-- ===== src/Document/Requests.antt =====
-- Every operation that a host application performs on a document
-- (ara2-bridge-host/src/document/edit.rs), as one data type and its interpreter,
-- and the new document of ara2-bridge-host/src/document/mod.rs.
use ara2_bridge.Base.{ℕ, Bool, false, Option, List, [], ◌∷◌}
use ara2_bridge.Registry.{
  Handle, NonZero, in_session, default_capacity, musical_context_kind, region_sequence_kind,
  audio_source_kind, audio_modification_kind, playback_region_kind,
}
use ara2_bridge.Properties.{
  DocumentProperties, MusicalContextProperties, RegionSequenceProperties, AudioSourceProperties,
  AudioModificationProperties, PlaybackRegionProperties, ApiGeneration,
}
use ara2_bridge.Document.Records.{
  Graph, MusicalContextRecord, RegionSequenceRecord, AudioSourceRecord, AudioModificationRecord,
  PlaybackRegionRecord,
}
use ara2_bridge.Document.Session.{Session, Plugin}
use ara2_bridge.Document.Editing.{EndMode, begin, begin_legacy_restore, finish, drop}
use ara2_bridge.Document.Create
use ara2_bridge.Document.Regions
use ara2_bridge.Document.Update
use ara2_bridge.Document.Destroy

-- An empty graph: its registries share one session.
unfoldable pub new_graph : NonZero → Graph
new_graph session = record {
  musical_contexts = in_session musical_context_kind MusicalContextRecord session default_capacity;
  region_sequences = in_session region_sequence_kind RegionSequenceRecord session default_capacity;
  audio_sources = in_session audio_source_kind AudioSourceRecord session default_capacity;
  audio_modifications =
      in_session audio_modification_kind AudioModificationRecord session default_capacity;
  playback_regions = in_session playback_region_kind PlaybackRegionRecord session default_capacity;
  persistent_ids = [];
}

-- `DocumentSession::new`, after the plug-in has created its controller.
unfoldable pub new_session : NonZero → ApiGeneration → Bool → DocumentProperties → Session
new_session session generation aarch64 properties = record {
  graph = new_graph session;
  generation = generation;
  aarch64 = aarch64;
  properties = properties;
  provisional_references = [];
  editing = false;
  poisoned = false;
  calls = [];
}

pub data Request : Type 0 where
  begin_edit : Request
  begin_legacy : ℕ → Request
  finish_edit drop_edit : EndMode → Request
  set_document : DocumentProperties → Request
  create_context : ℕ → MusicalContextProperties → Request
  create_sequence : ℕ → RegionSequenceProperties → Request
  create_source : ℕ → AudioSourceProperties → Request
  create_modification : ℕ → Handle audio_source_kind → AudioModificationProperties → Request
  clone_modification : ℕ → Handle audio_modification_kind → AudioModificationProperties → Request
  create_region : ℕ → Handle audio_modification_kind → PlaybackRegionProperties → Request
  update_context : Handle musical_context_kind → MusicalContextProperties → Request
  update_context_content : Handle musical_context_kind → Option (ℕ × ℕ) → ℕ → Request
  update_sequence : Handle region_sequence_kind → RegionSequenceProperties → Request
  update_source : Handle audio_source_kind → AudioSourceProperties → Request
  update_source_content : Handle audio_source_kind → Option (ℕ × ℕ) → ℕ → Request
  update_modification : Handle audio_modification_kind → AudioModificationProperties → Request
  update_region : Handle playback_region_kind → PlaybackRegionProperties → Request
  samples_access source_deactivated : Handle audio_source_kind → Bool → Request
  modification_deactivated : Handle audio_modification_kind → Bool → Request
  destroy_context : Handle musical_context_kind → Request
  destroy_sequence : Handle region_sequence_kind → Request
  destroy_source : Handle audio_source_kind → Request
  destroy_modification : Handle audio_modification_kind → Request
  destroy_region : Handle playback_region_kind → Request

-- The session after a request, whether it succeeds or fails.
unfoldable pub perform : Plugin → Request → Session → Session
perform p begin_edit s = (begin p s).0
perform p (begin_legacy r) s = (begin_legacy_restore p r s).0
perform p (finish_edit m) s = (finish p m s).0
perform p (drop_edit m) s = (drop p m s).0
perform p (set_document q) s = (Update.update_document_properties p q s).0
perform p (create_context a q) s = (Create.create_musical_context p a q s).0
perform p (create_sequence a q) s = (Create.create_region_sequence p a q s).0
perform p (create_source a q) s = (Create.create_audio_source p a q s).0
perform p (create_modification a o q) s = (Create.create_audio_modification p a o q s).0
perform p (clone_modification a o q) s = (Create.clone_audio_modification p a o q s).0
perform p (create_region a o q) s = (Regions.create_playback_region p a o q s).0
perform p (update_context h q) s = (Update.update_musical_context p h q s).0
perform p (update_context_content h r f) s = (Update.update_musical_context_content p h r f s).0
perform p (update_sequence h q) s = (Update.update_region_sequence p h q s).0
perform p (update_source h q) s = (Update.update_audio_source p h q s).0
perform p (update_source_content h r f) s = (Update.update_audio_source_content p h r f s).0
perform p (update_modification h q) s = (Update.update_audio_modification p h q s).0
perform p (update_region h q) s = (Regions.update_playback_region p h q s).0
perform p (samples_access h b) s = (Destroy.set_audio_source_samples_access p h b s).0
perform p (source_deactivated h b) s = (Destroy.set_audio_source_deactivated p h b s).0
perform p (modification_deactivated h b) s = (Destroy.set_audio_modification_deactivated p h b s).0
perform p (destroy_context h) s = (Destroy.destroy_musical_context p h s).0
perform p (destroy_sequence h) s = (Destroy.destroy_region_sequence p h s).0
perform p (destroy_source h) s = (Destroy.destroy_audio_source p h s).0
perform p (destroy_modification h) s = (Destroy.destroy_audio_modification p h s).0
perform p (destroy_region h) s = (Destroy.destroy_playback_region p h s).0

unfoldable pub perform_all : Plugin → List Request → Session → Session
unfolding perform
perform_all p [] s = s
perform_all p (r ∷ rs) s = perform_all p rs (perform p r s)
