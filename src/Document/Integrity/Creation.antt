-- ===== src/Document/Integrity/Creation.antt =====
-- Creation keeps the graph linked, also where the plug-in refuses and the provisional record is taken
-- back (ara2-bridge-host/src/document/edit.rs).
use ara2_bridge.Base.{ℕ, Bool-cases, not, true, false, String, none, some, inl, inr}
use ara2_bridge.Errors.{guard, map_ok}
use ara2_bridge.Registry.{Handle, insert, modify, audio_source_kind, audio_modification_kind}
use ara2_bridge.Registry.Refs.{IsLive}
use ara2_bridge.Registry.Links.{Points, fresh-NoRef}
use ara2_bridge.Properties.{
  MusicalContextProperties, RegionSequenceProperties, AudioSourceProperties,
  AudioModificationProperties, PlaybackRegionProperties,
}
use ara2_bridge.Document.Records.{
  contains, MusicalContextRecord, RegionSequenceRecord, AudioSourceRecord, AudioModificationRecord,
  PlaybackRegionRecord, insert_id, remove_id,
}
use ara2_bridge.Document.Session.{Session, Plugin, Call, Op, check, update, ◌>>=◌}
use ara2_bridge.Document.Fields.{
  with_contexts, with_sequences, with_sources, with_modifications, with_regions, with_ids,
}
use ara2_bridge.Document.Fields
use ara2_bridge.Document.Keeps.{keep_check, keep_store, keep_invoke, keep_settle, after_call}
use ara2_bridge.Document.Linked.{
  IsLinked, with_ids-IsLinked, context_of, source_of, modification_of, sequence_of,
  region_context_of,
}
use ara2_bridge.Document.Linked.Add.{
  add_context, add_sequence, add_source, add_modification, add_region,
}
use ara2_bridge.Document.Integrity.Provisional.{
  take_back_context, take_back_sequence, take_back_source, take_back_modification, take_back_region,
  complete_context, complete_sequence, complete_source, complete_modification, complete_region,
}
use ara2_bridge.Document.Create.{
  create_musical_context, create_region_sequence, create_audio_source, store_modification,
  create_audio_modification, clone_audio_modification, claim_id,
}
use ara2_bridge.Document.Regions.{create_playback_region}
use ara2_bridge.Document.Resolved.{resolve_context-IsLive, region_edges-Point}

-- A claimed identifier is in the set from then on.
keep_claim :
    {B : Type 0} (id : String) (f : Unit {0} → Op B) (s : Session)
    → IsLinked s.graph
    → IsLinked (f tt (with_ids (insert_id id) s)).0.graph
    → IsLinked ((claim_id id >>= f) s).0.graph
unfolding claim_id ◌>>=◌ check update
keep_claim id f s i j = elim (Bool-cases (not (contains id s.graph.persistent_ids))) [
  | inl e ↦ rw (e, guard) j
  | inr e ↦ rw (e, guard) i
]

module _ (plugin : Plugin) (s : Session) (i : IsLinked s.graph) where
  pub create_musical_context-IsLinked :
      (a : ℕ) (p : MusicalContextProperties)
      → IsLinked (create_musical_context plugin a p s).0.graph
  unfolding create_musical_context
  create_musical_context-IsLinked a p =
      let v : MusicalContextRecord = record { properties = p; peer = none } in
      keep_store IsLinked _ (λ t (h, r). (h, with_contexts t r))
        (λ t. insert a v t.graph.musical_contexts) _ _ i
        λ (h, r) added.
          let j : IsLinked (record s.graph { musical_contexts = r }) =
            add_context s.graph i a v added in
          keep_check IsLinked _ _ _ j λ _ _. keep_check IsLinked _ _ _ j λ _ _.
            keep_check IsLinked _ _ _ j λ _ _. keep_invoke IsLinked _ _ _ _ _ λ reply refs calls.
              let t : Session = after_call (with_contexts s r) refs calls in
              keep_settle IsLinked _
                (λ q u.
                  map_ok (with_contexts u)
                    (modify h (λ r. record r { peer = some q }) u.graph.musical_contexts))
                _ h t reply j
                (take_back_context t j h
                  (fresh-NoRef context_of a v s.graph.region_sequences s.graph.musical_contexts
                    added i.contexts)
                  (fresh-NoRef region_context_of a v s.graph.playback_regions
                    s.graph.musical_contexts added i.region_contexts))
                (complete_context t j h)

  pub create_region_sequence-IsLinked :
      (a : ℕ) (p : RegionSequenceProperties)
      → IsLinked (create_region_sequence plugin a p s).0.graph
  unfolding create_region_sequence
  create_region_sequence-IsLinked a p = keep_check IsLinked _ _ _ i λ _ _.
      keep_check IsLinked _ _ _ i λ (c, q) resolved. keep_check IsLinked _ _ _ i λ _ _.
        let v : RegionSequenceRecord = record { properties = p; peer = none; context = c } in
        keep_store IsLinked _ (λ t (h, r). (h, with_sequences t r))
          (λ t. insert a v t.graph.region_sequences) _ _ i
          λ (h, r) added.
            let j : IsLinked (record s.graph { region_sequences = r }) =
              add_sequence s.graph i a v added
                (resolve_context-IsLive p.musical_context.pointer s resolved) in
            keep_check IsLinked _ _ _ j λ _ _. keep_check IsLinked _ _ _ j λ _ _.
              keep_invoke IsLinked _ _ _ _ _ λ reply refs calls.
                let t : Session = after_call (with_sequences s r) refs calls in
                keep_settle IsLinked _
                  (λ q u.
                    map_ok (with_sequences u)
                      (modify h (λ r. record r { peer = some q }) u.graph.region_sequences))
                  _ h t reply j
                  (take_back_sequence t j h (
                    fresh-NoRef sequence_of a v s.graph.playback_regions s.graph.region_sequences
                      added i.sequences))
                  (complete_sequence t j h)

  pub create_audio_source-IsLinked :
      (a : ℕ) (p : AudioSourceProperties) → IsLinked (create_audio_source plugin a p s).0.graph
  unfolding create_audio_source
  create_audio_source-IsLinked a p = keep_claim p.persistent_id _ s i (
      let u : Session = with_ids (insert_id p.persistent_id) s in
      let k : IsLinked u.graph = with_ids-IsLinked s.graph _ i in
      let v : AudioSourceRecord = record {
        properties = p;
        peer = none;
        active = true;
        samples_access_enabled = false;
      } in
      keep_store IsLinked _ (λ t (h, r). (h, with_sources t r))
        (λ t. insert a v t.graph.audio_sources) _ u (with_ids-IsLinked u.graph _ k)
        λ (h, r) added.
          let j : IsLinked (record u.graph { audio_sources = r }) =
            add_source u.graph k a v added in
          keep_check IsLinked _ _ _ j λ _ _. keep_check IsLinked _ _ _ j λ _ _.
            keep_check IsLinked _ _ _ j λ _ _. keep_invoke IsLinked _ _ _ _ _ λ reply refs calls.
              let t : Session = after_call (with_sources u r) refs calls in
              keep_settle IsLinked
                (λ w. with_ids (remove_id p.persistent_id) (Fields.drop_source h w))
                (λ q w.
                  map_ok (with_sources w)
                    (modify h (λ r. record r { peer = some q }) w.graph.audio_sources))
                _ h t reply j
                (with_ids-IsLinked (Fields.drop_source h t).graph _ (
                  take_back_source t j h (
                    fresh-NoRef source_of a v u.graph.audio_modifications u.graph.audio_sources
                      added k.sources)))
                (complete_source t j h))

module _ (plugin : Plugin) (s : Session) (i : IsLinked s.graph) where
  stored_modification-IsLinked :
      (a : ℕ) (o : Handle audio_source_kind) (p : AudioModificationProperties)
      (c : ℕ → AudioModificationProperties → Call) (m : String)
      → IsLive o s.graph.audio_sources
      → IsLinked (store_modification plugin a o p c m s).0.graph
  unfolding store_modification
  stored_modification-IsLinked a o p c m live = keep_claim p.persistent_id _ s i (
      let u : Session = with_ids (insert_id p.persistent_id) s in
      let k : IsLinked u.graph = with_ids-IsLinked s.graph _ i in
      let v : AudioModificationRecord = record {
        properties = p;
        peer = none;
        source = o;
        active = true;
      } in
      keep_store IsLinked _ (λ t (h, r). (h, with_modifications t r))
        (λ t. insert a v t.graph.audio_modifications) _ u (with_ids-IsLinked u.graph _ k)
        λ (h, r) added.
          let j : IsLinked (record u.graph { audio_modifications = r }) =
            add_modification u.graph k a v added live in
          keep_check IsLinked _ _ _ j λ _ _. keep_check IsLinked _ _ _ j λ _ _.
            keep_invoke IsLinked _ _ _ _ _ λ reply refs calls.
              let t : Session = after_call (with_modifications u r) refs calls in
              keep_settle IsLinked
                (λ w. with_ids (remove_id p.persistent_id) (Fields.drop_modification h w))
                (λ q w.
                  map_ok (with_modifications w)
                    (modify h (λ r. record r { peer = some q }) w.graph.audio_modifications))
                _ h t reply j
                (with_ids-IsLinked (Fields.drop_modification h t).graph _ (
                  take_back_modification t j h (
                    fresh-NoRef modification_of a v u.graph.playback_regions
                      u.graph.audio_modifications added k.modifications)))
                (complete_modification t j h))

  pub create_audio_modification-IsLinked :
      (a : ℕ) (o : Handle audio_source_kind) (p : AudioModificationProperties)
      → IsLinked (create_audio_modification plugin a o p s).0.graph
  unfolding create_audio_modification
  create_audio_modification-IsLinked a o p = keep_check IsLinked _ _ _ i λ w found.
      keep_check IsLinked _ _ _ i λ q _. stored_modification-IsLinked a o p _ _ (w, found)

  pub clone_audio_modification-IsLinked :
      (a : ℕ) (o : Handle audio_modification_kind) (p : AudioModificationProperties)
      → IsLinked (clone_audio_modification plugin a o p s).0.graph
  unfolding clone_audio_modification
  clone_audio_modification-IsLinked a o p = keep_check IsLinked _ _ _ i λ r found.
      keep_check IsLinked _ _ _ i λ _ _. keep_check IsLinked _ _ _ i λ w live.
        keep_check IsLinked _ _ _ i λ _ _.
          keep_check IsLinked _ _ _ i λ q _. stored_modification-IsLinked a r.source p _ _ (w, live)

  pub create_playback_region-IsLinked :
      (a : ℕ) (o : Handle audio_modification_kind) (p : PlaybackRegionProperties)
      → IsLinked (create_playback_region plugin a o p s).0.graph
  unfolding create_playback_region
  create_playback_region-IsLinked a o p = keep_check IsLinked _ _ _ i λ w found.
      keep_check IsLinked _ _ _ i λ _ _. keep_check IsLinked _ _ _ i λ edges resolved.
        let v : PlaybackRegionRecord = record {
          properties = p;
          peer = none;
          modification = o;
          sequence = edges.sequence;
          context = edges.context;
        } in
        keep_store IsLinked _ (λ t (h, r). (h, with_regions t r))
          (λ t. insert a v t.graph.playback_regions) _ _ i
          λ (h, r) added.
            let points : (Points edges.sequence s.graph.region_sequences)
                × (Points edges.context s.graph.musical_contexts) =
              region_edges-Point p s resolved in
            let j : IsLinked (record s.graph { playback_regions = r }) =
              add_region s.graph i a v added (w, found) points.0 points.1 in
            keep_check IsLinked _ _ _ j λ _ _. keep_check IsLinked _ _ _ j λ _ _.
              keep_invoke IsLinked _ _ _ _ _ λ reply refs calls.
                let t : Session = after_call (with_regions s r) refs calls in
                keep_settle IsLinked _
                  (λ q u.
                    map_ok (with_regions u)
                      (modify h (λ r. record r { peer = some q }) u.graph.playback_regions))
                  _ h t reply j (take_back_region t j h) (complete_region t j h)
