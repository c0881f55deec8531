-- ===== src/Document/Integrity/Histories.antt =====
-- Integrity over whole histories of a document (ara2-bridge-host/src/document).
use ara2_bridge.Base.{ℕ, Bool, List, [], ◌∷◌, ◌≢◌}
use ara2_bridge.Errors.{ok}
use ara2_bridge.Registry.{Kind, Handle, NonZero, in_session, get}
use ara2_bridge.Registry.Laws.{get-ok_inv}
use ara2_bridge.Properties.{ApiGeneration, DocumentProperties}
use ara2_bridge.Document.Session.{Session, Plugin}
use ara2_bridge.Document.Requests.{Request, perform, perform_all, new_graph, new_session}
use ara2_bridge.Document.Linked.{IsLinked}
use ara2_bridge.Document.Integrity.Creation.{
  create_musical_context-IsLinked, create_region_sequence-IsLinked, create_audio_source-IsLinked,
  create_audio_modification-IsLinked, clone_audio_modification-IsLinked,
  create_playback_region-IsLinked,
}
use ara2_bridge.Document.Integrity.Updates.{
  update_document_properties-IsLinked, update_musical_context-IsLinked,
  update_musical_context_content-IsLinked, update_region_sequence-IsLinked,
  update_audio_source-IsLinked, update_audio_source_content-IsLinked,
  update_audio_modification-IsLinked, update_playback_region-IsLinked,
  set_audio_source_samples_access-IsLinked, set_audio_source_deactivated-IsLinked,
  set_audio_modification_deactivated-IsLinked,
}
use ara2_bridge.Document.Integrity.Destruction.{
  destroy_musical_context-IsLinked, destroy_region_sequence-IsLinked, destroy_audio_source-IsLinked,
  destroy_audio_modification-IsLinked, destroy_playback_region-IsLinked,
}
use ara2_bridge.Document.Integrity.Scopes.{keep_begin, keep_begin_legacy, keep_finish, keep_drop}

step-IsLinked :
    (p : Plugin) (r : Request) (s : Session) → IsLinked s.graph → IsLinked (perform p r s).graph
unfolding perform
step-IsLinked p Request.begin_edit s i = keep_begin IsLinked p s i
step-IsLinked p (Request.begin_legacy r) s i = keep_begin_legacy IsLinked p s i r
step-IsLinked p (Request.finish_edit m) s i = keep_finish IsLinked p s i m
step-IsLinked p (Request.drop_edit m) s i = keep_drop IsLinked p s i m
step-IsLinked p (Request.set_document q) s i = update_document_properties-IsLinked p s i q
step-IsLinked p (Request.create_context a q) s i = create_musical_context-IsLinked p s i a q
step-IsLinked p (Request.create_sequence a q) s i = create_region_sequence-IsLinked p s i a q
step-IsLinked p (Request.create_source a q) s i = create_audio_source-IsLinked p s i a q
step-IsLinked p (Request.create_modification a o q) s i =
    create_audio_modification-IsLinked p s i a o q
step-IsLinked p (Request.clone_modification a o q) s i =
    clone_audio_modification-IsLinked p s i a o q
step-IsLinked p (Request.create_region a o q) s i = create_playback_region-IsLinked p s i a o q
step-IsLinked p (Request.update_context h q) s i = update_musical_context-IsLinked p s i h q
step-IsLinked p (Request.update_context_content h r f) s i =
    update_musical_context_content-IsLinked p s i h r f
step-IsLinked p (Request.update_sequence h q) s i = update_region_sequence-IsLinked p s i h q
step-IsLinked p (Request.update_source h q) s i = update_audio_source-IsLinked p s i h q
step-IsLinked p (Request.update_source_content h r f) s i =
    update_audio_source_content-IsLinked p s i h r f
step-IsLinked p (Request.update_modification h q) s i = update_audio_modification-IsLinked p s i h q
step-IsLinked p (Request.update_region h q) s i = update_playback_region-IsLinked p s i h q
step-IsLinked p (Request.samples_access h b) s i =
    set_audio_source_samples_access-IsLinked p s i h b
step-IsLinked p (Request.source_deactivated h b) s i =
    set_audio_source_deactivated-IsLinked p s i h b
step-IsLinked p (Request.modification_deactivated h b) s i =
    set_audio_modification_deactivated-IsLinked p s i h b
step-IsLinked p (Request.destroy_context h) s i = destroy_musical_context-IsLinked p s i h
step-IsLinked p (Request.destroy_sequence h) s i = destroy_region_sequence-IsLinked p s i h
step-IsLinked p (Request.destroy_source h) s i = destroy_audio_source-IsLinked p s i h
step-IsLinked p (Request.destroy_modification h) s i = destroy_audio_modification-IsLinked p s i h
step-IsLinked p (Request.destroy_region h) s i = destroy_playback_region-IsLinked p s i h

-- From a session whose graph is linked, any sequence of requests, each with any outcome, leads to a
-- session whose graph is linked.
pub perform_all-IsLinked :
    (p : Plugin) (rs : List Request) (s : Session)
    → IsLinked s.graph
    → IsLinked (perform_all p rs s).graph
unfolding perform_all
perform_all-IsLinked p [] s i = i
perform_all-IsLinked p (r ∷ rs) s i =
    perform_all-IsLinked p rs (perform p r s) (step-IsLinked p r s i)

-- An empty registry has no live value.
empty-not_live :
    {K : Kind} {T : Type 0} (n : NonZero) (c : ℕ) (h : Handle K) (v : T)
    → get h (in_session K T n c) ≢ ok v
unfolding in_session
empty-not_live {K} {T} n c h v e = let (same, found) = get-ok_inv h (in_session K T n c) e in cc

-- A new document is linked.
new_graph-IsLinked : (n : NonZero) → IsLinked (new_graph n)
unfolding new_graph
new_graph-IsLinked n = record {
  contexts = λ k w e. absurd (empty-not_live n _ k w e);
  sources = λ k w e. absurd (empty-not_live n _ k w e);
  modifications = λ k w e. absurd (empty-not_live n _ k w e);
  sequences = λ k w e. absurd (empty-not_live n _ k w e);
  region_contexts = λ k w e. absurd (empty-not_live n _ k w e);
}

-- In a new document, whatever the plug-in answers and whatever the host requests, every edge of
-- every live record leads to a live record of its registry.
pub history-IsLinked :
    (p : Plugin) (rs : List Request) (n : NonZero) (g : ApiGeneration) (aarch64 : Bool)
    (properties : DocumentProperties)
    → IsLinked (perform_all p rs (new_session n g aarch64 properties)).graph
unfolding new_session
history-IsLinked p rs n g aarch64 properties =
    perform_all-IsLinked p rs (new_session n g aarch64 properties) (new_graph-IsLinked n)
