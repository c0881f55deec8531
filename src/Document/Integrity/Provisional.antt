-- ===== src/Document/Integrity/Provisional.antt =====
-- Completing and taking back a provisional record keep the graph linked
-- (ara2-bridge-host/src/document/edit.rs).
use ara2_bridge.Base.{ℕ, some, ◌≡◌, inl, inr, subst}
use ara2_bridge.Errors.{ok, map_ok}
use ara2_bridge.Registry.{
  Handle, modify, remove, musical_context_kind, region_sequence_kind, audio_source_kind,
  audio_modification_kind, playback_region_kind,
}
use ara2_bridge.Registry.Links.{NoRef}
use ara2_bridge.Document.Session.{Session}
use ara2_bridge.Document.Fields
use ara2_bridge.Document.Fields.{
  with_contexts, with_sequences, with_sources, with_modifications, with_regions,
}
use ara2_bridge.Document.Keeps.{Result-cases, map_ok-ok_inv}
use ara2_bridge.Document.Linked.{
  IsLinked, context_of, source_of, modification_of, sequence_of, region_context_of,
}
use ara2_bridge.Document.Linked.Edit.{
  edit_context, edit_sequence, edit_source, edit_modification, edit_region,
}
use ara2_bridge.Document.Linked.Drop.{
  drop_context, drop_sequence, drop_source, drop_modification, drop_region,
}

module _ (t : Session) (j : IsLinked t.graph) where
  pub take_back_context :
      (h : Handle musical_context_kind)
      → NoRef context_of t.graph.region_sequences h
      → NoRef region_context_of t.graph.playback_regions h
      → IsLinked (Fields.drop_context h t).graph
  take_back_context h n_contexts n_region_contexts =
      elim (Result-cases (remove h t.graph.musical_contexts)) [
        | inl (c, e) ↦
            rw (e, Fields.drop_context) (drop_context t.graph j h e n_contexts n_region_contexts)
        | inr (x, e) ↦ rw (e, Fields.drop_context) j
      ]

  pub complete_context :
      (h : Handle musical_context_kind) (q : ℕ) (s : Session)
      → map_ok
          (with_contexts t)
          (modify h (λ r. record r { peer = some q }) t.graph.musical_contexts)
        ≡ ok s
      → IsLinked s.graph
  complete_context h q s e =
      let (r, written, same) = map_ok-ok_inv (with_contexts t) _ e in
      subst (λ x. IsLinked x.graph) same (edit_context t.graph j h _ written)

  pub take_back_sequence :
      (h : Handle region_sequence_kind)
      → NoRef sequence_of t.graph.playback_regions h
      → IsLinked (Fields.drop_sequence h t).graph
  take_back_sequence h n_sequences = elim (Result-cases (remove h t.graph.region_sequences)) [
    | inl (c, e) ↦ rw (e, Fields.drop_sequence) (drop_sequence t.graph j h e n_sequences)
    | inr (x, e) ↦ rw (e, Fields.drop_sequence) j
  ]

  pub complete_sequence :
      (h : Handle region_sequence_kind) (q : ℕ) (s : Session)
      → map_ok
          (with_sequences t)
          (modify h (λ r. record r { peer = some q }) t.graph.region_sequences)
        ≡ ok s
      → IsLinked s.graph
  complete_sequence h q s e =
      let (r, written, same) = map_ok-ok_inv (with_sequences t) _ e in
      subst (λ x. IsLinked x.graph) same
        (edit_sequence t.graph j h _ written (λ u live. j.contexts h u live))

  pub take_back_source :
      (h : Handle audio_source_kind)
      → NoRef source_of t.graph.audio_modifications h
      → IsLinked (Fields.drop_source h t).graph
  take_back_source h n_sources = elim (Result-cases (remove h t.graph.audio_sources)) [
    | inl (c, e) ↦ rw (e, Fields.drop_source) (drop_source t.graph j h e n_sources)
    | inr (x, e) ↦ rw (e, Fields.drop_source) j
  ]

  pub complete_source :
      (h : Handle audio_source_kind) (q : ℕ) (s : Session)
      → map_ok (with_sources t) (modify h (λ r. record r { peer = some q }) t.graph.audio_sources)
        ≡ ok s
      → IsLinked s.graph
  complete_source h q s e =
      let (r, written, same) = map_ok-ok_inv (with_sources t) _ e in
      subst (λ x. IsLinked x.graph) same (edit_source t.graph j h _ written)

  pub take_back_modification :
      (h : Handle audio_modification_kind)
      → NoRef modification_of t.graph.playback_regions h
      → IsLinked (Fields.drop_modification h t).graph
  take_back_modification h n_modifications =
      elim (Result-cases (remove h t.graph.audio_modifications)) [
        | inl (c, e) ↦
            rw (e, Fields.drop_modification) (drop_modification t.graph j h e n_modifications)
        | inr (x, e) ↦ rw (e, Fields.drop_modification) j
      ]

  pub complete_modification :
      (h : Handle audio_modification_kind) (q : ℕ) (s : Session)
      → map_ok
          (with_modifications t)
          (modify h (λ r. record r { peer = some q }) t.graph.audio_modifications)
        ≡ ok s
      → IsLinked s.graph
  complete_modification h q s e =
      let (r, written, same) = map_ok-ok_inv (with_modifications t) _ e in
      subst (λ x. IsLinked x.graph) same
        (edit_modification t.graph j h _ written (λ u live. j.sources h u live))

  pub take_back_region : (h : Handle playback_region_kind) → IsLinked (Fields.drop_region h t).graph
  take_back_region h = elim (Result-cases (remove h t.graph.playback_regions)) [
    | inl (c, e) ↦ rw (e, Fields.drop_region) (drop_region t.graph j h e)
    | inr (x, e) ↦ rw (e, Fields.drop_region) j
  ]

  pub complete_region :
      (h : Handle playback_region_kind) (q : ℕ) (s : Session)
      → map_ok
          (with_regions t)
          (modify h (λ r. record r { peer = some q }) t.graph.playback_regions)
        ≡ ok s
      → IsLinked s.graph
  complete_region h q s e =
      let (r, written, same) = map_ok-ok_inv (with_regions t) _ e in
      subst (λ x. IsLinked x.graph) same
        (edit_region t.graph j h _ written (λ u live. j.modifications h u live)
          (λ u live. j.sequences h u live) (λ u live. j.region_contexts h u live))
