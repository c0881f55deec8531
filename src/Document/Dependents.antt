-- ===== src/Document/Dependents.antt =====
-- An object that others depend on cannot be destroyed
-- (ara2-bridge-host/src/document/edit.rs).
use ara2_bridge.Base.{
  not, Bool, true, false, Option, some, Bool-cases, inl, inr, ◌≡◌, refl, any, arith,
}
use ara2_bridge.Errors.{ok, guard, AraError}
use ara2_bridge.Registry.{
  Kind, Handle, Registry, get, values, same_handle, musical_context_kind, region_sequence_kind,
  audio_source_kind, audio_modification_kind, playback_region_kind,
}
use ara2_bridge.Registry.Refs.{any-values}
use ara2_bridge.Document.Records.{
  RegionSequenceRecord, AudioModificationRecord, PlaybackRegionRecord,
}
use ara2_bridge.Document.Session.{Session, Plugin, Op, check, ◌>>=◌}
use ara2_bridge.Document.Destroy.{
  same_edge, destroy_musical_context, destroy_region_sequence, destroy_audio_source,
  destroy_audio_modification, context_in_use, sequence_in_use, source_in_use, modification_in_use,
}
use ara2_bridge.Document.Requests.{
  Request, perform, destroy_context, destroy_sequence, destroy_source, destroy_modification,
}

-- The destructions that a live dependent object stands against.
pub data IsBlocked (s : Session) : Request → Type 0 where
  by_sequence :
      (k : Handle region_sequence_kind) (w : RegionSequenceRecord)
      → get k s.graph.region_sequences ≡ ok w
      → IsBlocked s (destroy_context w.context)
  by_region_context :
      (k : Handle playback_region_kind) (w : PlaybackRegionRecord) (h : Handle musical_context_kind)
      → get k s.graph.playback_regions ≡ ok w
      → w.context ≡ some h
      → IsBlocked s (destroy_context h)
  by_region_sequence :
      (k : Handle playback_region_kind) (w : PlaybackRegionRecord) (h : Handle region_sequence_kind)
      → get k s.graph.playback_regions ≡ ok w
      → w.sequence ≡ some h
      → IsBlocked s (destroy_sequence h)
  by_modification :
      (k : Handle audio_modification_kind) (w : AudioModificationRecord)
      → get k s.graph.audio_modifications ≡ ok w
      → IsBlocked s (destroy_source w.source)
  by_region :
      (k : Handle playback_region_kind) (w : PlaybackRegionRecord)
      → get k s.graph.playback_regions ≡ ok w
      → IsBlocked s (destroy_modification w.modification)

any-live :
    {K : Kind} {T : Type 0} (p : T → Bool) (r : Registry K T) (k : Handle K) {w : T}
    → get k r ≡ ok w
    → p w ≡ true
    → any p (values r) ≡ true
any-live p r k {w} live y = elim (Bool-cases (any p (values r))) [
  | inl e ↦ e
  | inr n ↦ let none_found : p w ≡ false = any-values p r k n live in cc
]

same_handle_self : {K : Kind} (h : Handle K) → same_handle h h ≡ true
same_handle_self h = ground arith

same_edge-some :
    {K : Kind} (o : Option (Handle K)) (h : Handle K) → o ≡ some h → same_edge o h ≡ true
same_edge-some o h e = rw e (same_handle_self h)

-- A failed guard ends the operation.
stop :
    {B : Type 0} (in_use : Session → Bool) (e : AraError) (f : Unit {0} → Op B) (s : Session)
    → in_use s ≡ true
    → ((check (λ t. guard (not (in_use t)) e) >>= f) s).0 ≡ s
unfolding check ◌>>=◌
stop in_use e f s y = rw y refl

module _ (plugin : Plugin) (s : Session) where
  context_stop :
      (h : Handle musical_context_kind)
      → context_in_use h s ≡ true
      → (destroy_musical_context plugin h s).0 ≡ s
  unfolding destroy_musical_context
  context_stop h y = stop (context_in_use h) _ _ s y

  sequence_stop :
      (h : Handle region_sequence_kind)
      → sequence_in_use h s ≡ true
      → (destroy_region_sequence plugin h s).0 ≡ s
  unfolding destroy_region_sequence
  sequence_stop h y = stop (sequence_in_use h) _ _ s y

  source_stop :
      (h : Handle audio_source_kind)
      → source_in_use h s ≡ true
      → (destroy_audio_source plugin h s).0 ≡ s
  unfolding destroy_audio_source
  source_stop h y = stop (source_in_use h) _ _ s y

  modification_stop :
      (h : Handle audio_modification_kind)
      → modification_in_use h s ≡ true
      → (destroy_audio_modification plugin h s).0 ≡ s
  unfolding destroy_audio_modification
  modification_stop h y = stop (modification_in_use h) _ _ s y

-- A request to destroy an object on which a live object depends changes nothing: the graph stays,
-- and the plug-in is not called.
pub blocked-perform :
    (plugin : Plugin) (s : Session) (r : Request) → IsBlocked s r → perform plugin r s ≡ s
unfolding perform
blocked-perform plugin s _ (IsBlocked.by_sequence k w live) =
    let y : any (λ q. same_handle q.context w.context) (values s.graph.region_sequences) ≡ true =
      any-live (λ q. same_handle q.context w.context) s.graph.region_sequences k live
        (same_handle_self w.context) in
    context_stop plugin s w.context (ground arith)
blocked-perform plugin s _ (IsBlocked.by_region_context k w h live e) =
    let y : any (λ q. same_edge q.context h) (values s.graph.playback_regions) ≡ true =
      any-live (λ q. same_edge q.context h) s.graph.playback_regions k live
        (same_edge-some w.context h e) in
    context_stop plugin s h (ground arith)
blocked-perform plugin s _ (IsBlocked.by_region_sequence k w h live e) = sequence_stop plugin s h (
    any-live (λ q. same_edge q.sequence h) s.graph.playback_regions k live
      (same_edge-some w.sequence h e))
blocked-perform plugin s _ (IsBlocked.by_modification k w live) = source_stop plugin s w.source (
    any-live (λ q. same_handle q.source w.source) s.graph.audio_modifications k live
      (same_handle_self w.source))
blocked-perform plugin s _ (IsBlocked.by_region k w live) =
    modification_stop plugin s w.modification (
      any-live (λ q. same_handle q.modification w.modification) s.graph.playback_regions k live
        (same_handle_self w.modification))
