-- ===== src/Document/Contracts/Sources.antt =====
-- What creating an audio source promises
-- (ara2-bridge-host/src/document/edit.rs).
use ara2_bridge.Base.{
  ℕ, zero, suc, String, Bool, Bool-cases, true, false, some, none, List, ◌∷◌, ◌≡◌, ◌⊎◌, refl, sym,
  ap, ◌∙◌, inl, inr,
}
use ara2_bridge.Errors.{Result, ok, err, AraError, guard, map_ok}
use ara2_bridge.Registry.{
  Handle, Registry, insert, get, modify, opaque_pointer, audio_source_kind, audio_source_kind,
}
use ara2_bridge.Registry.Lookup.{get-insert_self}
use ara2_bridge.Registry.Transactions.{
  SameLive, Added, insert-remove, insert-modify, insert-opaque_pointer,
}
use ara2_bridge.Properties.{AudioSourceProperties, ensure_generation}
use ara2_bridge.Document.Records.{AudioSourceRecord, contains, insert_id, remove_id}
use ara2_bridge.Document.Session.{
  Session, Plugin, Call, Op, check, ◌>>=◌, update, write, fail, pure,
}
use ara2_bridge.Document.Fields.{with_sources, with_ids, drop_source}
use ara2_bridge.Document.Keeps.{after_call}
use ara2_bridge.Document.Create.{create_audio_source, claim_id, settle}
use ara2_bridge.Document.Contracts.Identifiers.{remove_id-insert_id}
use ara2_bridge.Document.Outcomes.{Answered, Declined, on_check, on_store, on_invoke}

-- Creating a source with the properties `p`. A failure leaves the live sources and the identifiers
-- as they were; a success takes a new identifier, and adds an active source, whose peer is the
-- plug-in's answer to the one call that was made.
pub data SourceOutcome (plugin : Plugin) (a : ℕ) (p : AudioSourceProperties) (s : Session)
    : Session × Result AraError (Handle audio_source_kind) → Type 0 where
  refused :
      (s' : Session) (x : AraError)
      → SameLive s.graph.audio_sources s'.graph.audio_sources
      → s'.graph.persistent_ids ≡ s.graph.persistent_ids
      → (contains p.persistent_id s.graph.persistent_ids ≡ true)
        ⊎ (insert a
              (record {
                properties = p;
                peer = none;
                active = true;
                samples_access_enabled = false;
              })
              s.graph.audio_sources
            ≡ err x)
        ⊎ Declined plugin (Call.create_audio_source a p) s s' x
      → SourceOutcome plugin a p s (s', err x)
  created :
      (s' : Session) (h : Handle audio_source_kind) (q : ℕ)
      → Added h
          (record {
            properties = p;
            peer = some (suc q);
            active = true;
            samples_access_enabled = false;
          })
          s.graph.audio_sources
          s'.graph.audio_sources
      → contains p.persistent_id s.graph.persistent_ids ≡ false
      → s'.graph.persistent_ids ≡ p.persistent_id ∷ s.graph.persistent_ids
      → s'.poisoned ≡ s.poisoned
      → Answered plugin (Call.create_audio_source a p) s s' (suc q)
      → SourceOutcome plugin a p s (s', ok h)

module _ (plugin : Plugin) (a : ℕ) (p : AudioSourceProperties) (s : Session) where
  -- What is stored at first.
  abbrev provisional : AudioSourceRecord
  provisional = record {
    properties = p;
    peer = none;
    active = true;
    samples_access_enabled = false;
  }

  abbrev claimed : Session
  claimed = with_ids (insert_id p.persistent_id) s

  unchanged :
      (x : AraError)
      → contains p.persistent_id s.graph.persistent_ids ≡ true
      → SourceOutcome plugin a p s (s, err x)
  unchanged x y = refused s x (λ k w. ((λ g. g), (λ g. g))) refl (inl y)

  settled_source :
      (h : Handle audio_source_kind) (r : Registry audio_source_kind AudioSourceRecord)
      (message : String) (refs : List (ℕ × Bool)) (c : Call) (reply : Result AraError ℕ)
      (escaped : Bool)
      → c ≡ Call.create_audio_source a p
      → plugin.answer s.calls c ≡ reply
      → insert a provisional s.graph.audio_sources ≡ ok (h, r)
      → contains p.persistent_id s.graph.persistent_ids ≡ false
      → SourceOutcome plugin a p s (
          settle
            (λ u. with_ids (remove_id p.persistent_id) (drop_source h u))
            (λ q u.
              map_ok
                (with_sources u)
                (modify h (λ w. record w { peer = some q }) u.graph.audio_sources))
            message
            h
            (reply, escaped)
            (after_call (with_sources claimed r) refs (c ∷ s.calls)))
  unfolding settle ◌>>=◌ update write fail pure
  settled_source h r message refs c (err x) escaped asked answered e n =
      let (r', removed, same) = insert-remove a provisional s.graph.audio_sources e in
      rw (drop_source, removed)
        (refused _ x same (remove_id-insert_id p.persistent_id s.graph.persistent_ids n).0 (
          inr (
            inr (
              ap (λ c. c ∷ s.calls) asked,
              inl (ap (plugin.answer s.calls) (sym asked) ∙ answered),
            ))))
  settled_source h r message refs c (ok zero) escaped asked answered e n =
      let (r', removed, same) = insert-remove a provisional s.graph.audio_sources e in
      rw (drop_source, removed)
        (refused _ _ same (remove_id-insert_id p.persistent_id s.graph.persistent_ids n).0 (
          inr (
            inr (
              ap (λ c. c ∷ s.calls) asked,
              inr (ap (plugin.answer s.calls) (sym asked) ∙ answered),
            ))))
  settled_source h r message refs c (ok (suc q)) escaped asked answered e n =
      let (r', written, added) =
        insert-modify a provisional (λ w. record w { peer = some (suc q) }) s.graph.audio_sources
          e in
      rw (write, written)
        (created _ h q added n (remove_id-insert_id p.persistent_id s.graph.persistent_ids n).1 refl
          (ap (λ x. x ∷ s.calls) asked, ap (plugin.answer s.calls) (sym asked) ∙ answered))

  on_claim :
      (f : Unit {0} → Op (Handle audio_source_kind))
      → (contains p.persistent_id s.graph.persistent_ids ≡ false
          → SourceOutcome plugin a p s (f tt claimed))
      → SourceOutcome plugin a p s ((claim_id p.persistent_id >>= f) s)
  unfolding claim_id ◌>>=◌ check update
  on_claim f go = elim (Bool-cases (contains p.persistent_id s.graph.persistent_ids)) [
    | inl y ↦ rw (y, guard) (unchanged _ y)
    | inr n ↦ rw (n, guard) (go n)
  ]

-- For a generation that the target supports, creating an audio source either fails and leaves the
-- live sources and the persistent identifiers as they were, because the identifier is taken, the
-- registry refuses the record, or the plug-in refuses the call or answers null, or takes an
-- identifier that was free and adds an active source without access to samples, whose peer is the
-- address that the plug-in answered to the one call that was made, for this source.
pub create_audio_source-outcome :
    (plugin : Plugin) (a : ℕ) (p : AudioSourceProperties) (s : Session)
    → ensure_generation s.aarch64 s.generation ≡ ok tt
    → SourceOutcome plugin a p s (create_audio_source plugin a p s)
unfolding create_audio_source
create_audio_source-outcome plugin a p s supported = on_claim plugin a p s _ λ absent.
    let J : Session × Result AraError (Handle audio_source_kind) → Type 0 =
      SourceOutcome plugin a p s in
    on_store J (with_ids (remove_id p.persistent_id)) (λ t (h, r). (h, with_sources t r))
      (λ t. insert a (provisional plugin a p s) t.graph.audio_sources) _ (claimed plugin a p s)
      (λ x e.
        refused _ x (λ k w. ((λ g. g), (λ g. g)))
          (remove_id-insert_id p.persistent_id s.graph.persistent_ids absent).0 (inr (inl e)))
      λ (h, r) added.
        let live : get h r ≡ ok (provisional plugin a p s) =
          get-insert_self a (provisional plugin a p s) s.graph.audio_sources added in
        let pointed : opaque_pointer h r ≡ ok a =
          insert-opaque_pointer a (provisional plugin a p s) s.graph.audio_sources added in
        on_check J _ _ _ (λ x e. cc)
          λ host_ref e1.
            on_check J _ _ _ (λ x e. cc)
              λ stored e2.
                on_check J _ _ _ (λ x e. cc)
                  λ _ _. on_invoke J _ _ _ _ _ λ refs escaped _.
                    let here : host_ref ≡ a = cc in
                    let shown : stored ≡ provisional plugin a p s = cc in
                    settled_source plugin a p s h r "plug-in rejected audio source" refs _ _ escaped
                      (λ i. Call.create_audio_source (here i) (shown i).properties) refl added
                      absent
