-- ===== src/Document/Contracts/Modifications.antt =====
-- What creating and cloning an audio modification promise
-- (ara2-bridge-host/src/document/edit.rs).
use ara2_bridge.Base.{
  ℕ, zero, suc, String, Bool, Bool-cases, true, false, some, none, List, ◌∷◌, ◌≡◌, ◌⊎◌, refl, subst,
  inl, inr,
}
use ara2_bridge.Errors.{
  Result, ok, err, AraError, invalid_state, guard, map_ok, ok_or-ok_inv, ok_or-err_inv,
}
use ara2_bridge.Registry.{
  Handle, Registry, insert, get, modify, opaque_pointer, audio_source_kind, audio_modification_kind,
}
use ara2_bridge.Registry.Lookup.{get-insert_self}
use ara2_bridge.Registry.Transactions.{
  SameLive, Added, insert-remove, insert-modify, insert-opaque_pointer,
}
use ara2_bridge.Properties.{AudioModificationProperties}
use ara2_bridge.Document.Records.{
  AudioModificationRecord, AudioSourceRecord, contains, insert_id, remove_id,
}
use ara2_bridge.Document.Session.{
  Session, Plugin, Call, Op, check, ◌>>=◌, update, write, fail, pure,
}
use ara2_bridge.Document.Fields.{with_modifications, with_ids, drop_modification}
use ara2_bridge.Document.Keeps.{after_call}
use ara2_bridge.Document.Create.{create_audio_modification, store_modification, claim_id, settle}
use ara2_bridge.Document.Contracts.Identifiers.{remove_id-insert_id}
use ara2_bridge.Document.Outcomes.{Answered, Declined, on_check, on_store, on_invoke}

-- An operation for a modification of the source `o` with the properties `p`. A failure leaves the
-- live modifications and the identifiers as they were: it is refused beforehand, as `Pre` says, the
-- identifier is taken, the registry refuses the record, or the plug-in declined the call; a success
-- takes a new identifier, and adds an active modification of the source, whose peer is the
-- plug-in's answer to the one call that was made, a call with the property `W`.
pub data ModificationOutcome (plugin : Plugin) (Pre : AraError → Type 0) (W : Call → Type 0)
    (o : Handle audio_source_kind) (p : AudioModificationProperties) (s : Session)
    : Session × Result AraError (Handle audio_modification_kind) → Type 0 where
  refused :
      (s' : Session) (x : AraError)
      → SameLive s.graph.audio_modifications s'.graph.audio_modifications
      → s'.graph.persistent_ids ≡ s.graph.persistent_ids
      → Pre x
        ⊎ (contains p.persistent_id s.graph.persistent_ids ≡ true)
        ⊎ ((a : ℕ) × (insert a
                (record { properties = p; peer = none; source = o; active = true })
                s.graph.audio_modifications
              ≡ err x))
        ⊎ ((c : Call) × W c × Declined plugin c s s' x)
      → ModificationOutcome plugin Pre W o p s (s', err x)
  created :
      (s' : Session) (h : Handle audio_modification_kind) (q : ℕ) (c : Call)
      → Added h
          (record { properties = p; peer = some (suc q); source = o; active = true })
          s.graph.audio_modifications
          s'.graph.audio_modifications
      → contains p.persistent_id s.graph.persistent_ids ≡ false
      → s'.graph.persistent_ids ≡ p.persistent_id ∷ s.graph.persistent_ids
      → s'.poisoned ≡ s.poisoned
      → W c
      → Answered plugin c s s' (suc q)
      → ModificationOutcome plugin Pre W o p s (s', ok h)

module _ (plugin : Plugin) (Pre : AraError → Type 0) (W : Call → Type 0)
    (o : Handle audio_source_kind) (p : AudioModificationProperties) (s : Session) where
  -- What is stored at first.
  abbrev provisional : AudioModificationRecord
  provisional = record { properties = p; peer = none; source = o; active = true }

  abbrev claimed : Session
  claimed = with_ids (insert_id p.persistent_id) s

  pub unchanged :
      (x : AraError)
      → Pre x ⊎ (contains p.persistent_id s.graph.persistent_ids ≡ true)
      → ModificationOutcome plugin Pre W o p s (s, err x)
  unchanged x (inl y) = refused s x (λ k w. ((λ g. g), (λ g. g))) refl (inl y)
  unchanged x (inr y) = refused s x (λ k w. ((λ g. g), (λ g. g))) refl (inr (inl y))

  settled_modification :
      (a : ℕ) (h : Handle audio_modification_kind)
      (r : Registry audio_modification_kind AudioModificationRecord) (message : String)
      (refs : List (ℕ × Bool)) (c : Call) (reply : Result AraError ℕ) (escaped : Bool)
      → W c
      → plugin.answer s.calls c ≡ reply
      → insert a provisional s.graph.audio_modifications ≡ ok (h, r)
      → contains p.persistent_id s.graph.persistent_ids ≡ false
      → ModificationOutcome plugin Pre W o p s (
          settle
            (λ u. with_ids (remove_id p.persistent_id) (drop_modification h u))
            (λ q u.
              map_ok
                (with_modifications u)
                (modify h (λ w. record w { peer = some q }) u.graph.audio_modifications))
            message
            h
            (reply, escaped)
            (after_call (with_modifications claimed r) refs (c ∷ s.calls)))
  unfolding settle ◌>>=◌ update write fail pure
  settled_modification a h r message refs c (err x) escaped asked answered e n =
      let (r', removed, same) = insert-remove a provisional s.graph.audio_modifications e in
      rw (drop_modification, removed)
        (refused _ x same (remove_id-insert_id p.persistent_id s.graph.persistent_ids n).0
          (inr (inr (inr (c, asked, (refl, inl answered))))))
  settled_modification a h r message refs c (ok zero) escaped asked answered e n =
      let (r', removed, same) = insert-remove a provisional s.graph.audio_modifications e in
      rw (drop_modification, removed)
        (refused _ _ same (remove_id-insert_id p.persistent_id s.graph.persistent_ids n).0
          (inr (inr (inr (c, asked, (refl, inr answered))))))
  settled_modification a h r message refs c (ok (suc q)) escaped asked answered e n =
      let (r', written, added) =
        insert-modify a provisional (λ w. record w { peer = some (suc q) })
          s.graph.audio_modifications e in
      rw (write, written)
        (created _ h q c added n (remove_id-insert_id p.persistent_id s.graph.persistent_ids n).1
          refl asked (refl, answered))

  on_claim :
      (f : Unit {0} → Op (Handle audio_modification_kind))
      → (contains p.persistent_id s.graph.persistent_ids ≡ false
          → ModificationOutcome plugin Pre W o p s (f tt claimed))
      → ModificationOutcome plugin Pre W o p s ((claim_id p.persistent_id >>= f) s)
  unfolding claim_id ◌>>=◌ check update
  on_claim f go = elim (Bool-cases (contains p.persistent_id s.graph.persistent_ids)) [
    | inl y ↦ rw (y, guard) (unchanged _ (inr y))
    | inr n ↦ rw (n, guard) (go n)
  ]

  pub stored_modification :
      (a : ℕ) (c : ℕ → AudioModificationProperties → Call) (message : String)
      → W (c a p)
      → ModificationOutcome plugin Pre W o p s (store_modification plugin a o p c message s)
  unfolding store_modification
  stored_modification a c message asked = on_claim _ λ absent.
      let J : Session × Result AraError (Handle audio_modification_kind) → Type 0 =
        ModificationOutcome plugin Pre W o p s in
      on_store J (with_ids (remove_id p.persistent_id)) (λ t (h, r). (h, with_modifications t r))
        (λ t. insert a provisional t.graph.audio_modifications) _ claimed
        (λ x e.
          refused _ x (λ k w. ((λ g. g), (λ g. g)))
            (remove_id-insert_id p.persistent_id s.graph.persistent_ids absent).0
            (inr (inr (inl (a, e)))))
        λ (h, r) added.
          let live : get h r ≡ ok provisional =
            get-insert_self a provisional s.graph.audio_modifications added in
          let pointed : opaque_pointer h r ≡ ok a =
            insert-opaque_pointer a provisional s.graph.audio_modifications added in
          on_check J _ _ _ (λ x e. cc)
            λ host_ref e1.
              on_check J _ _ _ (λ x e. cc)
                λ stored e2. on_invoke J _ _ _ _ _ λ refs escaped _.
                  let here : a ≡ host_ref = cc in
                  let shown : provisional ≡ stored = cc in
                  settled_modification a h r message refs _ _ escaped
                    (subst W (λ i. c (here i) (shown i).properties) asked) refl added absent

-- The call for a modification of `o`: it names the peer of the source and the new address.
abbrev pub AsksFor :
    Handle audio_source_kind → ℕ → AudioModificationProperties → Session → Call → Type 0
AsksFor o a p s c =
    (r : AudioSourceRecord) × (m : ℕ) × (get o s.graph.audio_sources ≡ ok r)
    × (r.peer ≡ some m)
    × (c ≡ Call.create_audio_modification m a p)

-- The source is no live one, or has no peer yet.
abbrev pub LacksSource : Handle audio_source_kind → Session → AraError → Type 0
LacksSource o s x =
    (get o s.graph.audio_sources ≡ err x)
    ⊎ ((r : AudioSourceRecord) × (get o s.graph.audio_sources ≡ ok r) × (r.peer ≡ none))

-- Creating a modification of a source either fails and leaves the live modifications and the
-- persistent identifiers as they were, because the source is not live or has no peer, the
-- identifier is taken, the registry refuses the record, or the plug-in refuses the call or answers
-- null, or takes an identifier that was free and adds an active modification of that source,
-- whether or not the source is active, whose peer is the address that the plug-in answered to the
-- one call that was made, which named the source's peer.
pub create_audio_modification-outcome :
    (plugin : Plugin) (a : ℕ) (o : Handle audio_source_kind) (p : AudioModificationProperties)
    (s : Session)
    → ModificationOutcome plugin
        (LacksSource o s)
        (AsksFor o a p s)
        o
        p
        s
        (create_audio_modification plugin a o p s)
unfolding create_audio_modification
create_audio_modification-outcome plugin a o p s =
    let Pre : AraError → Type 0 = LacksSource o s in
    let W : Call → Type 0 = AsksFor o a p s in
    let J : Session × Result AraError (Handle audio_modification_kind) → Type 0 =
      ModificationOutcome plugin Pre W o p s in
    on_check J _ _ _ (λ x e. unchanged plugin Pre W o p s x (inl (inl e)))
      λ r found.
        on_check J _ _ _
          (λ x e. unchanged plugin Pre W o p s x (
            inl (
              inr
                (r, found, ok_or-err_inv r.peer (invalid_state "audio source is provisional") e))))
          λ m known. stored_modification plugin Pre W o p s a _ _ (
            r,
            m,
            found,
            ok_or-ok_inv r.peer (invalid_state "audio source is provisional") known,
            refl,
          )
