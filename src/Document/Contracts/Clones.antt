-- ===== src/Document/Contracts/Clones.antt =====
-- What cloning an audio modification promises (ara2-bridge-host/src/document/edit.rs).
use ara2_bridge.Base.{
  ℕ, suc, Bool, true, some, ◌∷◌, ◌≡◌, refl, ◌⊎◌, inl, inr, false, none, subst, sym, ap, ◌∙◌, arith,
}
use ara2_bridge.Errors.{
  Result, ok, err, AraError, invalid_state, guard, ok_or-ok_inv, ok_or-err_inv, guard-err_inv,
}
use ara2_bridge.Registry.{Handle, insert, get, audio_modification_kind}
use ara2_bridge.Registry.Transactions.{SameLive, Added}
use ara2_bridge.Properties.{AudioModificationProperties}
use ara2_bridge.Document.Records.{AudioModificationRecord, AudioSourceRecord, contains}
use ara2_bridge.Document.Session.{Session, Plugin, Call}
use ara2_bridge.Document.Create.{clone_audio_modification}
use ara2_bridge.Document.Outcomes.{Answered, Declined, on_check}
use ara2_bridge.Document.Contracts.Modifications.{ModificationOutcome, stored_modification}

-- Why a clone is refused: the original or its source is not live or not active, or the original has
-- no peer yet; the identifier is taken; the registry refuses the record; the plug-in declined the
-- call.
pub data Unclonable (plugin : Plugin) (a : ℕ) (original : Handle audio_modification_kind)
    (p : AudioModificationProperties) (s s' : Session) (x : AraError) : Type 0 where
  missing : get original s.graph.audio_modifications ≡ err x → Unclonable plugin a original p s s' x
  inactive :
      (r : AudioModificationRecord)
      → get original s.graph.audio_modifications ≡ ok r
      → r.active ≡ false
      → Unclonable plugin a original p s s' x
  without_source :
      (r : AudioModificationRecord)
      → get original s.graph.audio_modifications ≡ ok r
      → get r.source s.graph.audio_sources ≡ err x
      → Unclonable plugin a original p s s' x
  source_inactive :
      (r : AudioModificationRecord) (w : AudioSourceRecord)
      → get original s.graph.audio_modifications ≡ ok r
      → get r.source s.graph.audio_sources ≡ ok w
      → w.active ≡ false
      → Unclonable plugin a original p s s' x
  provisional :
      (r : AudioModificationRecord)
      → get original s.graph.audio_modifications ≡ ok r
      → r.peer ≡ none
      → Unclonable plugin a original p s s' x
  taken :
      contains p.persistent_id s.graph.persistent_ids ≡ true → Unclonable plugin a original p s s' x
  unstored :
      (r : AudioModificationRecord) (b : ℕ)
      → get original s.graph.audio_modifications ≡ ok r
      → insert b
          (record { properties = p; peer = none; source = r.source; active = true })
          s.graph.audio_modifications
        ≡ err x
      → Unclonable plugin a original p s s' x
  declined :
      (r : AudioModificationRecord) (m : ℕ)
      → get original s.graph.audio_modifications ≡ ok r
      → r.peer ≡ some m
      → Declined plugin (Call.clone_audio_modification m a p) s s' x
      → Unclonable plugin a original p s s' x

-- A failure leaves the live modifications and the identifiers as they were. A success had an active
-- original with an active source, and adds an active modification of the same source, whose peer is
-- the plug-in's answer to the one call that was made, which names the original's peer.
pub data CloneOutcome (plugin : Plugin) (a : ℕ) (original : Handle audio_modification_kind)
    (p : AudioModificationProperties) (s : Session)
    : Session × Result AraError (Handle audio_modification_kind) → Type 0 where
  refused :
      (s' : Session) (x : AraError)
      → SameLive s.graph.audio_modifications s'.graph.audio_modifications
      → s'.graph.persistent_ids ≡ s.graph.persistent_ids
      → Unclonable plugin a original p s s' x
      → CloneOutcome plugin a original p s (s', err x)
  cloned :
      (s' : Session) (h : Handle audio_modification_kind) (q : ℕ) (r : AudioModificationRecord)
      (w : AudioSourceRecord) (m : ℕ)
      → get original s.graph.audio_modifications ≡ ok r
      → r.active ≡ true
      → r.peer ≡ some m
      → get r.source s.graph.audio_sources ≡ ok w
      → w.active ≡ true
      → Added h
          (record { properties = p; peer = some (suc q); source = r.source; active = true })
          s.graph.audio_modifications
          s'.graph.audio_modifications
      → s'.graph.persistent_ids ≡ p.persistent_id ∷ s.graph.persistent_ids
      → Answered plugin (Call.clone_audio_modification m a p) s s' (suc q)
      → CloneOutcome plugin a original p s (s', ok h)

module _ (plugin : Plugin) (a : ℕ) (original : Handle audio_modification_kind)
    (p : AudioModificationProperties) (s : Session) where
  unchanged :
      (x : AraError)
      → Unclonable plugin a original p s s x
      → CloneOutcome plugin a original p s (s, err x)
  unchanged x why = refused s x (λ k w. ((λ g. g), (λ g. g))) refl why

  of_stored :
      (r : AudioModificationRecord) (w : AudioSourceRecord) (m : ℕ)
      → get original s.graph.audio_modifications ≡ ok r
      → r.active ≡ true
      → get r.source s.graph.audio_sources ≡ ok w
      → w.active ≡ true
      → r.peer ≡ some m
      → (x : Session × Result AraError (Handle audio_modification_kind))
      → ModificationOutcome plugin
          (λ _. ⊥)
          (λ c. c ≡ Call.clone_audio_modification m a p)
          r.source
          p
          s
          x
      → CloneOutcome plugin a original p s x
  of_stored r w m found on owned source_on known _ (ModificationOutcome.refused s' x same ids why) =
      refused s' x same ids (elim why [
        | inl z ↦ absurd z
        | inr (inl y) ↦ Unclonable.taken y
        | inr (inr (inl (b, e))) ↦ Unclonable.unstored r b found e
        | inr (inr (inr (c, asked, (called, reply)))) ↦ Unclonable.declined r m found known (
          called ∙ ap (λ x. x ∷ s.calls) asked,
          subst (λ c. (plugin.answer s.calls c ≡ err x) ⊎ (plugin.answer s.calls c ≡ ok 0)) asked
              reply,
        )
      ])
  of_stored r w m found on owned source_on known _
        (ModificationOutcome.created s' h q c added absent ids clean asked (called, answered)) =
      cloned s' h q r w m found on known owned source_on added ids
        (called ∙ ap (λ x. x ∷ s.calls) asked, ap (plugin.answer s.calls) (sym asked) ∙ answered)

passed : (b : Bool) (e : AraError) {u : Unit {0}} → guard b e ≡ ok u → b ≡ true
passed b e h = ground arith

-- Cloning a modification either fails and leaves the live modifications and the persistent
-- identifiers as they were, because the original or its source is not live or not active, the
-- original has no peer, the identifier is taken, the registry refuses the record, or the plug-in
-- refuses the call or answers null, or its original is active, with an active source, and an active
-- modification of the same source is added with the new identifier, whose peer is the address that
-- the plug-in answered to the only call that was made, which named the original's peer.
pub clone_audio_modification-outcome :
    (plugin : Plugin) (a : ℕ) (original : Handle audio_modification_kind)
    (p : AudioModificationProperties) (s : Session)
    → CloneOutcome plugin a original p s (clone_audio_modification plugin a original p s)
unfolding clone_audio_modification
clone_audio_modification-outcome plugin a original p s =
    let J : Session × Result AraError (Handle audio_modification_kind) → Type 0 =
      CloneOutcome plugin a original p s in
    on_check J _ _ _ (λ x e. unchanged plugin a original p s x (Unclonable.missing e))
      λ r found.
        on_check J _ _ _
          (λ x e.
            unchanged plugin a original p s x
              (Unclonable.inactive r found (guard-err_inv r.active _ e)))
          λ _ on.
            on_check J _ _ _
              (λ x e. unchanged plugin a original p s x (Unclonable.without_source r found e))
              λ w owned.
                on_check J _ _ _
                  (λ x e.
                    unchanged plugin a original p s x
                      (Unclonable.source_inactive r w found owned (guard-err_inv w.active _ e)))
                  λ _ source_on.
                    on_check J _ _ _
                      (λ x e. unchanged plugin a original p s x (
                        Unclonable.provisional r found (
                          ok_or-err_inv r.peer (invalid_state "audio modification is provisional")
                            e)))
                      λ m known.
                        of_stored plugin a original p s r w m found (passed r.active _ on) owned
                          (passed w.active _ source_on)
                          (ok_or-ok_inv r.peer (invalid_state "audio modification is provisional")
                            known)
                          _
                          (stored_modification plugin (λ _. ⊥)
                            (λ c. c ≡ Call.clone_audio_modification m a p) r.source p s a _ _ refl)
