-- ===== src/Document/Contracts.antt =====
-- What a create operation promises, whatever the plug-in answers
-- (ara2-bridge-host/src/document/edit.rs).
pub mod Identifiers
pub mod Modifications
pub mod Sources
pub mod Clones
pub mod Updates
use ara2_bridge.Base.{
  ℕ, zero, suc, Bool, ◌||◌, ◌==◌, some, none, List, ◌∷◌, ◌≡◌, ◌⊎◌, refl, sym, ap, ◌∙◌, any, inl,
  inr,
}
use ara2_bridge.Errors.{Result, ok, err, AraError, map_ok}
use ara2_bridge.Registry.{
  Handle, Registry, insert, get, modify, opaque_pointer, musical_context_kind,
}
use ara2_bridge.Registry.Lookup.{get-insert_self}
use ara2_bridge.Registry.Transactions.{
  SameLive, Added, insert-remove, insert-modify, insert-opaque_pointer,
}
use ara2_bridge.Properties.{MusicalContextProperties, ensure_generation}
use ara2_bridge.Document.Records.{MusicalContextRecord}
use ara2_bridge.Document.Session.{Session, Plugin, Call, ◌>>=◌, update, write, fail, pure}
use ara2_bridge.Document.Fields.{with_contexts, drop_context}
use ara2_bridge.Document.Keeps.{after_call}
use ara2_bridge.Document.Create.{create_musical_context, settle}
use ara2_bridge.Document.Outcomes.{Answered, Declined, on_check, on_store, on_invoke}

-- Creating a context at the address `a`. A failure leaves the live musical contexts as they were:
-- the registry has no room, or the plug-in declined the call, and the session is poisoned if it
-- named the address meanwhile; one that returns a handle adds it with the peer that the plug-in
-- answered to the one call that was made, and does not change the others or poison the session.
pub data ContextOutcome (plugin : Plugin) (a : ℕ) (p : MusicalContextProperties) (s : Session)
    : Session × Result AraError (Handle musical_context_kind) → Type 0 where
  refused :
      (s' : Session) (x : AraError)
      → SameLive s.graph.musical_contexts s'.graph.musical_contexts
      → ((insert a (record { properties = p; peer = none }) s.graph.musical_contexts ≡ err x)
          × (s'.poisoned ≡ s.poisoned))
        ⊎ (Declined plugin (Call.create_musical_context a p) s s' x
            × (s'.poisoned ≡ (
                s.poisoned
                || any (λ q. a == q) (plugin.observed s.calls (Call.create_musical_context a p)))))
      → ContextOutcome plugin a p s (s', err x)
  created :
      (s' : Session) (h : Handle musical_context_kind) (q : ℕ)
      → Added h
          (record { properties = p; peer = some (suc q) })
          s.graph.musical_contexts
          s'.graph.musical_contexts
      → s'.poisoned ≡ s.poisoned
      → Answered plugin (Call.create_musical_context a p) s s' (suc q)
      → ContextOutcome plugin a p s (s', ok h)

-- Settling a stored context.
settled :
    (plugin : Plugin) (a : ℕ) (p : MusicalContextProperties) (s : Session)
    (h : Handle musical_context_kind) (r : Registry musical_context_kind MusicalContextRecord)
    (refs : List (ℕ × Bool)) (c : Call) (reply : Result AraError ℕ) (escaped : Bool)
    → c ≡ Call.create_musical_context a p
    → plugin.answer s.calls c ≡ reply
    → insert a (record { properties = p; peer = none }) s.graph.musical_contexts ≡ ok (h, r)
    → escaped ≡ any (λ q. a == q) (plugin.observed s.calls c)
    → ContextOutcome plugin a p s (
        settle
          (drop_context h)
          (λ q u.
            map_ok
              (with_contexts u)
              (modify h (λ w. record w { peer = some q }) u.graph.musical_contexts))
          "plug-in rejected musical context"
          h
          (reply, escaped)
          (after_call (with_contexts s r) refs (c ∷ s.calls)))
unfolding settle ◌>>=◌ update write fail pure
settled plugin a p s h r refs c (err x) escaped same_call answered e seen =
    let (r', removed, same) =
      insert-remove a (record { properties = p; peer = none }) s.graph.musical_contexts e in
    rw (drop_context, removed)
      (refused _ x same (
        inr (
          (
            ap (λ c. c ∷ s.calls) same_call,
            inl (ap (plugin.answer s.calls) (sym same_call) ∙ answered),
          ),
          ap (λ b. s.poisoned || b) seen
              ∙ ap (λ c. s.poisoned || any (λ q. a == q) (plugin.observed s.calls c)) same_call,
        )))
settled plugin a p s h r refs c (ok zero) escaped same_call answered e seen =
    let (r', removed, same) =
      insert-remove a (record { properties = p; peer = none }) s.graph.musical_contexts e in
    rw (drop_context, removed)
      (refused _ _ same (
        inr (
          (
            ap (λ c. c ∷ s.calls) same_call,
            inr (ap (plugin.answer s.calls) (sym same_call) ∙ answered),
          ),
          ap (λ b. s.poisoned || b) seen
              ∙ ap (λ c. s.poisoned || any (λ q. a == q) (plugin.observed s.calls c)) same_call,
        )))
settled plugin a p s h r refs c (ok (suc q)) escaped same_call answered e seen =
    let (r', written, added) =
      insert-modify a (record { properties = p; peer = none })
        (λ w. record w { peer = some (suc q) }) s.graph.musical_contexts e in
    rw (write, written)
      (created _ h q added refl
        (ap (λ x. x ∷ s.calls) same_call, ap (plugin.answer s.calls) (sym same_call) ∙ answered))

-- For a generation that the target supports, creating a musical context either fails and leaves the
-- live contexts as they were, because the registry refuses the record or because the plug-in
-- refuses the call or answers null, where the poison is what the plug-in's naming of the new
-- address makes it, or returns a new live handle whose record has the address that the plug-in
-- answered to the call for this context, the only one made, and leaves the other contexts and the
-- poison as they were.
pub create_musical_context-outcome :
    (plugin : Plugin) (a : ℕ) (p : MusicalContextProperties) (s : Session)
    → ensure_generation s.aarch64 s.generation ≡ ok tt
    → ContextOutcome plugin a p s (create_musical_context plugin a p s)
unfolding create_musical_context
create_musical_context-outcome plugin a p s supported =
    let v : MusicalContextRecord = record { properties = p; peer = none } in
    let J : Session × Result AraError (Handle musical_context_kind) → Type 0 =
      ContextOutcome plugin a p s in
    on_store J (λ t. t) (λ t (h, r). (h, with_contexts t r))
      (λ t. insert a v t.graph.musical_contexts) _ s
      (λ x e. refused s x (λ k w. ((λ g. g), (λ g. g))) (inl (e, refl)))
      λ (h, r) added.
        let live : get h r ≡ ok v = get-insert_self a v s.graph.musical_contexts added in
        let pointed : opaque_pointer h r ≡ ok a =
          insert-opaque_pointer a v s.graph.musical_contexts added in
        on_check J _ _ _ (λ x e. cc)
          λ host_ref e.
            on_check J _ _ _ (λ x e. cc)
              λ stored e'.
                on_check J _ _ _ (λ x e. cc)
                  λ _ _. on_invoke J _ _ _ _ _ λ refs escaped seen.
                    let here : host_ref ≡ a = cc in
                    let shown : stored ≡ v = cc in
                    let request : Call = Call.create_musical_context host_ref stored.properties in
                    settled plugin a p s h r refs request _ escaped
                      (λ i. Call.create_musical_context (here i) (shown i).properties) refl added
                      (seen ∙ ap (λ x. any (λ q. x == q) (plugin.observed s.calls request)) here)
