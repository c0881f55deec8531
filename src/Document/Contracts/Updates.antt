-- ===== src/Document/Contracts/Updates.antt =====
-- What updating an audio source or an audio modification promises
-- (ara2-bridge-host/src/document/edit.rs).
use text.Mathlib.Text.{◌==◌ as str_eq}
use ara2_bridge.Base.{
  String, Bool, Bool-cases, true, false, not, List, ◌≡◌, ◌≢◌, ◌↔◌, refl, ap, sym, subst, inl, inr,
  if◌then◌else◌, arith,
}
use ara2_bridge.Errors.{Result, ok, err, AraError, guard, map_ok}
use ara2_bridge.Registry.{Kind, Handle, Registry, get, modify, audio_source_kind}
use ara2_bridge.Registry.Laws.{modify_of_get}
use ara2_bridge.Registry.Lookup.{get-modify_self, get-modify_ne, get-modify_inv}
use ara2_bridge.Properties.{AudioSourceProperties}
use ara2_bridge.Document.Records.{AudioSourceRecord, Graph, insert_id, remove_id}
use ara2_bridge.Document.Session.{Session, Plugin, ◌>>=◌, ◌>>◌, write, pure}
use ara2_bridge.Document.Fields.{with_sources}
use ara2_bridge.Document.Update.{update_audio_source, is_taken, swap_id}
use ara2_bridge.Document.Outcomes.{on_check, on_call, on_update}

-- The identifiers after an object has changed its own.
abbrev pub exchanged : String → String → List String → List String
exchanged old new ids = if str_eq old new then ids else insert_id new (remove_id old ids)

-- The value at a live handle has changed, and no other.
abbrev pub Changed : {K : Kind} {T : Type 0} → Handle K → T → Registry K T → Registry K T → Type 0
Changed {K} {T} h v r r' =
    (get h r' ≡ ok v) × ((k : Handle K) (w : T) → k ≢ h → (get k r' ≡ ok w) ↔ (get k r ≡ ok w))

modify-Changed :
    {K : Kind} {T : Type 0} (h : Handle K) (f : T → T) (r : Registry K T) {v : T}
    → get h r ≡ ok v
    → (r' : Registry K T) × (modify h f r ≡ ok r') × Changed h (f v) r r'
modify-Changed h f r live =
    let (r', written) = modify_of_get h f r live in
    (
      r',
      written,
      (
        get-modify_self h f r written live,
        λ k w n. (
          (λ g. elim (get-modify_inv h f r k written g) [
            | inl (_, old) ↦ old
            | inr (same, _) ↦ absurd (n same)
          ]),
          (λ g. get-modify_ne h f r k written n g),
        ),
      ),
    )

ids_after :
    (old new : String) (t s : Session)
    → t.graph ≡ s.graph
    → (swap_id old new t).graph.persistent_ids ≡ exchanged old new s.graph.persistent_ids
ids_after old new t s same = elim (Bool-cases (str_eq old new)) [
  | inl y ↦ rw (y, exchanged) (ap (λ (g : Graph). g.persistent_ids) same)
  | inr n ↦
      rw (n, exchanged) (ap (λ (g : Graph). insert_id new (remove_id old g.persistent_ids)) same)
]

passed : (b : Bool) (e : AraError) {u : Unit {0}} → guard b e ≡ ok u → b ≡ true
passed b e h = ground arith

free : (b : Bool) (e : AraError) {u : Unit {0}} → guard (not b) e ≡ ok u → b ≡ false
free b e h = ground arith

-- A failed update leaves the graph as it was; a successful one had an active source and a free
-- identifier, and changes the properties of this source and exchanges its identifier.
pub data SourceUpdate (h : Handle audio_source_kind) (p : AudioSourceProperties) (s : Session)
    : Session × Result AraError (Unit {0}) → Type 0 where
  refused : (s' : Session) (x : AraError) → s'.graph ≡ s.graph → SourceUpdate h p s (s', err x)
  updated :
      (s' : Session) (u : Unit {0}) (r : AudioSourceRecord)
      → get h s.graph.audio_sources ≡ ok r
      → r.active ≡ true
      → is_taken r.properties.persistent_id p.persistent_id s ≡ false
      → Changed h (record r { properties = p }) s.graph.audio_sources s'.graph.audio_sources
      → s'.graph.persistent_ids
        ≡ exchanged r.properties.persistent_id p.persistent_id s.graph.persistent_ids
      → SourceUpdate h p s (s', ok u)

module _ (h : Handle audio_source_kind) (p : AudioSourceProperties) (s : Session) where
  written_source :
      (r : AudioSourceRecord) (t : Session)
      → get h s.graph.audio_sources ≡ ok r
      → r.active ≡ true
      → is_taken r.properties.persistent_id p.persistent_id s ≡ false
      → t.graph ≡ s.graph
      → SourceUpdate h p s (
          (write (λ u.
                map_ok
                  (with_sources u)
                  (modify h (λ w. record w { properties = p }) u.graph.audio_sources))
              >> pure tt)
            (swap_id r.properties.persistent_id p.persistent_id t))
  unfolding ◌>>=◌ write pure
  written_source r t found on fresh same =
      let (r', written, changed) =
        modify-Changed h (λ (w : AudioSourceRecord). record w { properties = p })
          s.graph.audio_sources found in
      let there : modify h (λ w. record w { properties = p }) t.graph.audio_sources ≡ ok r' =
        subst
          (λ (g : Graph).
            modify h (λ (w : AudioSourceRecord). record w { properties = p }) g.audio_sources
            ≡ ok r')
          (sym same) written in
      let ids = ids_after r.properties.persistent_id p.persistent_id t s same in
      elim (Bool-cases (str_eq r.properties.persistent_id p.persistent_id)) [
        | inl y ↦ rw (y, write, there) (updated _ tt r found on fresh changed ids)
        | inr n ↦ rw (n, write, there) (updated _ tt r found on fresh changed ids)
      ]

-- Updating an audio source fails and leaves the graph as it was, or the source is active and the
-- new identifier free or its own: its properties change, no other source does, and the identifiers
-- are exchanged.
pub update_audio_source-outcome :
    (plugin : Plugin) (h : Handle audio_source_kind) (p : AudioSourceProperties) (s : Session)
    → SourceUpdate h p s (update_audio_source plugin h p s)
unfolding update_audio_source
update_audio_source-outcome plugin h p s =
    let J : Session × Result AraError (Unit {0}) → Type 0 = SourceUpdate h p s in
    on_check J _ _ _ (λ x _. refused s x refl)
      λ r found.
        on_check J _ _ _ (λ x _. refused s x refl)
          λ _ on.
            on_check J _ _ _ (λ x _. refused s x refl)
              λ _ _.
                on_check J _ _ _ (λ x _. refused s x refl)
                  λ _ fresh.
                    on_check J _ _ _ (λ x _. refused s x refl)
                      λ _ _.
                        on_call J _ _ _ _ (λ refs x. refused _ x refl)
                          λ refs _. on_update J _ _ _ (
                            written_source h p s r _ found (passed r.active _ on)
                              (free (is_taken r.properties.persistent_id p.persistent_id s) _ fresh)
                              refl)
