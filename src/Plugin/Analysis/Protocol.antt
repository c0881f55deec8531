-- ===== src/Plugin/Analysis/Protocol.antt =====
-- What the host hears of one source's analysis, over any history of callbacks.
pub mod Delivery
pub mod Obeyed
use ara2_bridge.Base.{
  ℕ, zero, suc, Bool, true, false, not, ◌&&◌, ◌||◌, Option, some, none, List, [], ◌∷◌, ◌++◌,
  if◌then◌else◌, ◌==◌, ◌+◌, ◌≡◌, refl, sym, ◌∙◌, ap, subst, ◌⊎◌, inl, inr, arith, Bool-cases,
  Option-cases, ==_iff, length, ltb, any,
}
use ara2_bridge.Errors.{Result, ok, err, Result-cases, AraError}
use ara2_bridge.Registry.{RawHandle, same_raw}
use ara2_bridge.Plugin.Keys.{
  find, put, erase, without, count, same_raw_self, same_raw_eq, find-erase_self, find-erase_other,
  find-put_self, find-put_other, count-without_self, count-without_other, count-snoc,
}
use ara2_bridge.Plugin.Analysis.{
  Fractions, in_range, PendingAnalysisProgress, pending_updated, pending_completed,
  AnalysisProgress, started, updated, completed, cancelled, Job, Jobs, to_set,
}
use ara2_bridge.Plugin.Analysis.Emitter
use ara2_bridge.Plugin.Analysis.Coordinator
use ara2_bridge.Plugin.Analysis.Callbacks.{
  Analysis, Notice, new_analysis, notice_for, announce, apply_event, jobs_after, notice_of, deliver,
  notify_model_updates, cancel_analysis, request_analysis,
}

-- What the host believes of a source: no analysis, or one at a fraction.
pub data View (A : Type 0) : Type 0 where
  quiet : View A
  running : A → View A

-- What happens between the plug-in and the host: a notice, or the host ends a source's analysis.
pub data Item (A : Type 0) : Type 0 where
  notice : Notice A → Item A
  revoked : RawHandle → Item A

-- The protocol of one source: a start while quiet, then fractions that do not decrease and stay
-- below one, then a completion.
abbrev pub hear :
    (F : Fractions) → View F.Carrier → AnalysisProgress F.Carrier → Option (View F.Carrier)
hear F quiet started = some (running F.zero)
hear F (running last) (updated p) = if in_range F last p then some (running p) else none
hear F (running last) completed = some quiet
hear F _ _ = none

-- One item, of a source and its reference; `none` is a violation.
abbrev pub watch :
    (F : Fractions) → RawHandle → ℕ → View F.Carrier → Item F.Carrier → Option (View F.Carrier)
watch F source r view (notice (host_ref, progress)) =
    if host_ref == r then hear F view progress else some view
watch F source r view (revoked other) = if same_raw other source then some quiet else some view

abbrev pub follow :
    (F : Fractions)
    → RawHandle
    → ℕ
    → List (Item F.Carrier)
    → Option (View F.Carrier)
    → Option (View F.Carrier)
follow F source r [] view = view
follow F source r (item ∷ items) none = none
follow F source r (item ∷ items) (some view) = follow F source r items (watch F source r view item)

-- The commands that reach the plug-in's analysis state.
pub data Command (A : Type 0) : Type 0 where
  request : RawHandle → List ℕ → Bool → Command A
  emit_update : RawHandle → A → Command A
  emit_completion : RawHandle → Command A
  revoke : RawHandle → Command A
  notify : Bool → Command A

abbrev pub or_same : {E A : Type 0} → A → Result E A → A
or_same a (ok x) = x
or_same a (err _) = a

abbrev pub notices : {A : Type 0} → List (Notice A) → List (Item A)
notices [] = []
notices (n ∷ ns) = notice n ∷ notices ns

-- A command's effect, and what happens between the plug-in and the host.
unfoldable pub step :
    (F : Fractions)
    → List ℕ
    → List (RawHandle × ℕ)
    → Command F.Carrier
    → Analysis F.Carrier
    → Analysis F.Carrier × List (Item F.Carrier)
step F analyzable hosts (request source types accepted) a =
    (request_analysis F analyzable source types accepted a, [])
step F analyzable hosts (emit_update source p) a =
    (record a { events = or_same a.events (Emitter.update F source p a.events) }, [])
step F analyzable hosts (emit_completion source) a =
    (record a { events = Emitter.complete source a.events }, [])
step F analyzable hosts (revoke source) a = (cancel_analysis source a, revoked source ∷ [])
step F analyzable hosts (notify ready) a =
    let (a', ns) = notify_model_updates F ready hosts a in (a', notices ns)

unfoldable pub history :
    (F : Fractions)
    → List ℕ
    → List (RawHandle × ℕ)
    → List (Command F.Carrier)
    → Analysis F.Carrier
    → List (Item F.Carrier)
unfolding step request_analysis Coordinator.start Coordinator.update Coordinator.complete
    Coordinator.cancel to_set Emitter.update Emitter.complete Emitter.cancel cancel_analysis
    notify_model_updates announce deliver apply_event notice_of notice_for
history F analyzable hosts [] a = []
history F analyzable hosts (c ∷ cs) a =
    let (a', items) = step F analyzable hosts c a in items ++ history F analyzable hosts cs a'
