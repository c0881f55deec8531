-- ===== src/Plugin/Analysis/Emitter.antt =====
-- `AnalysisEmitter` of ara2-bridge-plugin/src/analysis.rs: its queue.
use ara2_bridge.Base.{List, [], ◌∷◌, ◌++◌, if◌then◌else◌}
use ara2_bridge.Errors.{Result, ok, guard, AraError, invalid_argument, ◌>>◌}
use ara2_bridge.Registry.{RawHandle, same_raw}
use ara2_bridge.Plugin.Analysis.{
  Fractions, in_range, PendingAnalysisProgress, pending_updated, pending_completed,
}

unfoldable pub update :
    (F : Fractions)
    → RawHandle
    → F.Carrier
    → List (PendingAnalysisProgress F.Carrier)
    → Result AraError (List (PendingAnalysisProgress F.Carrier))
update F source progress pending = do
  guard (in_range F F.zero progress)
      (invalid_argument "analysis progress must be finite and in 0..1")
  ok (pending ++ pending_updated source progress ∷ [])

unfoldable pub complete :
    {A : Type 0} → RawHandle → List (PendingAnalysisProgress A) → List (PendingAnalysisProgress A)
complete source pending = pending ++ pending_completed source ∷ []

abbrev pub event_source : {A : Type 0} → PendingAnalysisProgress A → RawHandle
event_source (pending_updated source _) = source
event_source (pending_completed source) = source

unfoldable pub cancel :
    {A : Type 0} → RawHandle → List (PendingAnalysisProgress A) → List (PendingAnalysisProgress A)
cancel source [] = []
cancel source (event ∷ pending) =
    let rest = cancel source pending in
    if same_raw (event_source event) source then rest else event ∷ rest
