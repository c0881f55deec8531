-- ===== src/Plugin/Analysis/Callbacks.antt =====
-- The callbacks of ara2-bridge-plugin/src/controller.rs that drive analysis jobs.
use ara2_bridge.Base.{
  ℕ, Bool, true, false, not, ◌&&◌, ◌||◌, Option, some, none, List, [], ◌∷◌, ◌++◌, length, any, ltb,
  if◌then◌else◌, ◌==◌,
}
use ara2_bridge.Errors.{Result, ok, err, AraError}
use ara2_bridge.Registry.{RawHandle}
use ara2_bridge.Plugin.Keys.{find, without}
use ara2_bridge.Plugin.Analysis.{
  Fractions, PendingAnalysisProgress, pending_updated, pending_completed, AnalysisProgress, started,
  Jobs, is_member,
}
use ara2_bridge.Plugin.Analysis.Emitter
use ara2_bridge.Plugin.Analysis.Coordinator

-- The controller's analysis state, and its map from sources to the host's references.
pub record Analysis (A : Type 0) : Type 0 where
  pub jobs : Jobs A
  pub events : List (PendingAnalysisProgress A)
  pub starts : List RawHandle

abbrev pub new_analysis : {A : Type 0} → Analysis A
new_analysis = record { jobs = []; events = []; starts = [] }

-- A call of `notify_analysis_progress`: the host's reference and the progress.
abbrev pub Notice : Type 0 → Type 0
Notice A = ℕ × AnalysisProgress A

abbrev pub send : {A : Type 0} → Option ℕ → AnalysisProgress A → List (Notice A) → List (Notice A)
send none progress later = later
send (some host_ref) progress later = (host_ref, progress) ∷ later

-- The call for a source, if the host's reference is known.
unfoldable pub notice_for :
    {A : Type 0}
    → List (RawHandle × ℕ)
    → RawHandle
    → AnalysisProgress A
    → List (Notice A)
    → List (Notice A)
notice_for hosts source progress later = send (find source hosts) progress later

-- The loop over the starts of `notify_model_updates`.
unfoldable pub announce : {A : Type 0} → List (RawHandle × ℕ) → List RawHandle → List (Notice A)
announce hosts [] = []
announce hosts (source ∷ starts) = notice_for hosts source started (announce hosts starts)

-- One event of the queue, handed to the coordinator.
unfoldable pub apply_event :
    (F : Fractions)
    → PendingAnalysisProgress F.Carrier
    → Jobs F.Carrier
    → Result AraError (Jobs F.Carrier × AnalysisProgress F.Carrier)
apply_event F (pending_updated source value) jobs = Coordinator.update F source value jobs
apply_event F (pending_completed source) jobs = Coordinator.complete source jobs

abbrev pub jobs_after :
    {A : Type 0} → Jobs A → Result AraError (Jobs A × AnalysisProgress A) → Jobs A
jobs_after jobs (ok (jobs', _)) = jobs'
jobs_after jobs (err _) = jobs

-- The call that follows an event, if the coordinator took it.
unfoldable pub notice_of :
    {A : Type 0}
    → List (RawHandle × ℕ)
    → RawHandle
    → Result AraError (Jobs A × AnalysisProgress A)
    → List (Notice A)
    → List (Notice A)
notice_of hosts source (ok (_, progress)) later = notice_for hosts source progress later
notice_of hosts source (err _) later = later

-- The loop over the events of `notify_model_updates`.
unfoldable pub deliver :
    (F : Fractions)
    → List (RawHandle × ℕ)
    → List (PendingAnalysisProgress F.Carrier)
    → Jobs F.Carrier
    → Jobs F.Carrier × List (Notice F.Carrier)
deliver F hosts [] jobs = (jobs, [])
deliver F hosts (event ∷ events) jobs =
    let result = apply_event F event jobs in
    let (jobs', later) = deliver F hosts events (jobs_after jobs result) in
    (jobs', notice_of hosts (Emitter.event_source event) result later)

-- The analysis part of `notify_model_updates`; the first argument is what its guards find: no open
-- content reader, no editing, and a host that takes model updates.
unfoldable pub notify_model_updates :
    (F : Fractions)
    → Bool
    → List (RawHandle × ℕ)
    → Analysis F.Carrier
    → Analysis F.Carrier × List (Notice F.Carrier)
notify_model_updates F false hosts a = (a, [])
notify_model_updates F true hosts a =
    let (jobs, notices) = deliver F hosts a.events a.jobs in
    (record { jobs = jobs; events = []; starts = [] }, announce hosts a.starts ++ notices)

-- What deactivation, the end of sample access and destruction do to a source's analysis.
unfoldable pub cancel_analysis : {A : Type 0} → RawHandle → Analysis A → Analysis A
cancel_analysis source a = record {
  jobs = (Coordinator.cancel source a.jobs).0;
  events = Emitter.cancel source a.events;
  starts = without source a.starts;
}

unfoldable pub request_started :
    {A : Type 0}
    → RawHandle
    → Bool
    → Analysis A
    → Result AraError (Jobs A × AnalysisProgress A)
    → Analysis A
request_started source accepted a (err _) = a
request_started source accepted a (ok (jobs, _)) =
    if accepted
    then record a { jobs = jobs; starts = a.starts ++ source ∷ [] }
    else record a { jobs = (Coordinator.cancel source jobs).0 }

-- The count is within bounds and every content type is one that the factory can analyse.
abbrev pub acceptable : List ℕ → List ℕ → Bool
acceptable analyzable content_types =
    not (length content_types == 0 || ltb 1024 (length content_types))
    && not (any (λ t. not (is_member t analyzable)) content_types)

-- `request_audio_source_content_analysis` of a source that was resolved, with a pointer that is not
-- null; `accepted` tells whether the application's `request_analysis` succeeds.
unfoldable pub request_analysis :
    (F : Fractions) → List ℕ → RawHandle → List ℕ → Bool → Analysis F.Carrier → Analysis F.Carrier
unfolding request_started
request_analysis F analyzable source content_types accepted a =
    if acceptable analyzable content_types
    then request_started source accepted a (Coordinator.start F source content_types a.jobs)
    else a
