-- ===== src/Plugin/Analysis/Coordinator.antt =====
-- `AnalysisCoordinator` of ara2-bridge-plugin/src/analysis.rs: the jobs.
use ara2_bridge.Base.{
  ℕ, Bool, true, false, not, ◌||◌, Option, some, none, List, length, ◌==◌, ◌≡◌, refl, ◌∙◌, ap,
}
use ara2_bridge.Errors.{
  Result, ok, err, ok_bind, guard, AraError, invalid_argument, invalid_state, ◌>>◌,
}
use ara2_bridge.Registry.{RawHandle}
use ara2_bridge.Plugin.Keys.{find, put, erase}
use ara2_bridge.Plugin.Analysis.{
  Fractions, in_range, AnalysisProgress, started, updated, completed, cancelled, Job, Jobs,
  is_member, to_set, not_active,
}

admit :
    (F : Fractions)
    → RawHandle
    → List ℕ
    → Jobs F.Carrier
    → Option (Job F.Carrier)
    → Result AraError (Jobs F.Carrier × AnalysisProgress F.Carrier)
admit F source unique jobs (some _) = err (invalid_state "audio source analysis is already active")
admit F source unique jobs none =
    ok (put source (record { content_types = unique; progress = F.zero }) jobs, started)

unfoldable pub start :
    (F : Fractions)
    → RawHandle
    → List ℕ
    → Jobs F.Carrier
    → Result AraError (Jobs F.Carrier × AnalysisProgress F.Carrier)
unfolding admit
start F source content_types jobs = do
  let unique = to_set content_types
  guard (not (length content_types == 0 || not (length unique == length content_types)))
      (invalid_argument "analysis content types must be nonempty and unique")
  admit F source unique jobs (find source jobs)

advance :
    (F : Fractions)
    → RawHandle
    → F.Carrier
    → Jobs F.Carrier
    → Option (Job F.Carrier)
    → Result AraError (Jobs F.Carrier × AnalysisProgress F.Carrier)
advance F source progress jobs none = err not_active
advance F source progress jobs (some job) = do
  guard (in_range F job.progress progress)
      (invalid_argument "analysis progress must increase and remain below one")
  ok (put source (record job { progress = progress }) jobs, updated progress)

unfoldable pub update :
    (F : Fractions)
    → RawHandle
    → F.Carrier
    → Jobs F.Carrier
    → Result AraError (Jobs F.Carrier × AnalysisProgress F.Carrier)
unfolding advance
update F source progress jobs = advance F source progress jobs (find source jobs)

finish :
    {A : Type 0}
    → RawHandle
    → Jobs A
    → Option (Job A)
    → Result AraError (Jobs A × AnalysisProgress A)
finish source jobs none = err not_active
finish source jobs (some _) = ok (erase source jobs, completed)

unfoldable pub complete :
    {A : Type 0} → RawHandle → Jobs A → Result AraError (Jobs A × AnalysisProgress A)
unfolding finish
complete source jobs = finish source jobs (find source jobs)

unfoldable pub cancel : {A : Type 0} → RawHandle → Jobs A → Jobs A × Option (AnalysisProgress A)
cancel source jobs =
    (erase source jobs, (elim (find source jobs) [ none ↦ none | some _ ↦ some cancelled ]))

unfoldable pub contains : {A : Type 0} → RawHandle → ℕ → Jobs A → Bool
contains source content_type jobs = elim (find source jobs) [
  | none ↦ false
  | some job ↦ is_member content_type job.content_types
]

module _ (F : Fractions) (source : RawHandle) (progress : F.Carrier) (jobs : Jobs F.Carrier) where
  pub update-none : find source jobs ≡ none → update F source progress jobs ≡ err not_active
  unfolding update
  update-none e = ap (advance F source progress jobs) e

  pub update-refused :
      (job : Job F.Carrier)
      → find source jobs ≡ some job
      → in_range F job.progress progress ≡ false
      → update F source progress jobs
        ≡ err (invalid_argument "analysis progress must increase and remain below one")
  unfolding update
  update-refused job e f = ap (advance F source progress jobs) e ∙ rw f refl

  pub update-some :
      (job : Job F.Carrier)
      → find source jobs ≡ some job
      → in_range F job.progress progress ≡ true
      → update F source progress jobs
        ≡ ok (put source (record job { progress = progress }) jobs, updated progress)
  unfolding update
  update-some job e f = ap (advance F source progress jobs) e ∙ rw f refl

-- A job that starts is new and stands at zero.
pub start-ok_inv :
    (F : Fractions) (source : RawHandle) (content_types : List ℕ) (jobs : Jobs F.Carrier)
    {jobs' : Jobs F.Carrier} {p : AnalysisProgress F.Carrier}
    → start F source content_types jobs ≡ ok (jobs', p)
    → (find source jobs ≡ none)
      × (jobs'
          ≡ put source (record { content_types = to_set content_types; progress = F.zero }) jobs)
unfolding start
start-ok_inv F source content_types jobs {jobs'} {p} e =
    let (_, _, taken) =
      ok_bind
        (guard
          (not (
            length content_types == 0
            || not (length (to_set content_types) == length content_types)))
          (invalid_argument "analysis content types must be nonempty and unique"))
        (λ _. admit F source (to_set content_types) jobs (find source jobs)) e in
    go (find source jobs) taken
  where
    go :
        (o : Option (Job F.Carrier))
        → admit F source (to_set content_types) jobs o ≡ ok (jobs', p)
        → (o ≡ none)
          × (jobs'
              ≡ put source
                  (record { content_types = to_set content_types; progress = F.zero })
                  jobs)
    go none f = (refl, cc)
    go (some job) f = cc

module _ {A : Type 0} (source : RawHandle) (jobs : Jobs A) where
  pub complete-none : find source jobs ≡ none → complete source jobs ≡ err not_active
  unfolding complete
  complete-none e = ap (finish source jobs) e

  pub complete-some :
      (job : Job A)
      → find source jobs ≡ some job
      → complete source jobs ≡ ok (erase source jobs, completed)
  unfolding complete
  complete-some job e = ap (finish source jobs) e
