-- ===== src/Plugin/Analysis/Protocol/Obeyed.antt =====
-- Every history of callbacks keeps to the protocol that the host of a source may rely on.
use ara2_bridge.Base.{
  ℕ, Bool, true, false, some, none, List, [], ◌∷◌, ◌++◌, if◌then◌else◌, ◌+◌, ◌≡◌, refl, sym, ◌∙◌,
  ap, subst, ◌⊎◌, inl, inr, Bool-cases,
}
use ara2_bridge.Errors.{Result, ok, err, AraError}
use ara2_bridge.Registry.{RawHandle, same_raw}
use ara2_bridge.Plugin.Keys.{
  find, put, erase, count, same_raw_self, same_raw_eq, find-erase_self, find-erase_other,
  find-put_self, find-put_other, count-without_self, count-without_other, count-snoc,
}
use ara2_bridge.Plugin.Analysis.{Fractions, AnalysisProgress, started, Job, Jobs, to_set}
use ara2_bridge.Plugin.Analysis.Coordinator
use ara2_bridge.Plugin.Analysis.Callbacks.{
  Analysis, new_analysis, announce, deliver, notify_model_updates, cancel_analysis, acceptable,
  request_analysis, request_started,
}
use ara2_bridge.Plugin.Analysis.Protocol.{
  View, quiet, running, Item, follow, notices, Command, request, emit_update, emit_completion,
  revoke, notify, step, history,
}
use ara2_bridge.Plugin.Analysis.Protocol.Delivery.{
  follow-append, notices-append, Agrees, deliver-follow, announce-none, announce-one,
}

-- How the plug-in's state stands to what the host believes of a source: a start that waits to be
-- announced goes with a job at zero.
abbrev pub Stage : (F : Fractions) → RawHandle → Analysis F.Carrier → View F.Carrier → Type 0
Stage F source a quiet =
    ((find source a.jobs ≡ none) × (count source a.starts ≡ 0))
    ⊎ ((job : Job F.Carrier) × (find source a.jobs ≡ some job)
        × (job.progress ≡ F.zero)
        × (count source a.starts ≡ 1))
Stage F source a (running q) = Agrees source a.jobs (running q) × (count source a.starts ≡ 0)

Stage-same :
    (F : Fractions) (source : RawHandle) (a a' : Analysis F.Carrier) (v : View F.Carrier)
    → find source a'.jobs ≡ find source a.jobs
    → count source a'.starts ≡ count source a.starts
    → Stage F source a v
    → Stage F source a' v
Stage-same F source a a' quiet e n (inl (f, m)) = inl (e ∙ f, n ∙ m)
Stage-same F source a a' quiet e n (inr (job, f, z, m)) = inr (job, e ∙ f, z, n ∙ m)
Stage-same F source a a' (running q) e n ((job, f, z), m) = ((job, e ∙ f, z), n ∙ m)

settled-Stage :
    (F : Fractions) (source : RawHandle) (a : Analysis F.Carrier) (v : View F.Carrier)
    → Agrees source a.jobs v
    → count source a.starts ≡ 0
    → Stage F source a v
settled-Stage F source a quiet h n = inl (h, n)
settled-Stage F source a (running q) h n = (h, n)

-- A source without a job is quiet, and no start of it waits.
idle-Stage :
    (F : Fractions) (source : RawHandle) (a : Analysis F.Carrier) (v : View F.Carrier)
    → find source a.jobs ≡ none
    → Stage F source a v
    → (v ≡ quiet) × (count source a.starts ≡ 0)
idle-Stage F source a quiet e (inl (f, m)) = (refl, m)
idle-Stage F source a quiet e (inr (job, f, z, m)) = let no : none ≡ some job = sym e ∙ f in cc
idle-Stage F source a (running q) e ((job, f, z), m) = let no : none ≡ some job = sym e ∙ f in cc

if_holds : {A : Type 0} (P : A → Type 0) (b : Bool) (x y : A) → P x → P y → P (if b then x else y)
if_holds P true x y f g = f
if_holds P false x y f g = g

other_begun :
    (F : Fractions) (source t : RawHandle) (accepted : Bool) (a : Analysis F.Carrier)
    (jobs : Jobs F.Carrier) (v : View F.Carrier)
    → same_raw t source ≡ false
    → find source jobs ≡ find source a.jobs
    → Stage F source a v
    → Stage F source (request_started t accepted a (ok (jobs, started))) v
unfolding request_started Coordinator.cancel
other_begun F source t true a jobs v off e h =
    Stage-same F source a (record a { jobs = jobs; starts = a.starts ++ t ∷ [] }) v e
      (count-snoc source t a.starts
        ∙ ap (λ b. if b then count source a.starts + 1 else count source a.starts) off)
      h
other_begun F source t false a jobs v off e h =
    Stage-same F source a (record a { jobs = erase t jobs }) v
      (find-erase_other t source jobs off ∙ e) refl h

own_begun :
    (F : Fractions) (source : RawHandle) (accepted : Bool) (a : Analysis F.Carrier)
    (jobs : Jobs F.Carrier) (job : Job F.Carrier)
    → find source jobs ≡ some job
    → job.progress ≡ F.zero
    → count source a.starts ≡ 0
    → Stage F source (request_started source accepted a (ok (jobs, started))) quiet
unfolding request_started Coordinator.cancel
own_begun F source true a jobs job e z n =
    let last =
      count-snoc source source a.starts
      ∙ ap (λ b. if b then count source a.starts + 1 else count source a.starts)
          (same_raw_self source) in
    inr (job, e, z, last ∙ ap (λ m. m + 1) n)
own_begun F source false a jobs job e z n = inl (find-erase_self source jobs, n)

request-Stage :
    (F : Fractions) (source : RawHandle) (analyzable : List ℕ) (t : RawHandle) (types : List ℕ)
    (accepted : Bool) (a : Analysis F.Carrier) (v : View F.Carrier)
    → Stage F source a v
    → Stage F source (request_analysis F analyzable t types accepted a) v
unfolding request_analysis request_started Coordinator.cancel
request-Stage F source analyzable t types accepted a v h =
    if_holds (λ z. Stage F source z v) (acceptable analyzable types)
      (request_started t accepted a (Coordinator.start F t types a.jobs)) a
      (begun (Coordinator.start F t types a.jobs) refl) h
  where
    begun :
        (result : Result AraError (Jobs F.Carrier × AnalysisProgress F.Carrier))
        → Coordinator.start F t types a.jobs ≡ result
        → Stage F source (request_started t accepted a result) v
    begun (err _) e = h
    begun (ok (jobs, p)) e =
        let (new, put_is) = Coordinator.start-ok_inv F t types a.jobs e in
        elim (Bool-cases (same_raw t source)) [
          | inr off ↦
              other_begun F source t accepted a jobs v off
                (ap (find source) put_is
                  ∙ find-put_other t source
                      (record { content_types = to_set types; progress = F.zero }) a.jobs off)
                h
          | inl on ↦
              let same = same_raw_eq t source on in
              let found : find source jobs
                  ≡ some (record { content_types = to_set types; progress = F.zero }) =
                ap (find source) put_is
                ∙ ap
                    (λ z.
                      find source
                        (put z (record { content_types = to_set types; progress = F.zero }) a.jobs))
                    same
                ∙ find-put_self source _ a.jobs in
              let (v_is, n) =
                idle-Stage F source a v (ap (λ z. find z a.jobs) (sym same) ∙ new) h in
              subst (λ z. Stage F source (request_started z accepted a (ok (jobs, p))) v) (sym same)
                (subst (Stage F source (request_started source accepted a (ok (jobs, p))))
                  (sym v_is)
                  (own_begun F source accepted a jobs
                    (record { content_types = to_set types; progress = F.zero }) found refl n))
        ]

cancel-Stage :
    (F : Fractions) (source : RawHandle) (t : RawHandle) (a : Analysis F.Carrier)
    (v : View F.Carrier)
    → same_raw t source ≡ false
    → Stage F source a v
    → Stage F source (cancel_analysis t a) v
unfolding cancel_analysis Coordinator.cancel
cancel-Stage F source t a v off h =
    Stage-same F source a (cancel_analysis t a) v (find-erase_other t source a.jobs off)
      (count-without_other t source a.starts off) h

cancelled-Stage :
    (F : Fractions) (source : RawHandle) (a : Analysis F.Carrier)
    → Stage F source (cancel_analysis source a) quiet
unfolding cancel_analysis Coordinator.cancel
cancelled-Stage F source a = inl (find-erase_self source a.jobs, count-without_self source a.starts)

module _ (F : Fractions) (analyzable : List ℕ) (hosts : List (RawHandle × ℕ)) (source : RawHandle)
    (r : ℕ) (known : find source hosts ≡ some r)
    (own : (t : RawHandle) → find t hosts ≡ some r → t ≡ source) where
  -- What the notices of one notification do.
  Heard : Analysis F.Carrier → View F.Carrier → List (Item F.Carrier) → Type 0
  Heard a v items =
      (v' : View F.Carrier) × (follow F source r items (some v) ≡ some v') × Stage F source a v'

  notify-Heard :
      (a : Analysis F.Carrier) (v v1 : View F.Carrier)
      → follow F source r (notices (announce hosts a.starts)) (some v) ≡ some v1
      → Agrees source a.jobs v1
      → Heard
          (notify_model_updates F true hosts a).0
          v
          (notices (notify_model_updates F true hosts a).1)
  unfolding Heard notify_model_updates
  notify-Heard a v v1 e h =
      let (v2, f, h2) = deliver-follow F hosts source r known own a.events a.jobs v1 h in
      let ns = (deliver F hosts a.events a.jobs).1 in
      (
        v2,
        ap (λ items. follow F source r items (some v)) (notices-append (announce hosts a.starts) ns)
            ∙ follow-append F source r (notices (announce hosts a.starts)) (notices ns) (some v)
            ∙ ap (follow F source r (notices ns)) e
            ∙ f,
        settled-Stage F source (notify_model_updates F true hosts a).0 v2 h2 refl,
      )

  step-Heard :
      (c : Command F.Carrier) (a : Analysis F.Carrier) (v : View F.Carrier)
      → Stage F source a v
      → Heard (step F analyzable hosts c a).0 v (step F analyzable hosts c a).1
  unfolding step Heard notify_model_updates
  step-Heard (request t types accepted) a v h =
      (v, refl, request-Stage F source analyzable t types accepted a v h)
  step-Heard (emit_update t p) a v h =
      (v, refl, Stage-same F source a (step F analyzable hosts (emit_update t p) a).0 v refl refl h)
  step-Heard (emit_completion t) a v h = (
    v,
    refl,
    Stage-same F source a (step F analyzable hosts (emit_completion t) a).0 v refl refl h,
  )
  step-Heard (revoke t) a v h = elim (Bool-cases (same_raw t source)) [
    | inl on ↦ (
      quiet,
      ap (λ b. if b then some quiet else some v) on,
      subst (λ z. Stage F source (cancel_analysis z a) quiet) (sym (same_raw_eq t source on))
          (cancelled-Stage F source a),
    )
    | inr off ↦
        (v, ap (λ b. if b then some quiet else some v) off, cancel-Stage F source t a v off h)
  ]
  step-Heard (notify false) a v h = (v, refl, h)
  step-Heard (notify true) a quiet (inl (f, n)) =
      notify-Heard a quiet quiet (announce-none F hosts source r known own a.starts quiet n) f
  step-Heard (notify true) a quiet (inr (job, f, z, n)) =
      notify-Heard a quiet (running F.zero) (announce-one F hosts source r known own a.starts n)
        (job, f, z)
  step-Heard (notify true) a (running q) (h, n) =
      notify-Heard a (running q) (running q)
        (announce-none F hosts source r known own a.starts (running q) n) h

  history-Stage :
      (cs : List (Command F.Carrier)) (a : Analysis F.Carrier) (v : View F.Carrier)
      → Stage F source a v
      → (v' : View F.Carrier) × (follow F source r (history F analyzable hosts cs a) (some v)
          ≡ some v')
  unfolding history Heard
  history-Stage [] a v h = (v, refl)
  history-Stage (c ∷ cs) a v h =
      let (v1, f, h1) = step-Heard c a v h in
      let (v2, g) = history-Stage cs (step F analyzable hosts c a).0 v1 h1 in
      let items = (step F analyzable hosts c a).1 in
      let later = history F analyzable hosts cs (step F analyzable hosts c a).0 in
      (v2, follow-append F source r items later (some v) ∙ ap (follow F source r later) f ∙ g)

-- In every history of requests, emitted progress, revocations and notifications, from no analysis
-- on, the host hears of a source, whose reference is known and is no other source's, only what the
-- protocol allows: a start while it believes that no analysis runs, then finite fractions below one
-- that do not decrease, then a completion; a revocation of the source ends its analysis at once.
pub history-obeys :
    (F : Fractions) (analyzable : List ℕ) (hosts : List (RawHandle × ℕ)) (source : RawHandle)
    (r : ℕ) (cs : List (Command F.Carrier))
    → find source hosts ≡ some r
    → ((t : RawHandle) → find t hosts ≡ some r → t ≡ source)
    → (v : View F.Carrier) × (follow F source r
          (history F analyzable hosts cs new_analysis)
          (some quiet)
        ≡ some v)
history-obeys F analyzable hosts source r cs known own =
    history-Stage F analyzable hosts source r known own cs new_analysis quiet (inl (refl, refl))
