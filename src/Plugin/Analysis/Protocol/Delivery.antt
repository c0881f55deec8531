-- ===== src/Plugin/Analysis/Protocol/Delivery.antt =====
-- The notices of one `notify_model_updates`, as the host of one source hears them.
use ara2_bridge.Base.{
  ℕ, true, false, Option, some, none, List, [], ◌∷◌, ◌++◌, if◌then◌else◌, ◌==◌, ◌+◌, ◌≡◌, refl, sym,
  ◌∙◌, ap, subst, inl, inr, arith, Bool-cases, Option-cases, ==_iff,
}
use ara2_bridge.Errors.{Result, ok, err, AraError}
use ara2_bridge.Registry.{RawHandle, same_raw}
use ara2_bridge.Plugin.Keys.{
  find, put, erase, count, same_raw_self, same_raw_eq, find-erase_self, find-erase_other,
  find-put_self, find-put_other,
}
use ara2_bridge.Plugin.Analysis.{
  Fractions, in_range, PendingAnalysisProgress, pending_updated, pending_completed,
  AnalysisProgress, started, updated, completed, Job, Jobs,
}
use ara2_bridge.Plugin.Analysis.Emitter
use ara2_bridge.Plugin.Analysis.Coordinator
use ara2_bridge.Plugin.Analysis.Callbacks.{
  Notice, send, notice_for, announce, apply_event, jobs_after, notice_of, deliver,
}
use ara2_bridge.Plugin.Analysis.Protocol.{
  View, quiet, running, Item, notice, hear, watch, follow, notices,
}

pub follow-append :
    (F : Fractions) (source : RawHandle) (r : ℕ) (xs ys : List (Item F.Carrier))
    (o : Option (View F.Carrier))
    → follow F source r (xs ++ ys) o ≡ follow F source r ys (follow F source r xs o)
follow-append F source r [] ys o = refl
follow-append F source r (x ∷ xs) ys none = sym (follow-none ys)
  where
    follow-none : (zs : List (Item F.Carrier)) → follow F source r zs none ≡ none
    follow-none [] = refl
    follow-none (z ∷ zs) = refl
follow-append F source r (x ∷ xs) ys (some v) =
    follow-append F source r xs ys (watch F source r v x)

pub notices-append :
    {A : Type 0} (xs ys : List (Notice A)) → notices (xs ++ ys) ≡ notices xs ++ notices ys
notices-append [] ys = refl
notices-append (x ∷ xs) ys = ap (λ l. notice x ∷ l) (notices-append xs ys)

-- The jobs agree with what the host believes of a source.
abbrev pub Agrees : {A : Type 0} → RawHandle → Jobs A → View A → Type 0
Agrees source jobs quiet = find source jobs ≡ none
Agrees {A} source jobs (running q) =
    (job : Job A) × (find source jobs ≡ some job) × (job.progress ≡ q)

Agrees-same :
    {A : Type 0} (source : RawHandle) (jobs jobs' : Jobs A) (v : View A)
    → find source jobs' ≡ find source jobs
    → Agrees source jobs v
    → Agrees source jobs' v
Agrees-same source jobs jobs' quiet e h = e ∙ h
Agrees-same source jobs jobs' (running q) e (job, f, g) = (job, e ∙ f, g)

module _ (F : Fractions) (hosts : List (RawHandle × ℕ)) (source : RawHandle) (r : ℕ)
    (known : find source hosts ≡ some r)
    (own : (t : RawHandle) → find t hosts ≡ some r → t ≡ source) where
  hears_own :
      (p : AnalysisProgress F.Carrier) (later : List (Notice F.Carrier)) (v : View F.Carrier)
      → follow F source r (notices (notice_for hosts source p later)) (some v)
        ≡ follow F source r (notices later) (hear F v p)
  unfolding notice_for
  hears_own p later v =
      let same : (r == r) ≡ true = (==_iff r r).1 refl in
      ap (λ o. follow F source r (notices (send o p later)) (some v)) known
      ∙ ap (λ b. follow F source r (notices later) (if b then hear F v p else some v)) same

  hears_no_other :
      (t : RawHandle) (p : AnalysisProgress F.Carrier) (later : List (Notice F.Carrier))
      (v : View F.Carrier)
      → same_raw t source ≡ false
      → follow F source r (notices (notice_for hosts t p later)) (some v)
        ≡ follow F source r (notices later) (some v)
  unfolding notice_for
  hears_no_other t p later v e = elim (Option-cases (find t hosts)) [
    | inl f ↦ ap (λ o. follow F source r (notices (send o p later)) (some v)) f
    | inr (q, f) ↦ elim (Bool-cases (q == r)) [
      | inr g ↦
          ap (λ o. follow F source r (notices (send o p later)) (some v)) f
          ∙ ap (λ b. follow F source r (notices later) (if b then hear F v p else some v)) g
      | inl g ↦
          let q_is : q ≡ r = (==_iff q r).0 g in
          let same = own t (f ∙ ap some q_is) in
          let no : true ≡ false =
            sym (same_raw_self source) ∙ ap (λ z. same_raw z source) (sym same) ∙ e in
          cc
    ]
  ]

  -- An event whose result is handled: the jobs that it leaves agree with what the host hears.
  Follows :
      RawHandle
      → Jobs F.Carrier
      → View F.Carrier
      → Result AraError (Jobs F.Carrier × AnalysisProgress F.Carrier)
      → Type 0
  Follows t jobs v result =
      (v' : View F.Carrier) × Agrees source (jobs_after jobs result) v'
      × ((later : List (Notice F.Carrier))
          → follow F source r (notices (notice_of hosts t result later)) (some v)
            ≡ follow F source r (notices later) (some v'))

  refused-Follows :
      (t : RawHandle) (jobs : Jobs F.Carrier) (v : View F.Carrier) (e : AraError)
      → Agrees source jobs v
      → Follows t jobs v (err e)
  unfolding Follows notice_of
  refused-Follows t jobs v e h = (v, h, λ later. refl)

  other-Follows :
      (t : RawHandle) (jobs jobs' : Jobs F.Carrier) (v : View F.Carrier)
      (p : AnalysisProgress F.Carrier)
      → same_raw t source ≡ false
      → find source jobs' ≡ find source jobs
      → Agrees source jobs v
      → Follows t jobs v (ok (jobs', p))
  unfolding Follows notice_of
  other-Follows t jobs jobs' v p off e h =
      (v, Agrees-same source jobs jobs' v e h, λ later. hears_no_other t p later v off)

  own_update-Follows :
      (x : F.Carrier) (jobs : Jobs F.Carrier) (v : View F.Carrier) (job : Job F.Carrier)
      → Agrees source jobs v
      → find source jobs ≡ some job
      → in_range F job.progress x ≡ true
      → Follows source jobs v (ok (put source (record job { progress = x }) jobs, updated x))
  unfolding Follows notice_of
  own_update-Follows x jobs quiet job h e f = let no : none ≡ some job = sym h ∙ e in cc
  own_update-Follows x jobs (running q) job (job', h, g) e f =
      let same : job' ≡ job = cc in
      let last : q ≡ job.progress = sym g ∙ ap (λ z. z.progress) same in
      let fits : in_range F q x ≡ true = ap (λ z. in_range F z x) last ∙ f in
      (
        running x,
        (_, find-put_self source _ jobs, refl),
        λ later.
            hears_own (updated x) later (running q)
            ∙ ap (λ b. follow F source r (notices later) (if b then some (running x) else none))
                fits,
      )

  own_complete-Follows :
      (jobs : Jobs F.Carrier) (v : View F.Carrier) (job : Job F.Carrier)
      → Agrees source jobs v
      → find source jobs ≡ some job
      → Follows source jobs v (ok (erase source jobs, completed))
  unfolding Follows notice_of
  own_complete-Follows jobs quiet job h e = let no : none ≡ some job = sym h ∙ e in cc
  own_complete-Follows jobs (running q) job h e =
      (quiet, find-erase_self source jobs, λ later. hears_own completed later (running q))

  complete-Follows :
      (t : RawHandle) (jobs : Jobs F.Carrier) (v : View F.Carrier)
      → Agrees source jobs v
      → Follows t jobs v (Coordinator.complete t jobs)
  complete-Follows t jobs v h = elim (Option-cases (find t jobs)) [
    | inl e ↦
        subst (Follows t jobs v) (sym (Coordinator.complete-none t jobs e))
          (refused-Follows t jobs v _ h)
    | inr (job, e) ↦
        subst (Follows t jobs v) (sym (Coordinator.complete-some t jobs job e)) (taken job e)
  ]
    where
      taken :
          (job : Job F.Carrier)
          → find t jobs ≡ some job
          → Follows t jobs v (ok (erase t jobs, completed))
      taken job e = elim (Bool-cases (same_raw t source)) [
        | inr off ↦ other-Follows t jobs _ v completed off (find-erase_other t source jobs off) h
        | inl on ↦
            let same = same_raw_eq t source on in
            subst (λ z. Follows z jobs v (ok (erase z jobs, completed))) (sym same)
              (own_complete-Follows jobs v job h (ap (λ z. find z jobs) (sym same) ∙ e))
      ]

  update-Follows :
      (t : RawHandle) (x : F.Carrier) (jobs : Jobs F.Carrier) (v : View F.Carrier)
      → Agrees source jobs v
      → Follows t jobs v (Coordinator.update F t x jobs)
  update-Follows t x jobs v h = elim (Option-cases (find t jobs)) [
    | inl e ↦
        subst (Follows t jobs v) (sym (Coordinator.update-none F t x jobs e))
          (refused-Follows t jobs v _ h)
    | inr (job, e) ↦ elim (Bool-cases (in_range F job.progress x)) [
      | inr f ↦
          subst (Follows t jobs v) (sym (Coordinator.update-refused F t x jobs job e f))
            (refused-Follows t jobs v _ h)
      | inl f ↦
          subst (Follows t jobs v) (sym (Coordinator.update-some F t x jobs job e f))
            (taken job e f)
    ]
  ]
    where
      taken :
          (job : Job F.Carrier)
          → find t jobs ≡ some job
          → in_range F job.progress x ≡ true
          → Follows t jobs v (ok (put t (record job { progress = x }) jobs, updated x))
      taken job e f = elim (Bool-cases (same_raw t source)) [
        | inr off ↦ other-Follows t jobs _ v (updated x) off (find-put_other t source _ jobs off) h
        | inl on ↦
            let same = same_raw_eq t source on in
            subst (λ z. Follows z jobs v (ok (put z (record job { progress = x }) jobs, updated x)))
              (sym same)
              (own_update-Follows x jobs v job h (ap (λ z. find z jobs) (sym same) ∙ e) f)
      ]

  event-Follows :
      (event : PendingAnalysisProgress F.Carrier) (jobs : Jobs F.Carrier) (v : View F.Carrier)
      → Agrees source jobs v
      → Follows (Emitter.event_source event) jobs v (apply_event F event jobs)
  unfolding apply_event
  event-Follows (pending_updated t x) jobs v h = update-Follows t x jobs v h
  event-Follows (pending_completed t) jobs v h = complete-Follows t jobs v h

  -- The events of the queue, in their order.
  pub deliver-follow :
      (events : List (PendingAnalysisProgress F.Carrier)) (jobs : Jobs F.Carrier)
      (v : View F.Carrier)
      → Agrees source jobs v
      → (v' : View F.Carrier) × (follow F source r
            (notices (deliver F hosts events jobs).1)
            (some v)
          ≡ some v')
        × Agrees source (deliver F hosts events jobs).0 v'
  unfolding deliver Follows
  deliver-follow [] jobs v h = (v, refl, h)
  deliver-follow (event ∷ events) jobs v h =
      let (v1, h1, heard) = event-Follows event jobs v h in
      let (v2, rest, h2) =
        deliver-follow events (jobs_after jobs (apply_event F event jobs)) v1 h1 in
      (v2, heard _ ∙ rest, h2)

  -- The starts, of which the source's is heard.
  pub announce-none :
      (starts : List RawHandle) (v : View F.Carrier)
      → count source starts ≡ 0
      → follow F source r (notices (announce hosts starts)) (some v) ≡ some v
  unfolding announce
  announce-none [] v e = refl
  announce-none (t ∷ starts) v e = elim (Bool-cases (same_raw t source)) [
    | inl on ↦
        let n : count source starts + 1 ≡ 0 =
          sym (ap (λ b. if b then count source starts + 1 else count source starts) on) ∙ e in
        absurd (omega arith)
    | inr off ↦
        hears_no_other t started (announce hosts starts) v off
        ∙ announce-none starts v
            (sym (ap (λ b. if b then count source starts + 1 else count source starts) off) ∙ e)
  ]

  pub announce-one :
      (starts : List RawHandle)
      → count source starts ≡ 1
      → follow F source r (notices (announce hosts starts)) (some quiet) ≡ some (running F.zero)
  unfolding announce
  announce-one [] e = absurd (omega arith)
  announce-one (t ∷ starts) e = elim (Bool-cases (same_raw t source)) [
    | inl on ↦
        let n : count source starts + 1 ≡ 1 =
          sym (ap (λ b. if b then count source starts + 1 else count source starts) on) ∙ e in
        ap
          (λ z.
            follow F source r (notices (notice_for hosts z started (announce hosts starts)))
              (some quiet))
          (same_raw_eq t source on)
        ∙ hears_own started (announce hosts starts) quiet
        ∙ announce-none starts (running F.zero) (omega arith)
    | inr off ↦
        hears_no_other t started (announce hosts starts) quiet off
        ∙ announce-one starts
            (sym (ap (λ b. if b then count source starts + 1 else count source starts) off) ∙ e)
  ]
