-- ===== src/Plugin/Updates/Flushing.antt =====
-- What `flush_with` delivers.
use ara2_bridge.Base.{
  suc, Bool, true, false, List, [], ◌∷◌, ◌++◌, length, if◌then◌else◌, ◌≡◌, refl, sym, ◌∙◌, ap,
  arith, length-append,
}
use ara2_bridge.Registry.{RawHandle}
use ara2_bridge.Plugin.Updates.{
  PendingContent, Pending, UpdateNotification, audio_source, audio_modification, playback_region,
  document_data, UpdateTracker, new_tracker, pending_count, flag_count, Deliver, deliver_each,
  flush_with,
}

-- The notifications of one category, and those of the whole tracker.
abbrev pub category_batch :
    {A : Type 0}
    → (RawHandle → PendingContent A → UpdateNotification A)
    → Pending A
    → List (UpdateNotification A)
category_batch category [] = []
category_batch category ((object, content) ∷ pending) =
    category object content ∷ category_batch category pending

abbrev pub batch : {A : Type 0} → UpdateTracker A → List (UpdateNotification A)
batch t =
    category_batch audio_source t.sources
    ++ (category_batch audio_modification t.modifications
        ++ (category_batch playback_region t.regions
            ++ (if t.document then document_data ∷ [] else [])))

-- The deliveries of a list, one after the other.
abbrev pub run :
    {A S : Type 0}
    → Deliver A S
    → List (UpdateNotification A)
    → S × UpdateTracker A
    → S × UpdateTracker A
run deliver [] x = x
run deliver (n ∷ ns) (s, t) = run deliver ns (deliver n s t)

module _ {A S : Type 0} (deliver : Deliver A S) where
  run-append :
      (xs ys : List (UpdateNotification A)) (x : S × UpdateTracker A)
      → run deliver (xs ++ ys) x ≡ run deliver ys (run deliver xs x)
  run-append [] ys x = refl
  run-append (n ∷ xs) ys (s, t) = run-append xs ys (deliver n s t)

  deliver_each-run :
      (category : RawHandle → PendingContent A → UpdateNotification A) (pending : Pending A) (s : S)
      (t : UpdateTracker A)
      → deliver_each deliver category pending s t
        ≡ run deliver (category_batch category pending) (s, t)
  unfolding deliver_each
  deliver_each-run category [] s t = refl
  deliver_each-run category ((object, content) ∷ pending) s t =
      deliver_each-run category pending (deliver (category object content) s t).0
        (deliver (category object content) s t).1

  -- One loop of the flush, and the document at its end.
  each :
      (RawHandle → PendingContent A → UpdateNotification A)
      → Pending A
      → S × UpdateTracker A
      → S × UpdateTracker A
  each category pending (s, t) = deliver_each deliver category pending s t

  each-run :
      (category : RawHandle → PendingContent A → UpdateNotification A) (pending : Pending A)
      (x : S × UpdateTracker A)
      → each category pending x ≡ run deliver (category_batch category pending) x
  unfolding each
  each-run category pending (s, t) = deliver_each-run category pending s t

  document_at_end : Bool → S × UpdateTracker A → S × UpdateTracker A
  document_at_end b (s, t) = if b then deliver document_data s t else (s, t)

  document_at_end-run :
      (b : Bool) (x : S × UpdateTracker A)
      → document_at_end b x ≡ run deliver (if b then document_data ∷ [] else []) x
  unfolding document_at_end
  document_at_end-run true (s, t) = refl
  document_at_end-run false (s, t) = refl

  run-batch :
      (t : UpdateTracker A) (x : S × UpdateTracker A)
      → document_at_end t.document (
          each playback_region t.regions
            (each audio_modification t.modifications (each audio_source t.sources x)))
        ≡ run deliver (batch t) x
  run-batch t x =
      let ss : List (UpdateNotification A) = category_batch audio_source t.sources in
      let ms : List (UpdateNotification A) = category_batch audio_modification t.modifications in
      let rs : List (UpdateNotification A) = category_batch playback_region t.regions in
      let ds : List (UpdateNotification A) = if t.document then document_data ∷ [] else [] in
      ap
        (λ y.
          document_at_end t.document
            (each playback_region t.regions (each audio_modification t.modifications y)))
        (each-run audio_source t.sources x)
      ∙ ap (λ y. document_at_end t.document (each playback_region t.regions y))
          (each-run audio_modification t.modifications (run deliver ss x))
      ∙ ap (document_at_end t.document)
          (each-run playback_region t.regions (run deliver ms (run deliver ss x)))
      ∙ document_at_end-run t.document (run deliver rs (run deliver ms (run deliver ss x)))
      ∙ sym (run-append rs ds (run deliver ms (run deliver ss x)))
      ∙ sym (run-append ms (rs ++ ds) (run deliver ss x))
      ∙ sym (run-append ss (ms ++ (rs ++ ds)) x)

length-category_batch :
    {A : Type 0} (category : RawHandle → PendingContent A → UpdateNotification A)
    (pending : Pending A)
    → length (category_batch category pending) ≡ length pending
length-category_batch category [] = refl
length-category_batch category (p ∷ pending) = ap suc (length-category_batch category pending)

length-flag :
    (A : Type 0) (b : Bool)
    → length {A = UpdateNotification A} (if b then document_data ∷ [] else []) ≡ flag_count b
length-flag A true = refl
length-flag A false = refl

length-batch : {A : Type 0} (t : UpdateTracker A) → length (batch t) ≡ pending_count t
unfolding pending_count
length-batch {A} t =
    let ms : List (UpdateNotification A) = category_batch audio_modification t.modifications in
    let rs : List (UpdateNotification A) = category_batch playback_region t.regions in
    let ds : List (UpdateNotification A) = if t.document then document_data ∷ [] else [] in
    let last : length ds ≡ flag_count t.document = length-flag A t.document in
    omega (
      arith,
      length-append (category_batch audio_source t.sources) (ms ++ (rs ++ ds)),
      length-append ms (rs ++ ds),
      length-append rs ds,
      length-category_batch audio_source t.sources,
      length-category_batch audio_modification t.modifications,
      length-category_batch playback_region t.regions,
    )

-- A flush is the delivery of the pending notifications, sources before modifications before regions
-- before the document, each once, with a tracker that starts empty, so that what a delivery adds
-- stays for later; their number is the pending count.
pub flush_with-batch :
    {A S : Type 0} (deliver : Deliver A S) (s : S) (t : UpdateTracker A)
    → (flush_with deliver s t ≡ run deliver (batch t) (s, new_tracker))
      × (length (batch t) ≡ pending_count t)
unfolding flush_with each document_at_end
flush_with-batch deliver s t = (run-batch deliver t (s, new_tracker), length-batch t)
