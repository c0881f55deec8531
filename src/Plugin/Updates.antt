-- ===== src/Plugin/Updates.antt =====
-- `UpdateTracker` of ara2-bridge-plugin/src/updates.rs, which its emitter shares under a lock, and
-- the time ranges of ara2-bridge-core/src/properties/selection.rs. The arithmetic of `f64` is a
-- parameter.
pub mod Merging
pub mod Summary
pub mod Flushing
use ara2_bridge.Base.{
  ℕ, Bool, true, false, not, ◌&&◌, ◌||◌, Option, some, none, List, [], ◌∷◌, length, if◌then◌else◌,
  ◌+◌,
}
use ara2_bridge.Errors.{Result, ok, err, guard, map_ok, AraError, invalid_argument, ◌>>=◌, ◌>>◌}
use ara2_bridge.Registry.{RawHandle, same_raw}
use Prim.Native.Nat.{bit_and}

-- What the code uses of `f64`.
pub record Times : Type 1 where
  pub Carrier : Type 0
  pub add : Carrier → Carrier → Carrier
  pub sub : Carrier → Carrier → Carrier
  pub min : Carrier → Carrier → Carrier
  pub max : Carrier → Carrier → Carrier
  pub is_finite : Carrier → Bool
  pub is_negative : Carrier → Bool

pub record ContentTimeRange (A : Type 0) : Type 0 where
  pub start : A
  pub duration : A

-- `ContentTimeRange::new`.
unfoldable pub new_range :
    (T : Times) → T.Carrier → T.Carrier → Result AraError (ContentTimeRange T.Carrier)
new_range T start duration = do
  guard (T.is_finite start && (T.is_finite duration && not (T.is_negative duration)))
      (invalid_argument "time range must be finite with nonnegative duration")
  ok (record { start = start; duration = duration })

pub data UpdateOrigin : Type 0 where
  application host restore recovery : UpdateOrigin

unfoldable pub should_notify : UpdateOrigin → Bool
should_notify application = true
should_notify host = false
should_notify restore = false
should_notify recovery = true

-- The flags are the bits of scopes that remain unchanged.
pub record PendingContent (A : Type 0) : Type 0 where
  pub range : Option (ContentTimeRange A)
  pub flags : ℕ

abbrev pub Pending : Type 0 → Type 0
Pending A = List (RawHandle × PendingContent A)

pub data UpdateNotification (A : Type 0) : Type 0 where
  audio_source audio_modification playback_region :
      RawHandle → PendingContent A → UpdateNotification A
  document_data : UpdateNotification A

pub record UpdateTracker (A : Type 0) : Type 0 where
  pub sources : Pending A
  pub modifications : Pending A
  pub regions : Pending A
  pub document : Bool

abbrev pub new_tracker : {A : Type 0} → UpdateTracker A
new_tracker = record { sources = []; modifications = []; regions = []; document = false }

-- The range of two changes: from the earlier start to the later end, or the whole object.
unfoldable pub join_ranges :
    (T : Times)
    → Option (ContentTimeRange T.Carrier)
    → Option (ContentTimeRange T.Carrier)
    → Result AraError (Option (ContentTimeRange T.Carrier))
join_ranges T (some existing) (some incoming) = do
  let start = T.min existing.start incoming.start
  let end = T.max (T.add existing.start existing.duration) (T.add incoming.start incoming.duration)
  range ← new_range T start (T.sub end start)
  ok (some range)
join_ranges T none incoming = ok none
join_ranges T (some existing) none = ok none

unfoldable pub coalesce :
    (T : Times)
    → PendingContent T.Carrier
    → PendingContent T.Carrier
    → Result AraError (PendingContent T.Carrier)
coalesce T existing incoming = do
  range ← join_ranges T existing.range incoming.range
  ok (record { range = range; flags = bit_and existing.flags incoming.flags })

-- `merge`: into the first entry of the object, or at the end.
unfoldable pub merge :
    (T : Times)
    → RawHandle
    → PendingContent T.Carrier
    → Pending T.Carrier
    → Result AraError (Pending T.Carrier)
merge T object incoming [] = ok ((object, incoming) ∷ [])
merge T object incoming ((handle, existing) ∷ pending) =
    let rest = merge T object incoming pending in
    if same_raw handle object
    then map_ok (λ (x : PendingContent T.Carrier). (handle, x) ∷ pending)
        (coalesce T existing incoming)
    else map_ok (λ (ps : Pending T.Carrier). (handle, existing) ∷ ps) rest

-- The early return of the marks: an origin that is known to the host adds nothing.
unfoldable pub mark :
    (T : Times)
    → RawHandle
    → PendingContent T.Carrier
    → UpdateOrigin
    → Pending T.Carrier
    → Result AraError (Pending T.Carrier)
unfolding should_notify merge coalesce join_ranges new_range
mark T object incoming origin pending =
    if should_notify origin then merge T object incoming pending else ok pending

module _ (T : Times) (object : RawHandle) (incoming : PendingContent T.Carrier)
    (origin : UpdateOrigin) (t : UpdateTracker T.Carrier) where
  unfoldable pub mark_source : Result AraError (UpdateTracker T.Carrier)
  mark_source =
      map_ok (λ (ps : Pending T.Carrier). record t { sources = ps })
        (mark T object incoming origin t.sources)

  unfoldable pub mark_modification : Result AraError (UpdateTracker T.Carrier)
  mark_modification =
      map_ok (λ (ps : Pending T.Carrier). record t { modifications = ps })
        (mark T object incoming origin t.modifications)

  unfoldable pub mark_region : Result AraError (UpdateTracker T.Carrier)
  mark_region =
      map_ok (λ (ps : Pending T.Carrier). record t { regions = ps })
        (mark T object incoming origin t.regions)

unfoldable pub mark_document : {A : Type 0} → UpdateOrigin → UpdateTracker A → UpdateTracker A
mark_document origin t = record t { document = t.document || should_notify origin }

abbrev pub flag_count : Bool → ℕ
flag_count true = 1
flag_count false = 0

unfoldable pub pending_count : {A : Type 0} → UpdateTracker A → ℕ
pending_count t =
    length t.sources + length t.modifications + length t.regions + flag_count t.document

-- A delivery: the caller's state `S` and the tracker, to which it may add.
abbrev pub Deliver : Type 0 → Type 0 → Type 0
Deliver A S = UpdateNotification A → S → UpdateTracker A → S × UpdateTracker A

unfoldable pub deliver_each :
    {A S : Type 0}
    → Deliver A S
    → (RawHandle → PendingContent A → UpdateNotification A)
    → Pending A
    → S
    → UpdateTracker A
    → S × UpdateTracker A
deliver_each deliver category [] s t = (s, t)
deliver_each deliver category ((object, content) ∷ pending) s t =
    let (s', t') = deliver (category object content) s t in
    deliver_each deliver category pending s' t'

-- `flush_with`: the batch is taken first, then delivered.
unfoldable pub flush_with : {A S : Type 0} → Deliver A S → S → UpdateTracker A → S × UpdateTracker A
unfolding deliver_each
flush_with deliver s t =
    let (s1, t1) = deliver_each deliver audio_source t.sources s new_tracker in
    let (s2, t2) = deliver_each deliver audio_modification t.modifications s1 t1 in
    let (s3, t3) = deliver_each deliver playback_region t.regions s2 t2 in
    if t.document then deliver document_data s3 t3 else (s3, t3)
