-- ===== src/Examples.antt =====
-- Runs of the model at concrete inputs: registries here, documents, runtimes and archives in the
-- children.
pub mod AudioFiles
pub mod Documents
pub mod Selections
pub mod Events
pub mod Plugins
pub mod Runtimes
use ara2_bridge.Base.{
  ℕ, zero, suc, Bool, true, false, Option, some, none, List, [], ◌∷◌, ◌++◌, ◌≡◌, ◌≢◌, ◌↔◌, ◌⊎◌,
  refl, inl, inr, length, ◌+◌, ◌≤◌, ◌<◌, arith,
}
use ara2_bridge.Errors.{Result, ok, err, is_ok, AraError, invalid_argument, poisoned}
use ara2_bridge.Registry.{
  Kind, Handle, NonZero, Registry, RawHandle, in_session, insert, get, modify, remove,
  opaque_pointer, handle_from_opaque, into_raw, try_from_raw, handles, audio_source_kind,
  musical_context_kind, region_sequence_kind, default_capacity,
}
use ara2_bridge.Registry.Opaque.{
  IsValid, handle_from_opaque-opaque_pointer, handle_from_opaque-ok_inv,
}
use ara2_bridge.Registry.Addresses.{in_session-IsValid, insert-IsValid}
use ara2_bridge.Registry.Stability.{Reach, Step, removed_stays_stale}
use mathlib.Core.List.{Memᴰ}
use ara2_bridge.Registry.Enumeration.{handles-live}
use ara2_bridge.Registry.Raw.{try_from_raw-into_raw}

abbrev session_one : NonZero
session_one = record { before = 0 }

-- A registry of numbers, empty, with one value, and after that value's removal.
abbrev empty_registry : Registry audio_source_kind ℕ
empty_registry = record { session = session_one; capacity = 4; cells = [] }

abbrev first_handle : Handle audio_source_kind
first_handle = record { index = record { before = 0 }; session = session_one }

abbrev second_handle : Handle audio_source_kind
second_handle = record { index = record { before = 1 }; session = session_one }

abbrev one_value : Registry audio_source_kind ℕ
one_value = record empty_registry { cells = record { address = 80; content = some 7 } ∷ [] }

abbrev no_value : Registry audio_source_kind ℕ
no_value = record empty_registry { cells = record { address = 80; content = none } ∷ [] }

abbrev other_value : Registry audio_source_kind ℕ
other_value = record empty_registry {
  cells = record { address = 80; content = none } ∷ record { address = 96; content = some 9 } ∷ [];
}

first_insert : insert 80 7 empty_registry ≡ ok (first_handle, one_value)
unfolding insert
first_insert = refl

first_remove : remove first_handle one_value ≡ ok (7, no_value)
unfolding remove
first_remove = refl

second_insert : insert 96 9 no_value ≡ ok (second_handle, other_value)
unfolding insert
second_insert = refl

first_pointer : opaque_pointer first_handle one_value ≡ ok 80
unfolding opaque_pointer
first_pointer = refl

first_found : handle_from_opaque 80 one_value ≡ ok first_handle
unfolding handle_from_opaque
first_found = refl

empty_registry-IsValid : IsValid empty_registry
empty_registry-IsValid = record { distinct = tt; sized = omega arith; indexed = omega arith }

one_value-IsValid : IsValid one_value
one_value-IsValid =
    insert-IsValid 80 7 empty_registry first_insert (omega arith) tt empty_registry-IsValid

removed_stays_stale_example : get first_handle other_value ≡ err (invalid_argument "stale handle")
removed_stays_stale_example =
    removed_stays_stale first_handle 7 one_value no_value other_value first_remove
      (Reach.next Reach.here (Step.inserted 96 9 second_handle second_insert))

handle_from_opaque-opaque_pointer_example : handle_from_opaque 80 one_value ≡ ok first_handle
handle_from_opaque-opaque_pointer_example =
    handle_from_opaque-opaque_pointer first_handle one_value one_value-IsValid first_pointer

handle_from_opaque-ok_inv_example :
    ((v : ℕ) × (get first_handle one_value ≡ ok v))
    × (opaque_pointer first_handle one_value ≡ ok 80)
handle_from_opaque-ok_inv_example = handle_from_opaque-ok_inv 80 one_value first_found

insert-IsValid_example : IsValid one_value
insert-IsValid_example =
    insert-IsValid 80 7 empty_registry first_insert (omega arith) tt empty_registry-IsValid

try_from_raw-into_raw_example :
    (try_from_raw audio_source_kind (into_raw first_handle) ≡ ok first_handle)
    ↔ (into_raw first_handle ≡ into_raw first_handle)
try_from_raw-into_raw_example =
    try_from_raw-into_raw audio_source_kind (into_raw first_handle) first_handle

handles-live_example :
    Memᴰ first_handle (handles one_value) ↔ ((v : ℕ) × (get first_handle one_value ≡ ok v))
handles-live_example = handles-live one_value first_handle one_value-IsValid
