-- ===== src/Registry.antt =====
-- ara2-bridge-core/src/registry.rs and handles.rs: the bounded append-only registry of cells, its
-- typed handles and the stable addresses of its cells.
pub mod Laws
pub mod Lookup
pub mod Stability
pub mod Opaque
pub mod Refs
pub mod Links
pub mod Transactions
pub mod Addresses
pub mod Raw
pub mod Enumeration
use ara2_bridge.Base.{
  ℕ, zero, suc, ◌+◌, ◌-◌, ◌%◌, ◌^◌, Bool, true, false, not, Option, none, some, List, [], ◌∷◌, ◌++◌,
  leb, ◌==◌, if◌then◌else◌, length, get_elem?, set,
}
use ara2_bridge.Errors.{
  Result, ok, err, ◌>>=◌, ◌>>◌, guard, ok_or, AraError, invalid_argument, invalid_state,
}

-- The marker types of the five model objects; `TypeId::of` tells them apart.
pub data Kind : Type 0 where
  musical_context_kind region_sequence_kind audio_source_kind : Kind
  audio_modification_kind playback_region_kind : Kind

abbrev kind_index : Kind → ℕ
kind_index musical_context_kind = 0
kind_index region_sequence_kind = 1
kind_index audio_source_kind = 2
kind_index audio_modification_kind = 3
kind_index playback_region_kind = 4

-- `NonZeroU32` and `NonZeroU64`: the value is the successor of the field.
pub record NonZero : Type 0 where
  pub before : ℕ

abbrev pub value : NonZero → ℕ
value n = suc n.before

abbrev pub new_nonzero : ℕ → Option NonZero
new_nonzero zero = none
new_nonzero (suc n) = some (record { before = n })

abbrev pub u32_max : ℕ
u32_max = 2 ^ 32 - 1

abbrev u32_try_from : ℕ → Option ℕ
u32_try_from n = if leb n u32_max then some n else none

-- The counter of sessions wraps, and a zero is skipped.
unfoldable pub next_session : ℕ → NonZero × ℕ
next_session zero = (record { before = 0 }, 2)
next_session (suc n) = (record { before = n }, (suc n + 1) % 2 ^ 64)

pub record Handle (K : Kind) : Type 0 where
  pub index : NonZero
  pub session : NonZero

pub record RawHandle : Type 0 where
  pub raw_index : NonZero
  pub raw_session : NonZero
  pub kind : Kind

-- `==` of handles, raw handles and model references.
abbrev pub same_handle : {K : Kind} → Handle K → Handle K → Bool
same_handle h k =
    if value h.index == value k.index then value h.session == value k.session else false

abbrev pub same_raw : RawHandle → RawHandle → Bool
same_raw h k =
    if value h.raw_index == value k.raw_index
    then (if value h.raw_session == value k.raw_session
        then kind_index h.kind == kind_index k.kind
        else false)
    else false

unfoldable pub into_raw : {K : Kind} → Handle K → RawHandle
into_raw {K} h = record { raw_index = h.index; raw_session = h.session; kind = K }

unfoldable pub try_from_raw : (K : Kind) → RawHandle → Result AraError (Handle K)
try_from_raw K raw =
    if kind_index raw.kind == kind_index K
    then ok (record { index = raw.raw_index; session = raw.raw_session })
    else err (invalid_argument "wrong handle kind")

-- A typed stable address.
pub record ModelRef (K : Kind) : Type 0 where
  pub pointer : ℕ

-- `ModelRef::from_raw`: a foreign address that is not null.
unfoldable pub from_raw : {K : Kind} → ℕ → Result AraError (ModelRef K)
from_raw p = do
  guard (not (p == 0)) (invalid_argument "null model reference")
  ok (record { pointer = p })

-- The address is the one that `Box::new` gave the cell.
pub record RegistryCell (T : Type 0) : Type 0 where
  pub address : ℕ
  pub content : Option T

pub record Registry (K : Kind) (T : Type 0) : Type 0 where
  pub session : NonZero
  pub capacity : ℕ
  pub cells : List (RegistryCell T)

abbrev pub default_capacity : ℕ
default_capacity = 1048576

unfoldable pub in_session : (K : Kind) (T : Type 0) → NonZero → ℕ → Registry K T
in_session K T session capacity = record {
  session = session;
  capacity = if leb capacity u32_max then capacity else u32_max;
  cells = [];
}

pub live_values : {T : Type 0} → List (RegistryCell T) → List T
live_values [] = []
live_values (c ∷ cs) = elim c.content [ none ↦ live_values cs | some v ↦ v ∷ live_values cs ]

module _ {K : Kind} {T : Type 0} where
  unfoldable pub cell_count : Registry K T → ℕ
  cell_count r = length r.cells

  -- Live values in insertion order.
  unfoldable pub values : Registry K T → List T
  unfolding live_values
  values r = live_values r.cells

  live_handles : NonZero → ℕ → List (RegistryCell T) → List (Handle K)
  live_handles session offset [] = []
  live_handles session offset (c ∷ cs) =
      let rest : List (Handle K) = live_handles session (offset + 1) cs in
      elim c.content [
        | none ↦ rest
        | some v ↦ elim (u32_try_from (offset + 1)) [
          | none ↦ rest
          | some i ↦ elim (new_nonzero i) [
            | none ↦ rest
            | some index ↦ record { index = index; session = session } ∷ rest
          ]
        ]
      ]

  -- Handles of the live cells in insertion order.
  unfoldable pub handles : Registry K T → List (Handle K)
  unfolding live_handles
  handles r = live_handles r.session 0 r.cells

  -- `address` is the address of the boxed cell.
  unfoldable pub insert : ℕ → T → Registry K T → Result AraError (Handle K × Registry K T)
  insert address v r = do
    guard (not (leb r.capacity (length r.cells))) (invalid_state "registry capacity exhausted")
    i ← ok_or (u32_try_from (length r.cells + 1)) (invalid_state "registry capacity exhausted")
    index ← ok_or (new_nonzero i) (invalid_state "registry capacity exhausted")
    ok (
      record { index = index; session = r.session },
      record r { cells = r.cells ++ record { address = address; content = some v } ∷ [] },
    )

  unfoldable pub checked_cell : Handle K → Registry K T → Result AraError (RegistryCell T)
  checked_cell h r = do
    guard (value h.session == value r.session) (invalid_argument "foreign handle")
    ok_or (get_elem? r.cells (value h.index - 1)) (invalid_argument "foreign handle")

  unfoldable pub get : Handle K → Registry K T → Result AraError T
  unfolding checked_cell
  get h r = do cell ← checked_cell h r; ok_or cell.content (invalid_argument "stale handle")

  abbrev put_content : Handle K → Option T → Registry K T → RegistryCell T → Registry K T
  put_content h v r cell = record r {
    cells = set r.cells (value h.index - 1) (record cell { content = v });
  }

  -- A write through `get_mut`.
  unfoldable pub modify : Handle K → (T → T) → Registry K T → Result AraError (Registry K T)
  unfolding checked_cell
  modify h f r = do
    cell ← checked_cell h r
    v ← ok_or cell.content (invalid_argument "stale handle")
    ok (put_content h (some (f v)) r cell)

  unfoldable pub remove : Handle K → Registry K T → Result AraError (T × Registry K T)
  unfolding checked_cell
  remove h r = do
    cell ← checked_cell h r
    v ← ok_or cell.content (invalid_argument "stale handle")
    ok (v, put_content h none r cell)

  unfoldable pub opaque_pointer : Handle K → Registry K T → Result AraError ℕ
  unfolding checked_cell
  opaque_pointer h r = do
    cell ← checked_cell h r
    ok_or cell.content (invalid_argument "stale handle")
    ok cell.address

  unfoldable pub model_ref : Handle K → Registry K T → Result AraError (ModelRef K)
  unfolding opaque_pointer
  model_ref h r = do p ← opaque_pointer h r; ok (record { pointer = p })

  find_address : NonZero → ℕ → ℕ → List (RegistryCell T) → Result AraError (Handle K)
  find_address session pointer offset [] = err (invalid_argument "foreign handle pointer")
  find_address session pointer offset (c ∷ cs) = elim (c.address == pointer) [
    | true ↦ do
      ok_or c.content (invalid_argument "stale handle")
      i ← ok_or (u32_try_from (offset + 1)) (invalid_argument "foreign handle pointer")
      index ← ok_or (new_nonzero i) (invalid_argument "foreign handle pointer")
      ok (record { index = index; session = session })
    | false ↦ find_address session pointer (offset + 1) cs
  ]

  unfoldable pub handle_from_opaque : ℕ → Registry K T → Result AraError (Handle K)
  unfolding find_address
  handle_from_opaque pointer r = do
    guard (not (pointer == 0)) (invalid_argument "foreign handle pointer")
    find_address r.session pointer 0 r.cells
