-- ===== src/Archive/Memory.antt =====
-- Random access to archives in memory (ara2-bridge-core/src/archive/io.rs). Bytes are numbers, and
-- `usize_max` is the target's `usize::MAX`.
pub mod Slices
pub mod RoundTrip
use ara2_bridge.Base.{
  ℕ, zero, suc, String, Bool, not, ◌||◌, Option, none, List, [], ◌∷◌, ◌++◌, length, ltb, leb,
  if◌then◌else◌, ◌+◌, ◌-◌, ◌^◌,
}
use ara2_bridge.Base.Bytes.{u64_max, take, drop, copy_at, grow}
use ara2_bridge.Errors.{
  Result, ok, err, guard, ◌>>=◌, ◌>>◌, AraError, archive, archive_too_large_for_target,
  range_overflow, out_of_bounds,
}

pub record MemoryArchive : Type 0 where
  pub bytes : List ℕ
  pub archive_id : Option String

-- `From<Vec<u8>>`.
unfoldable pub from_bytes : List ℕ → MemoryArchive
from_bytes bytes = record { bytes = bytes; archive_id = none }

-- The start and the end of a range that the target can address.
unfoldable pub checked_range : ℕ → ℕ → ℕ → Result AraError (ℕ × ℕ)
checked_range usize_max position size = do
  guard (leb size u64_max) archive_too_large_for_target
  guard (leb (position + size) u64_max) (archive range_overflow)
  guard (not (ltb usize_max position || ltb usize_max (position + size)))
      archive_too_large_for_target
  ok (position, position + size)

-- The length as a `u64`.
unfoldable pub archive_length : MemoryArchive → Result AraError ℕ
archive_length m = do
  guard (leb (length m.bytes) u64_max) archive_too_large_for_target
  ok (length m.bytes)

-- `size` is the length of the output slice.
unfoldable pub read_at : ℕ → ℕ → ℕ → MemoryArchive → Result AraError (List ℕ)
unfolding checked_range
read_at usize_max position size m = do
  (start, end) ← checked_range usize_max position size
  guard (leb end (length m.bytes)) (archive out_of_bounds)
  ok (take (end - start) (drop start m.bytes))

unfoldable pub write_at : ℕ → ℕ → List ℕ → MemoryArchive → Result AraError MemoryArchive
unfolding checked_range grow copy_at
write_at usize_max position content m = do
  (start, end) ← checked_range usize_max position (length content)
  ok (record m { bytes = copy_at start content (grow end m.bytes) })
