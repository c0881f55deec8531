-- ===== src/Plugin/Analysis.antt =====
-- Analysis jobs of ara2-bridge-plugin/src/analysis.rs and the callbacks of
-- ara2-bridge-plugin/src/controller.rs that drive them. A fraction is a number of 32 bits in
-- floating point, whose tests are a parameter.
pub mod Emitter
pub mod Coordinator
pub mod Callbacks
pub mod Protocol
use ara2_bridge.Base.{
  ℕ, Bool, true, false, not, ◌&&◌, ◌||◌, Option, some, none, List, [], ◌∷◌, ◌++◌, length, any, leb,
  ltb, if◌then◌else◌, ◌==◌,
}
use ara2_bridge.Errors.{
  Result, ok, err, is_ok, guard, AraError, invalid_argument, invalid_state, ◌>>=◌, ◌>>◌,
}
use ara2_bridge.Registry.{RawHandle, same_raw}
use ara2_bridge.Plugin.Keys.{find, put, erase, without}

-- What the code uses of `f32`.
pub record Fractions : Type 1 where
  pub Carrier : Type 0
  pub zero : Carrier
  pub one : Carrier
  pub is_finite : Carrier → Bool
  pub le : Carrier → Carrier → Bool
  pub lt : Carrier → Carrier → Bool

-- `(low..1.0).contains(&progress)` of a finite number.
abbrev pub in_range : (F : Fractions) → F.Carrier → F.Carrier → Bool
in_range F low progress = F.is_finite progress && (F.le low progress && F.lt progress F.one)

pub data PendingAnalysisProgress (A : Type 0) : Type 0 where
  pending_updated : RawHandle → A → PendingAnalysisProgress A
  pending_completed : RawHandle → PendingAnalysisProgress A

pub data AnalysisProgress (A : Type 0) : Type 0 where
  started completed cancelled : AnalysisProgress A
  updated : A → AnalysisProgress A

pub record Job (A : Type 0) : Type 0 where
  pub content_types : List ℕ
  pub progress : A

abbrev pub Jobs : Type 0 → Type 0
Jobs A = List (RawHandle × Job A)

-- Content types are the bit patterns of `i32`.
abbrev pub is_member : ℕ → List ℕ → Bool
is_member x xs = any (λ y. y == x) xs

-- The elements as a set: each once.
unfoldable pub to_set : List ℕ → List ℕ
to_set [] = []
to_set (x ∷ xs) = let rest = to_set xs in if is_member x rest then rest else x ∷ rest

abbrev pub not_active : AraError
not_active = invalid_state "audio source analysis is not active"
