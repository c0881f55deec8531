-- ===== src/Diagnostics.antt =====
-- Structured diagnostics and their bounded sink (ara2-bridge-core/src/diagnostics.rs), and the
-- poison state that keeps the first one (ara2-bridge-core/src/poison.rs).
pub mod Bounds
use ara2_bridge.Base.{
  ℕ, String, Bool, true, false, not, Option, none, some, List, [], ◌∷◌, ◌++◌, ◌==◌, if◌then◌else◌,
  length,
}
use ara2_bridge.Errors.{Result, ok, err, guard, ◌>>=◌, ◌>>◌, AraError, invalid_argument}

pub record Diagnostic : Type 0 where
  pub error : AraError
  pub message : String
  pub interface : Option String
  pub method : Option String
  pub document : Option ℕ
  pub instance_id : Option ℕ

-- `display` is the text that the error derives.
unfoldable pub new_diagnostic : (AraError → String) → AraError → Diagnostic
new_diagnostic display error = record {
  error = error;
  message = display error;
  interface = none;
  method = none;
  document = none;
  instance_id = none;
}

unfoldable pub at : String → String → Diagnostic → Diagnostic
at interface method d = record d { interface = some interface; method = some method }

pub record BoundedDiagnosticSink : Type 0 where
  pub capacity : ℕ
  pub entries : List Diagnostic

abbrev pub default_sink_capacity : ℕ
default_sink_capacity = 256

unfoldable pub new_sink : ℕ → Result AraError BoundedDiagnosticSink
new_sink capacity = do
  guard (not (capacity == 0)) (invalid_argument "diagnostic capacity must be nonzero")
  ok (record { capacity = capacity; entries = [] })

unfoldable pub snapshot : BoundedDiagnosticSink → List Diagnostic
snapshot s = s.entries

unfoldable pub clear : BoundedDiagnosticSink → BoundedDiagnosticSink
clear s = record s { entries = [] }

-- `VecDeque::pop_front`.
abbrev pub pop_front {ℓ} : {A : Type ℓ} → List A → List A
pop_front [] = []
pop_front (x ∷ xs) = xs

unfoldable pub record_entry : BoundedDiagnosticSink → Diagnostic → BoundedDiagnosticSink
record_entry s d =
    let entries : List Diagnostic =
      if length s.entries == s.capacity then pop_front s.entries else s.entries in
    record s { entries = entries ++ d ∷ [] }

-- A sequence of records.
unfoldable pub record_all : BoundedDiagnosticSink → List Diagnostic → BoundedDiagnosticSink
unfolding record_entry
record_all s [] = s
record_all s (d ∷ ds) = record_all (record_entry s d) ds

pub record PoisonState : Type 0 where
  pub poisoned : Bool
  pub diagnostic : Option Diagnostic

abbrev pub healthy : PoisonState
healthy = record { poisoned = false; diagnostic = none }

-- The swap of the flag lets only the first cause be stored.
unfoldable pub poison : Diagnostic → PoisonState → PoisonState
poison d p = record p { poisoned = true; diagnostic = if p.poisoned then p.diagnostic else some d }

unfoldable pub poison_all : List Diagnostic → PoisonState → PoisonState
unfolding poison
poison_all [] p = p
poison_all (d ∷ ds) p = poison_all ds (poison d p)
