-- ===== src/Lifecycle.antt =====
-- The checked lifecycle of a document runtime (ara2-bridge-core/src/lifecycle.rs) and its
-- model-thread check (ara2-bridge-core/src/threading.rs). Threads are numbers, and every operation
-- takes the number of the thread that calls it. `usize_max` is the target's `usize::MAX`.
pub mod Balance
use ara2_bridge.Base.{
  ℕ, suc, Bool, true, false, not, ◌&&◌, ◌||◌, Option, ◌==◌, ltb, if◌then◌else◌, ◌-◌, ◌+◌,
}
use ara2_bridge.Errors.{
  Result, ok, err, guard, ◌>>=◌, ◌>>◌, AraError, invalid_state, invalid_thread, poisoned,
}
use ara2_bridge.Diagnostics.{PoisonState, Diagnostic, healthy}
use ara2_bridge.Diagnostics

pub data RestoreMode : Type 0 where
  no_restore ara1 ara2 : RestoreMode

pub data Phase : Type 0 where
  active tearing_down destroyed : Phase

-- The tests that the source derives for its enums.
abbrev pub is_restoring : RestoreMode → Bool
is_restoring no_restore = false
is_restoring ara1 = true
is_restoring ara2 = true

abbrev pub same_mode : RestoreMode → RestoreMode → Bool
same_mode no_restore no_restore = true
same_mode ara1 ara1 = true
same_mode ara2 ara2 = true
same_mode _ _ = false

abbrev pub is_active : Phase → Bool
is_active active = true
is_active tearing_down = false
is_active destroyed = false

abbrev pub is_tearing_down : Phase → Bool
is_tearing_down active = false
is_tearing_down tearing_down = true
is_tearing_down destroyed = false

pub record State : Type 0 where
  pub phase : Phase
  pub editing : Bool
  pub restore : RestoreMode
  pub sample_accesses : ℕ
  pub content_call : Bool
  pub render_activations : ℕ

abbrev pub default_state : State
default_state = record {
  phase = active;
  editing = false;
  restore = no_restore;
  sample_accesses = 0;
  content_call = false;
  render_activations = 0;
}

pub record Lifecycle : Type 0 where
  pub model_thread : ℕ
  pub state : State
  pub poison : PoisonState

unfoldable pub new_on_current_thread : ℕ → Lifecycle
new_on_current_thread caller = record {
  model_thread = caller;
  state = default_state;
  poison = healthy;
}

-- The guards: an interval that is to be balanced.
pub data Guard : Type 0 where
  edit sample_access content_call render_activation teardown : Guard
  restore : RestoreMode → Guard

unfoldable pub require_current : ℕ → Lifecycle → Result AraError (Unit {0})
require_current caller l =
    guard (caller == l.model_thread) (invalid_thread "operation requires the ARA model thread")

unfoldable pub require_usable : Lifecycle → Result AraError (Unit {0})
require_usable l = do
  guard (not l.poison.poisoned) poisoned
  guard (is_active l.state.phase) (invalid_state "runtime is tearing down")

unfoldable pub require_model_operation : ℕ → Lifecycle → Result AraError (Unit {0})
unfolding require_current require_usable
require_model_operation caller l = do require_current caller l; require_usable l

-- `checked_add(1)`.
unfoldable pub checked_increment : ℕ → ℕ → AraError → Result AraError ℕ
checked_increment usize_max n e = if ltb n usize_max then ok (n + 1) else err e

-- `checked_sub(1)`.
unfoldable pub checked_decrement : ℕ → AraError → Result AraError ℕ
checked_decrement n e = if n == 0 then err e else ok (n - 1)

-- A begin locks the state twice: for the check that the runtime is usable, and for its change, which
-- is its `enter` here. The begin itself is the two when no other thread comes between.
unfoldable pub enter_editing : Lifecycle → Result AraError (Guard × Lifecycle)
enter_editing l = do
  guard (not l.state.editing) (invalid_state "editing is already active")
  guard (not (is_restoring l.state.restore)) (invalid_state "restoration is active")
  ok (edit, record l { state = record l.state { editing = true } })

unfoldable pub begin_editing : ℕ → Lifecycle → Result AraError (Guard × Lifecycle)
unfolding require_model_operation enter_editing
begin_editing caller l = do require_model_operation caller l; enter_editing l

unfoldable pub enter_ara1_restore : Lifecycle → Result AraError (Guard × Lifecycle)
enter_ara1_restore l = do
  guard (not (l.state.editing || is_restoring l.state.restore))
      (invalid_state "editing or restoration is already active")
  ok (restore ara1, record l { state = record l.state { restore = ara1 } })

unfoldable pub begin_ara1_restore : ℕ → Lifecycle → Result AraError (Guard × Lifecycle)
unfolding require_model_operation enter_ara1_restore
begin_ara1_restore caller l = do require_model_operation caller l; enter_ara1_restore l

unfoldable pub enter_ara2_restore : Lifecycle → Result AraError (Guard × Lifecycle)
enter_ara2_restore l = do
  guard (not (l.state.editing || is_restoring l.state.restore))
      (invalid_state "editing or restoration is already active")
  ok (restore ara2, record l { state = record l.state { editing = true; restore = ara2 } })

unfoldable pub begin_ara2_restore : ℕ → Lifecycle → Result AraError (Guard × Lifecycle)
unfolding require_model_operation enter_ara2_restore
begin_ara2_restore caller l = do require_model_operation caller l; enter_ara2_restore l

unfoldable pub enter_sample_access : ℕ → Lifecycle → Result AraError (Guard × Lifecycle)
unfolding checked_increment
enter_sample_access usize_max l = do
  n ←
      checked_increment usize_max l.state.sample_accesses
        (invalid_state "sample-access count overflow")
  ok (sample_access, record l { state = record l.state { sample_accesses = n } })

unfoldable pub begin_sample_access : ℕ → ℕ → Lifecycle → Result AraError (Guard × Lifecycle)
unfolding require_model_operation enter_sample_access
begin_sample_access usize_max caller l = do
  require_model_operation caller l
  enter_sample_access usize_max l

unfoldable pub enter_content_call : Lifecycle → Result AraError (Guard × Lifecycle)
enter_content_call l = do
  guard (not l.state.content_call) (invalid_state "content call is already active")
  ok (content_call, record l { state = record l.state { content_call = true } })

unfoldable pub begin_content_call : ℕ → Lifecycle → Result AraError (Guard × Lifecycle)
unfolding require_model_operation enter_content_call
begin_content_call caller l = do require_model_operation caller l; enter_content_call l

unfoldable pub enter_render_activation : ℕ → Lifecycle → Result AraError (Guard × Lifecycle)
unfolding checked_increment
enter_render_activation usize_max l = do
  n ←
      checked_increment usize_max l.state.render_activations
        (invalid_state "render activation count overflow")
  ok (render_activation, record l { state = record l.state { render_activations = n } })

-- Activation is allowed on every thread.
unfoldable pub begin_render_activation : ℕ → Lifecycle → Result AraError (Guard × Lifecycle)
unfolding require_usable enter_render_activation
begin_render_activation usize_max l = do require_usable l; enter_render_activation usize_max l

-- Teardown is legal also after poisoning.
unfoldable pub begin_teardown : ℕ → Lifecycle → Result AraError (Guard × Lifecycle)
unfolding require_current
begin_teardown caller l = do
  require_current caller l
  guard (is_active l.state.phase) (invalid_state "teardown is already active")
  guard
      (not (
        l.state.editing
        || (is_restoring l.state.restore
            || (not (l.state.sample_accesses == 0)
                || (l.state.content_call || not (l.state.render_activations == 0))))))
      (invalid_state "cannot teardown while scoped activity is active")
  ok (teardown, record l { state = record l.state { phase = tearing_down } })

unfoldable pub poison_runtime : Diagnostic → Lifecycle → Lifecycle
poison_runtime d l = record l { poison = Diagnostics.poison d l.poison }

unfoldable pub finish_edit : ℕ → Lifecycle → Result AraError Lifecycle
unfolding require_current
finish_edit caller l = do
  require_current caller l
  guard (not (not l.state.editing || is_restoring l.state.restore))
      (invalid_state "editing is not active")
  ok (record l { state = record l.state { editing = false } })

unfoldable pub finish_restore : RestoreMode → ℕ → Lifecycle → Result AraError Lifecycle
unfolding require_current
finish_restore mode caller l = do
  require_current caller l
  guard (same_mode l.state.restore mode) (invalid_state "matching restoration is not active")
  ok (record l {
    state = record l.state {
      restore = no_restore;
      editing = if same_mode mode ara2 then false else l.state.editing;
    };
  })

unfoldable pub finish_sample_access : ℕ → Lifecycle → Result AraError Lifecycle
unfolding require_current checked_decrement
finish_sample_access caller l = do
  require_current caller l
  n ← checked_decrement l.state.sample_accesses (invalid_state "sample access is not active")
  ok (record l { state = record l.state { sample_accesses = n } })

unfoldable pub finish_content_call : ℕ → Lifecycle → Result AraError Lifecycle
unfolding require_current
finish_content_call caller l = do
  require_current caller l
  guard l.state.content_call (invalid_state "content call is not active")
  ok (record l { state = record l.state { content_call = false } })

unfoldable pub finish_render_activation : Lifecycle → Result AraError Lifecycle
unfolding checked_decrement
finish_render_activation l = do
  n ← checked_decrement l.state.render_activations (invalid_state "render activation is not active")
  ok (record l { state = record l.state { render_activations = n } })

unfoldable pub finish_teardown : ℕ → Lifecycle → Result AraError Lifecycle
unfolding require_current
finish_teardown caller l = do
  require_current caller l
  guard (is_tearing_down l.state.phase) (invalid_state "teardown is not active")
  ok (record l { state = record l.state { phase = destroyed } })

-- What finishing or dropping a guard calls.
unfoldable pub finish : Guard → ℕ → Lifecycle → Result AraError Lifecycle
unfolding finish_edit finish_sample_access finish_content_call finish_render_activation
    finish_teardown finish_restore
finish edit caller l = finish_edit caller l
finish sample_access caller l = finish_sample_access caller l
finish content_call caller l = finish_content_call caller l
finish render_activation caller l = finish_render_activation l
finish teardown caller l = finish_teardown caller l
finish (restore mode) caller l = finish_restore mode caller l

-- `Drop`, which ignores a refusal.
unfoldable pub drop_guard : Guard → ℕ → Lifecycle → Lifecycle
unfolding finish
drop_guard g caller l = elim (finish g caller l) [ ok l' ↦ l' | err _ ↦ l ]
