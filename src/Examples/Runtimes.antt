-- ===== src/Examples/Runtimes.antt =====
-- Runs of a lifecycle, a diagnostic sink and an archive.
use ara2_bridge.Base.{
  true, false, some, none, List, [], ◌∷◌, String, ◌≡◌, ◌↔◌, ◌⊎◌, refl, inl, length, ◌≤◌, arith,
}
use ara2_bridge.Errors.{ok, err, is_ok, peer, poisoned, invalid_thread}
use ara2_bridge.Diagnostics.{
  Diagnostic, BoundedDiagnosticSink, new_sink, record_all, snapshot, poison_all, healthy,
}
use ara2_bridge.Diagnostics.Bounds.{newest, record_all-newest, poison_all-first}
use ara2_bridge.Lifecycle.{
  Lifecycle, default_state, restore, ara2, new_on_current_thread, begin_editing, begin_ara2_restore,
  begin_ara1_restore, begin_sample_access, begin_content_call, begin_render_activation,
  begin_teardown, finish, poison_runtime, teardown, render_activation, tearing_down, drop_guard,
  require_model_operation, require_usable, enter_ara2_restore, enter_render_activation,
}
use ara2_bridge.Lifecycle.Balance.{
  none_held, hold, IsBalanced, Covers, Run, new_run, Enter, Step, Reach,
}
use ara2_bridge.Lifecycle.Balance.Reached.{
  Reach-IsBalanced, Reach-finish, Reach-begin_teardown, poison-begin,
}
use ara2_bridge.Archive.Memory.{MemoryArchive, read_at, write_at}
use ara2_bridge.Archive.Memory.Slices.{byte_at}
use ara2_bridge.Archive.Memory.RoundTrip.{read_at-write_at, byte_at-write_at}

-- A runtime of thread 3 in which a restoration has begun.
abbrev restoring : Lifecycle
restoring = record {
  model_thread = 3;
  state = record default_state { editing = true; restore = ara2 };
  poison = healthy;
}

restoring-begun : begin_ara2_restore 3 (new_on_current_thread 3) ≡ ok (restore ara2, restoring)
unfolding begin_ara2_restore new_on_current_thread
restoring-begun = refl

abbrev restoring_run : Run
restoring_run = record {
  lifecycle = restoring;
  opened = hold (restore ara2) none_held;
  owned = hold (restore ara2) none_held;
  admitted = false;
  activating = 0;
}

restoring_run-Reach : Reach 8 3 restoring_run
unfolding new_on_current_thread require_model_operation enter_ara2_restore
restoring_run-Reach =
    Reach.next (record (new_run 3) { admitted = true }) restoring_run
      (Reach.next (new_run 3) (record (new_run 3) { admitted = true }) Reach.start
        (Step.checked 3 (new_run 3) refl refl))
      (Step.entered (record (new_run 3) { admitted = true }) (restore ara2) restoring refl
        (Enter.restored_ara2 (new_run 3).lifecycle restoring (restore ara2) refl))

-- Its guard is dropped on thread 4: it is gone, and the restoration stays open.
abbrev lost_run : Run
lost_run = record restoring_run { owned = none_held }

lost_run-Reach : Reach 8 3 lost_run
unfolding finish drop_guard
lost_run-Reach = Reach.next restoring_run lost_run restoring_run-Reach (
    Step.lost 4 restoring_run (restore ara2) none_held
      (invalid_thread "operation requires the ARA model thread") refl refl)

-- An activation passes its check, then a teardown begins, then the activation enters.
abbrev checked_run : Run
checked_run = record (new_run 3) { activating = 1 }

abbrev torn_run : Run
torn_run = record {
  lifecycle = record {
    model_thread = 3;
    state = record default_state { phase = tearing_down };
    poison = healthy;
  };
  opened = hold teardown none_held;
  owned = hold teardown none_held;
  admitted = false;
  activating = 1;
}

abbrev raced_run : Run
raced_run = record {
  lifecycle = record {
    model_thread = 3;
    state = record default_state { phase = tearing_down; render_activations = 1 };
    poison = healthy;
  };
  opened = hold render_activation (hold teardown none_held);
  owned = hold render_activation (hold teardown none_held);
  admitted = false;
  activating = 0;
}

raced_run-Reach : Reach 8 3 raced_run
unfolding new_on_current_thread require_usable begin_teardown enter_render_activation
raced_run-Reach =
    Reach.next torn_run raced_run
      (Reach.next checked_run torn_run
        (Reach.next (new_run 3) checked_run Reach.start (Step.activation_checked (new_run 3) refl))
        (Step.torn_down 3 checked_run teardown torn_run.lifecycle refl refl))
      (Step.activated torn_run 0 render_activation raced_run.lifecycle refl refl)

Reach-IsBalanced_example :
    IsBalanced raced_run.lifecycle.state raced_run.opened × Covers raced_run.owned raced_run.opened
Reach-IsBalanced_example = Reach-IsBalanced 8 3 raced_run raced_run-Reach

Reach-finish_example :
    (l : Lifecycle) × (finish teardown raced_run.lifecycle.model_thread raced_run.lifecycle ≡ ok l)
Reach-finish_example =
    Reach-finish 8 3 raced_run teardown (hold render_activation none_held) (ground arith)
      raced_run-Reach refl

Reach-begin_teardown_example :
    (is_ok (begin_teardown lost_run.lifecycle.model_thread lost_run.lifecycle) ≡ true)
    ↔ (lost_run.opened ≡ none_held)
Reach-begin_teardown_example = Reach-begin_teardown 8 3 lost_run lost_run-Reach refl

-- Three diagnostics and a sink of two.
abbrev cause : String → Diagnostic
cause text = record {
  error = peer text;
  message = text;
  interface = none;
  method = none;
  document = none;
  instance_id = none;
}

abbrev three_causes : List Diagnostic
three_causes = cause "first" ∷ cause "second" ∷ cause "third" ∷ []

abbrev small_sink : BoundedDiagnosticSink
small_sink = record { capacity = 2; entries = [] }

small_sink-new : new_sink 2 ≡ ok small_sink
unfolding new_sink
small_sink-new = refl

record_all-newest_example : snapshot (record_all small_sink three_causes) ≡ newest 2 three_causes
record_all-newest_example = record_all-newest 2 small_sink three_causes small_sink-new

poison_all-first_example :
    ((poison_all (cause "first" ∷ cause "second" ∷ []) healthy).diagnostic ≡ some (cause "first"))
    × ((poison_all (cause "first" ∷ cause "second" ∷ []) healthy).poisoned ≡ true)
poison_all-first_example = poison_all-first (cause "first") (cause "second" ∷ [])

poison-begin_example :
    (begin_editing 3 (poison_runtime (cause "first") restoring) ≡ err poisoned)
    × (begin_ara1_restore 3 (poison_runtime (cause "first") restoring) ≡ err poisoned)
    × (begin_ara2_restore 3 (poison_runtime (cause "first") restoring) ≡ err poisoned)
    × (begin_sample_access 8 3 (poison_runtime (cause "first") restoring) ≡ err poisoned)
    × (begin_content_call 3 (poison_runtime (cause "first") restoring) ≡ err poisoned)
    × (begin_render_activation 8 (poison_runtime (cause "first") restoring) ≡ err poisoned)
    × (is_ok (begin_teardown 3 (poison_runtime (cause "first") restoring))
        ≡ is_ok (begin_teardown 3 restoring))
poison-begin_example = poison-begin 8 (cause "first") restoring

-- Two bytes written after the end of an archive of one byte.
abbrev short_archive : MemoryArchive
short_archive = record { bytes = 5 ∷ []; archive_id = none }

abbrev long_archive : MemoryArchive
long_archive = record { bytes = 5 ∷ 0 ∷ 6 ∷ 7 ∷ []; archive_id = none }

long_archive-written : write_at 255 2 (6 ∷ 7 ∷ []) short_archive ≡ ok long_archive
unfolding write_at
long_archive-written = refl

read_at-write_at_example : read_at 255 2 2 long_archive ≡ ok (6 ∷ 7 ∷ [])
read_at-write_at_example = read_at-write_at 255 2 (6 ∷ 7 ∷ []) short_archive long_archive-written

byte_at-write_at_example :
    (byte_at 1 long_archive.bytes ≡ byte_at 1 short_archive.bytes)
    × ((length long_archive.bytes ≡ 4) ⊎ (length long_archive.bytes ≡ length short_archive.bytes))
    × (4 ≤ length long_archive.bytes)
    × (length short_archive.bytes ≤ length long_archive.bytes)
byte_at-write_at_example =
    byte_at-write_at 255 2 (6 ∷ 7 ∷ []) short_archive 1 long_archive-written (inl (omega arith))
