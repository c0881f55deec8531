-- ===== src/Lifecycle/Balance.antt =====
-- The intervals that are open and the lifecycle's state agree, whatever its threads do
-- (ara2-bridge-core/src/lifecycle.rs).
pub mod Begin
pub mod Finish
pub mod Sound
pub mod Reached
use ara2_bridge.Base.{
  ℕ, suc, zero, Bool, true, false, not, ◌||◌, List, [], ◌∷◌, ◌==◌, ◌+◌, ◌≤◌, ◌≡◌, refl, arith, ◌⊎◌,
  inl, inr, Option,
}
use ara2_bridge.Errors.{ok, err, AraError, Result, guard, ◌>>=◌, ◌>>◌}
use ara2_bridge.Diagnostics.{Diagnostic, PoisonState}
use ara2_bridge.Lifecycle.{
  RestoreMode, no_restore, ara1, ara2, Phase, active, tearing_down, destroyed, is_active,
  is_tearing_down, is_restoring, same_mode, State, Lifecycle, Guard, edit, sample_access,
  content_call, render_activation, teardown, restore, new_on_current_thread, require_current,
  require_usable, require_model_operation, checked_increment, checked_decrement, begin_editing,
  begin_ara1_restore, begin_ara2_restore, begin_sample_access, begin_content_call, enter_editing,
  enter_ara1_restore, enter_ara2_restore, enter_sample_access, enter_content_call,
  enter_render_activation, begin_render_activation, begin_teardown, poison_runtime, finish,
  drop_guard, finish_edit, finish_restore, finish_sample_access, finish_content_call,
  finish_render_activation, finish_teardown,
}

-- The intervals that are open, counted by kind.
pub record Held : Type 0 where
  pub edits : ℕ
  pub ara1_restores : ℕ
  pub ara2_restores : ℕ
  pub samples : ℕ
  pub contents : ℕ
  pub renders : ℕ
  pub teardowns : ℕ

abbrev pub none_held : Held
none_held = record {
  edits = 0;
  ara1_restores = 0;
  ara2_restores = 0;
  samples = 0;
  contents = 0;
  renders = 0;
  teardowns = 0;
}

-- One more guard; no begin returns a guard of no restoration.
abbrev pub hold : Guard → Held → Held
hold edit g = record g { edits = g.edits + 1 }
hold sample_access g = record g { samples = g.samples + 1 }
hold content_call g = record g { contents = g.contents + 1 }
hold render_activation g = record g { renders = g.renders + 1 }
hold teardown g = record g { teardowns = g.teardowns + 1 }
hold (restore no_restore) g = g
hold (restore ara1) g = record g { ara1_restores = g.ara1_restores + 1 }
hold (restore ara2) g = record g { ara2_restores = g.ara2_restores + 1 }

abbrev pub bit : Bool → ℕ
bit false = 0
bit true = 1

-- The state is the one that the open intervals describe, at most one interval that edits or restores
-- is open, and none but activations and the teardown itself once the active phase is left.
pub record IsBalanced (s : State) (g : Held) : Type 0 where
  pub editing : bit s.editing ≡ g.edits + g.ara2_restores
  pub ara1_held : bit (same_mode s.restore ara1) ≡ g.ara1_restores
  pub ara2_held : bit (same_mode s.restore ara2) ≡ g.ara2_restores
  pub exclusive : g.edits + g.ara1_restores + g.ara2_restores ≤ 1
  pub samples : s.sample_accesses ≡ g.samples
  pub contents : bit s.content_call ≡ g.contents
  pub renders : s.render_activations ≡ g.renders
  pub teardowns : bit (is_tearing_down s.phase) ≡ g.teardowns
  pub idle :
      is_active s.phase ≡ false
      → g.edits + g.ara1_restores + g.ara2_restores + g.samples + g.contents ≡ 0

-- No more of each kind.
abbrev pub Covers : Held → Held → Type 0
Covers o g =
    (o.edits ≤ g.edits)
    × (o.ara1_restores ≤ g.ara1_restores)
    × (o.ara2_restores ≤ g.ara2_restores)
    × (o.samples ≤ g.samples)
    × (o.contents ≤ g.contents)
    × (o.renders ≤ g.renders)
    × (o.teardowns ≤ g.teardowns)

-- A lifecycle between two steps of its threads. `opened` counts the intervals that were begun and not
-- ended, and `owned` those whose guard still exists; `admitted` says that a begin on the model thread
-- has passed its check and not yet entered, and `activating` counts the activations that have.
pub record Run : Type 0 where
  pub lifecycle : Lifecycle
  pub opened : Held
  pub owned : Held
  pub admitted : Bool
  pub activating : ℕ

abbrev pub new_run : ℕ → Run
new_run t = record {
  lifecycle = new_on_current_thread t;
  opened = none_held;
  owned = none_held;
  admitted = false;
  activating = 0;
}

-- The second part of a begin on the model thread: its change of the state, under one lock.
pub data Enter (usize_max : ℕ) : Lifecycle → Guard → Lifecycle → Type 0 where
  edited : (l l' : Lifecycle) (k : Guard) → enter_editing l ≡ ok (k, l') → Enter usize_max l k l'
  restored_ara1 :
      (l l' : Lifecycle) (k : Guard) → enter_ara1_restore l ≡ ok (k, l') → Enter usize_max l k l'
  restored_ara2 :
      (l l' : Lifecycle) (k : Guard) → enter_ara2_restore l ≡ ok (k, l') → Enter usize_max l k l'
  sampled :
      (l l' : Lifecycle) (k : Guard)
      → enter_sample_access usize_max l ≡ ok (k, l')
      → Enter usize_max l k l'
  called :
      (l l' : Lifecycle) (k : Guard) → enter_content_call l ≡ ok (k, l') → Enter usize_max l k l'

-- What a thread does between two points at which others may come in. The check of a begin and its
-- change lock apart; the check itself is one step, since a phase that is left does not come back. A
-- thread in a begin does nothing else, so the model thread does not begin a teardown while a begin
-- of its own is admitted; otherwise the relation has more runs than the code, since it leaves open
-- which of the five begins was admitted and whether its change is refused, which alters nothing, and
-- lets guards end meanwhile. The end of a guard is one lock; when it is refused, the guard is lost
-- after its drop and its interval stays open.
pub data Step (usize_max : ℕ) : Run → Run → Type 0 where
  checked :
      (t : ℕ) (r : Run)
      → r.admitted ≡ false
      → require_model_operation t r.lifecycle ≡ ok tt
      → Step usize_max r (record r { admitted = true })
  entered :
      (r : Run) (k : Guard) (l' : Lifecycle)
      → r.admitted ≡ true
      → Enter usize_max r.lifecycle k l'
      → Step usize_max r (record {
        lifecycle = l';
        opened = hold k r.opened;
        owned = hold k r.owned;
        admitted = false;
        activating = r.activating;
      })
  turned_away : (r : Run) → r.admitted ≡ true → Step usize_max r (record r { admitted = false })
  activation_checked :
      (r : Run)
      → require_usable r.lifecycle ≡ ok tt
      → Step usize_max r (record r { activating = r.activating + 1 })
  activated :
      (r : Run) (n : ℕ) (k : Guard) (l' : Lifecycle)
      → r.activating ≡ n + 1
      → enter_render_activation usize_max r.lifecycle ≡ ok (k, l')
      → Step usize_max r (record {
        lifecycle = l';
        opened = hold k r.opened;
        owned = hold k r.owned;
        admitted = r.admitted;
        activating = n;
      })
  activation_refused :
      (r : Run) (n : ℕ) (x : AraError)
      → r.activating ≡ n + 1
      → enter_render_activation usize_max r.lifecycle ≡ err x
      → Step usize_max r (record r { activating = n })
  torn_down :
      (t : ℕ) (r : Run) (k : Guard) (l' : Lifecycle)
      → r.admitted ≡ false
      → begin_teardown t r.lifecycle ≡ ok (k, l')
      → Step usize_max r
          (record r { lifecycle = l'; opened = hold k r.opened; owned = hold k r.owned })
  poisoned :
      (d : Diagnostic) (r : Run)
      → Step usize_max r (record r { lifecycle = poison_runtime d r.lifecycle })
  finished :
      (t : ℕ) (r : Run) (k : Guard) (g o : Held) (l' : Lifecycle)
      → r.opened ≡ hold k g
      → r.owned ≡ hold k o
      → finish k t r.lifecycle ≡ ok l'
      → Step usize_max r (record r { lifecycle = l'; opened = g; owned = o })
  lost :
      (t : ℕ) (r : Run) (k : Guard) (o : Held) (x : AraError)
      → r.owned ≡ hold k o
      → finish k t r.lifecycle ≡ err x
      → Step usize_max r (record r { lifecycle = drop_guard k t r.lifecycle; owned = o })

-- Whatever the threads did since the runtime was made on `t`.
pub data Reach (usize_max t : ℕ) : Run → Type 0 where
  start : Reach usize_max t (new_run t)
  next : (r r' : Run) → Reach usize_max t r → Step usize_max r r' → Reach usize_max t r'
