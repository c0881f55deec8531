-- ===== src/Lifecycle/Balance/Begin.antt =====
-- Each begin that succeeds opens one interval, and keeps the balance (ara2-bridge-core/src/lifecycle.rs).
use ara2_bridge.Base.{sym, subst, ℕ, true, false, ◌+◌, ◌≡◌, arith}
use ara2_bridge.Errors.{ok}
use ara2_bridge.Lifecycle.{
  ara1, ara2, tearing_down, is_active, is_restoring, State, Lifecycle, Guard, edit, sample_access,
  content_call, render_activation, teardown, restore, require_current, checked_increment,
  enter_editing, enter_ara1_restore, enter_ara2_restore, enter_sample_access, enter_content_call,
  enter_render_activation, begin_teardown,
}
use ara2_bridge.Lifecycle.Balance.{Held, hold, IsBalanced}

idle_editing :
    (s : State) (g : Held)
    → s.editing ≡ false
    → is_restoring s.restore ≡ false
    → IsBalanced s g
    → (g.edits ≡ 0) × (g.ara1_restores ≡ 0) × (g.ara2_restores ≡ 0)
idle_editing s g e r b = ground arith

carry :
    (s : State) (l : Lifecycle) (g : Held) (k k' : Guard)
    → k' ≡ k
    → s ≡ l.state
    → IsBalanced s (hold k g)
    → IsBalanced l.state (hold k' g)
carry s l g k k' p q b =
    subst (λ x. IsBalanced x (hold k' g)) q (subst (λ x. IsBalanced s (hold x g)) (sym p) b)

enter_editing-ok_inv :
    (l l' : Lifecycle) (k : Guard)
    → enter_editing l ≡ ok (k, l')
    → (l.state.editing ≡ false)
      × (is_restoring l.state.restore ≡ false)
      × (k ≡ edit)
      × (record l.state { editing = true } ≡ l'.state)
unfolding enter_editing
enter_editing-ok_inv l l' k e = ground arith

pub enter_editing-IsBalanced :
    (l l' : Lifecycle) (g : Held) (k : Guard)
    → enter_editing l ≡ ok (k, l')
    → is_active l.state.phase ≡ true
    → IsBalanced l.state g
    → IsBalanced l'.state (hold k g)
enter_editing-IsBalanced l l' g k begun a b =
    let (e, r, p, q) = enter_editing-ok_inv l l' k begun in
    let (no_edit, no_ara1, no_ara2) = idle_editing l.state g e r b in
    carry (record l.state { editing = true }) l' g (edit) k p q
      (record {
        editing = omega arith;
        ara1_held = b.ara1_held;
        ara2_held = b.ara2_held;
        exclusive = omega arith;
        samples = b.samples;
        contents = b.contents;
        renders = b.renders;
        teardowns = b.teardowns;
        idle = λ i. cc;
      })

enter_ara1_restore-ok_inv :
    (l l' : Lifecycle) (k : Guard)
    → enter_ara1_restore l ≡ ok (k, l')
    → (l.state.editing ≡ false)
      × (is_restoring l.state.restore ≡ false)
      × (k ≡ restore ara1)
      × (record l.state { restore = ara1 } ≡ l'.state)
unfolding enter_ara1_restore
enter_ara1_restore-ok_inv l l' k e = ground arith

pub enter_ara1_restore-IsBalanced :
    (l l' : Lifecycle) (g : Held) (k : Guard)
    → enter_ara1_restore l ≡ ok (k, l')
    → is_active l.state.phase ≡ true
    → IsBalanced l.state g
    → IsBalanced l'.state (hold k g)
enter_ara1_restore-IsBalanced l l' g k begun a b =
    let (e, r, p, q) = enter_ara1_restore-ok_inv l l' k begun in
    let (no_edit, no_ara1, no_ara2) = idle_editing l.state g e r b in
    carry (record l.state { restore = ara1 }) l' g (restore ara1) k p q
      (record {
        editing = omega arith;
        ara1_held = omega arith;
        ara2_held = omega arith;
        exclusive = omega arith;
        samples = b.samples;
        contents = b.contents;
        renders = b.renders;
        teardowns = b.teardowns;
        idle = λ i. cc;
      })

enter_ara2_restore-ok_inv :
    (l l' : Lifecycle) (k : Guard)
    → enter_ara2_restore l ≡ ok (k, l')
    → (l.state.editing ≡ false)
      × (is_restoring l.state.restore ≡ false)
      × (k ≡ restore ara2)
      × (record l.state { editing = true; restore = ara2 } ≡ l'.state)
unfolding enter_ara2_restore
enter_ara2_restore-ok_inv l l' k e = ground arith

pub enter_ara2_restore-IsBalanced :
    (l l' : Lifecycle) (g : Held) (k : Guard)
    → enter_ara2_restore l ≡ ok (k, l')
    → is_active l.state.phase ≡ true
    → IsBalanced l.state g
    → IsBalanced l'.state (hold k g)
enter_ara2_restore-IsBalanced l l' g k begun a b =
    let (e, r, p, q) = enter_ara2_restore-ok_inv l l' k begun in
    let (no_edit, no_ara1, no_ara2) = idle_editing l.state g e r b in
    carry (record l.state { editing = true; restore = ara2 }) l' g (restore ara2) k p q
      (record {
        editing = omega arith;
        ara1_held = omega arith;
        ara2_held = omega arith;
        exclusive = omega arith;
        samples = b.samples;
        contents = b.contents;
        renders = b.renders;
        teardowns = b.teardowns;
        idle = λ i. cc;
      })

enter_sample_access-ok_inv :
    (m : ℕ) (l l' : Lifecycle) (k : Guard)
    → enter_sample_access m l ≡ ok (k, l')
    → (k ≡ sample_access)
      × (record l.state { sample_accesses = l.state.sample_accesses + 1 } ≡ l'.state)
unfolding enter_sample_access checked_increment
enter_sample_access-ok_inv m l l' k e = ground arith

pub enter_sample_access-IsBalanced :
    (m : ℕ) (l l' : Lifecycle) (g : Held) (k : Guard)
    → enter_sample_access m l ≡ ok (k, l')
    → is_active l.state.phase ≡ true
    → IsBalanced l.state g
    → IsBalanced l'.state (hold k g)
enter_sample_access-IsBalanced m l l' g k begun a b =
    let (p, q) = enter_sample_access-ok_inv m l l' k begun in
    carry (record l.state { sample_accesses = l.state.sample_accesses + 1 }) l' g (sample_access) k
      p q
      (record {
        editing = b.editing;
        ara1_held = b.ara1_held;
        ara2_held = b.ara2_held;
        exclusive = b.exclusive;
        samples = omega arith;
        contents = b.contents;
        renders = b.renders;
        teardowns = b.teardowns;
        idle = λ i. cc;
      })

enter_content_call-ok_inv :
    (l l' : Lifecycle) (k : Guard)
    → enter_content_call l ≡ ok (k, l')
    → (l.state.content_call ≡ false)
      × (k ≡ content_call)
      × (record l.state { content_call = true } ≡ l'.state)
unfolding enter_content_call
enter_content_call-ok_inv l l' k e = ground arith

pub enter_content_call-IsBalanced :
    (l l' : Lifecycle) (g : Held) (k : Guard)
    → enter_content_call l ≡ ok (k, l')
    → is_active l.state.phase ≡ true
    → IsBalanced l.state g
    → IsBalanced l'.state (hold k g)
enter_content_call-IsBalanced l l' g k begun a b =
    let (c, p, q) = enter_content_call-ok_inv l l' k begun in
    carry (record l.state { content_call = true }) l' g (content_call) k p q
      (record {
        editing = b.editing;
        ara1_held = b.ara1_held;
        ara2_held = b.ara2_held;
        exclusive = b.exclusive;
        samples = b.samples;
        contents = ground arith;
        renders = b.renders;
        teardowns = b.teardowns;
        idle = λ i. cc;
      })

enter_render_activation-ok_inv :
    (m : ℕ) (l l' : Lifecycle) (k : Guard)
    → enter_render_activation m l ≡ ok (k, l')
    → (k ≡ render_activation)
      × (record l.state { render_activations = l.state.render_activations + 1 } ≡ l'.state)
unfolding enter_render_activation checked_increment
enter_render_activation-ok_inv m l l' k e = ground arith

pub enter_render_activation-IsBalanced :
    (m : ℕ) (l l' : Lifecycle) (g : Held) (k : Guard)
    → enter_render_activation m l ≡ ok (k, l')
    → IsBalanced l.state g
    → IsBalanced l'.state (hold k g)
enter_render_activation-IsBalanced m l l' g k begun b =
    let (p, q) = enter_render_activation-ok_inv m l l' k begun in
    carry (record l.state { render_activations = l.state.render_activations + 1 }) l' g
      (render_activation) k p q
      (record {
        editing = b.editing;
        ara1_held = b.ara1_held;
        ara2_held = b.ara2_held;
        exclusive = b.exclusive;
        samples = b.samples;
        contents = b.contents;
        renders = omega arith;
        teardowns = b.teardowns;
        idle = b.idle;
      })

-- A teardown begins only when the phase is active and no interval is open.
pub begin_teardown-ok_inv :
    (t : ℕ) (l l' : Lifecycle) (k : Guard)
    → begin_teardown t l ≡ ok (k, l')
    → (l.state.editing ≡ false)
      × (is_restoring l.state.restore ≡ false)
      × (l.state.sample_accesses ≡ 0)
      × (l.state.content_call ≡ false)
      × (l.state.render_activations ≡ 0)
      × (is_active l.state.phase ≡ true)
      × (k ≡ teardown)
      × (record l.state { phase = tearing_down } ≡ l'.state)
unfolding begin_teardown require_current
begin_teardown-ok_inv t l l' k e = ground arith

pub begin_teardown-IsBalanced :
    (t : ℕ) (l l' : Lifecycle) (g : Held) (k : Guard)
    → begin_teardown t l ≡ ok (k, l')
    → IsBalanced l.state g
    → IsBalanced l'.state (hold k g)
begin_teardown-IsBalanced t l l' g k begun b =
    let (e, r, s, c, d, a, p, q) = begin_teardown-ok_inv t l l' k begun in
    let (no_edit, no_ara1, no_ara2) = idle_editing l.state g e r b in
    let no_content : g.contents ≡ 0 = ground arith in
    carry (record l.state { phase = tearing_down }) l' g teardown k p q
      (record {
        editing = b.editing;
        ara1_held = b.ara1_held;
        ara2_held = b.ara2_held;
        exclusive = b.exclusive;
        samples = b.samples;
        contents = b.contents;
        renders = b.renders;
        teardowns = ground arith;
        idle = λ i. omega arith;
      })
