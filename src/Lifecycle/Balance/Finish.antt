-- ===== src/Lifecycle/Balance/Finish.antt =====
-- Each guard that is finished gives its interval back (ara2-bridge-core/src/lifecycle.rs).
use ara2_bridge.Base.{subst, ◌-◌, ℕ, true, false, ◌≡◌, arith}
use ara2_bridge.Errors.{ok}
use ara2_bridge.Lifecycle.{
  no_restore, ara1, ara2, destroyed, is_tearing_down, is_restoring, same_mode, Lifecycle, Guard,
  edit, sample_access, content_call, render_activation, teardown, restore, require_current,
  checked_decrement, finish, finish_edit, finish_restore, finish_sample_access, finish_content_call,
  finish_render_activation, finish_teardown,
}
use ara2_bridge.Lifecycle.Balance.{Held, hold, IsBalanced}

finish_edit-ok_inv :
    (t : ℕ) (l l' : Lifecycle)
    → finish_edit t l ≡ ok l'
    → (l.state.editing ≡ true)
      × (is_restoring l.state.restore ≡ false)
      × (record l.state { editing = false } ≡ l'.state)
unfolding finish_edit require_current checked_decrement
finish_edit-ok_inv t l l' e = ground arith

pub finish_edit-IsBalanced :
    (t : ℕ) (l l' : Lifecycle) (g : Held)
    → finish_edit t l ≡ ok l'
    → IsBalanced l.state (hold edit g)
    → IsBalanced l'.state g
finish_edit-IsBalanced t l l' g done b =
    let (e, r, q) = finish_edit-ok_inv t l l' done in
    subst (λ x. IsBalanced x g) q
      (record {
        editing = ground arith;
        ara1_held = b.ara1_held;
        ara2_held = b.ara2_held;
        exclusive = omega arith;
        samples = b.samples;
        contents = b.contents;
        renders = b.renders;
        teardowns = b.teardowns;
        idle = λ i. omega (arith, b.idle i);
      })

finish_sample_access-ok_inv :
    (t : ℕ) (l l' : Lifecycle)
    → finish_sample_access t l ≡ ok l'
    → (record l.state { sample_accesses = l.state.sample_accesses - 1 } ≡ l'.state)
unfolding finish_sample_access require_current checked_decrement
finish_sample_access-ok_inv t l l' e = ground arith

pub finish_sample_access-IsBalanced :
    (t : ℕ) (l l' : Lifecycle) (g : Held)
    → finish_sample_access t l ≡ ok l'
    → IsBalanced l.state (hold sample_access g)
    → IsBalanced l'.state g
finish_sample_access-IsBalanced t l l' g done b =
    let q = finish_sample_access-ok_inv t l l' done in
    subst (λ x. IsBalanced x g) q
      (record {
        editing = b.editing;
        ara1_held = b.ara1_held;
        ara2_held = b.ara2_held;
        exclusive = b.exclusive;
        samples = omega arith;
        contents = b.contents;
        renders = b.renders;
        teardowns = b.teardowns;
        idle = λ i. omega (arith, b.idle i);
      })

finish_content_call-ok_inv :
    (t : ℕ) (l l' : Lifecycle)
    → finish_content_call t l ≡ ok l'
    → (l.state.content_call ≡ true) × (record l.state { content_call = false } ≡ l'.state)
unfolding finish_content_call require_current checked_decrement
finish_content_call-ok_inv t l l' e = ground arith

pub finish_content_call-IsBalanced :
    (t : ℕ) (l l' : Lifecycle) (g : Held)
    → finish_content_call t l ≡ ok l'
    → IsBalanced l.state (hold content_call g)
    → IsBalanced l'.state g
finish_content_call-IsBalanced t l l' g done b =
    let (c, q) = finish_content_call-ok_inv t l l' done in
    subst (λ x. IsBalanced x g) q
      (record {
        editing = b.editing;
        ara1_held = b.ara1_held;
        ara2_held = b.ara2_held;
        exclusive = b.exclusive;
        samples = b.samples;
        contents = ground arith;
        renders = b.renders;
        teardowns = b.teardowns;
        idle = λ i. omega (arith, b.idle i);
      })

finish_render_activation-ok_inv :
    (l l' : Lifecycle)
    → finish_render_activation l ≡ ok l'
    → (record l.state { render_activations = l.state.render_activations - 1 } ≡ l'.state)
unfolding finish_render_activation require_current checked_decrement
finish_render_activation-ok_inv l l' e = ground arith

pub finish_render_activation-IsBalanced :
    (l l' : Lifecycle) (g : Held)
    → finish_render_activation l ≡ ok l'
    → IsBalanced l.state (hold render_activation g)
    → IsBalanced l'.state g
finish_render_activation-IsBalanced l l' g done b =
    let q = finish_render_activation-ok_inv l l' done in
    subst (λ x. IsBalanced x g) q
      (record {
        editing = b.editing;
        ara1_held = b.ara1_held;
        ara2_held = b.ara2_held;
        exclusive = b.exclusive;
        samples = b.samples;
        contents = b.contents;
        renders = omega arith;
        teardowns = b.teardowns;
        idle = λ i. omega (arith, b.idle i);
      })

finish_teardown-ok_inv :
    (t : ℕ) (l l' : Lifecycle)
    → finish_teardown t l ≡ ok l'
    → (is_tearing_down l.state.phase ≡ true) × (record l.state { phase = destroyed } ≡ l'.state)
unfolding finish_teardown require_current checked_decrement
finish_teardown-ok_inv t l l' e = ground arith

pub finish_teardown-IsBalanced :
    (t : ℕ) (l l' : Lifecycle) (g : Held)
    → finish_teardown t l ≡ ok l'
    → IsBalanced l.state (hold teardown g)
    → IsBalanced l'.state g
finish_teardown-IsBalanced t l l' g done b =
    let (d, q) = finish_teardown-ok_inv t l l' done in
    subst (λ x. IsBalanced x g) q
      (record {
        editing = b.editing;
        ara1_held = b.ara1_held;
        ara2_held = b.ara2_held;
        exclusive = b.exclusive;
        samples = b.samples;
        contents = b.contents;
        renders = b.renders;
        teardowns = ground arith;
        idle = λ i. b.idle (ground arith);
      })

finish_ara1-ok_inv :
    (t : ℕ) (l l' : Lifecycle)
    → finish_restore ara1 t l ≡ ok l'
    → (same_mode l.state.restore ara1 ≡ true) × (record l.state { restore = no_restore } ≡ l'.state)
unfolding finish_restore require_current checked_decrement
finish_ara1-ok_inv t l l' e = ground arith

pub finish_ara1-IsBalanced :
    (t : ℕ) (l l' : Lifecycle) (g : Held)
    → finish_restore ara1 t l ≡ ok l'
    → IsBalanced l.state (hold (restore ara1) g)
    → IsBalanced l'.state g
finish_ara1-IsBalanced t l l' g done b =
    let (d, q) = finish_ara1-ok_inv t l l' done in
    subst (λ x. IsBalanced x g) q
      (record {
        editing = ground arith;
        ara1_held = ground arith;
        ara2_held = ground arith;
        exclusive = omega arith;
        samples = b.samples;
        contents = b.contents;
        renders = b.renders;
        teardowns = b.teardowns;
        idle = λ i. omega (arith, b.idle i);
      })

finish_ara2-ok_inv :
    (t : ℕ) (l l' : Lifecycle)
    → finish_restore ara2 t l ≡ ok l'
    → (same_mode l.state.restore ara2 ≡ true)
      × (record l.state { restore = no_restore; editing = false } ≡ l'.state)
unfolding finish_restore require_current checked_decrement
finish_ara2-ok_inv t l l' e = ground arith

pub finish_ara2-IsBalanced :
    (t : ℕ) (l l' : Lifecycle) (g : Held)
    → finish_restore ara2 t l ≡ ok l'
    → IsBalanced l.state (hold (restore ara2) g)
    → IsBalanced l'.state g
finish_ara2-IsBalanced t l l' g done b =
    let (d, q) = finish_ara2-ok_inv t l l' done in
    subst (λ x. IsBalanced x g) q
      (record {
        editing = ground arith;
        ara1_held = ground arith;
        ara2_held = ground arith;
        exclusive = omega arith;
        samples = b.samples;
        contents = b.contents;
        renders = b.renders;
        teardowns = b.teardowns;
        idle = λ i. omega (arith, b.idle i);
      })

finish_no_restore-ok_inv :
    (t : ℕ) (l l' : Lifecycle)
    → finish_restore no_restore t l ≡ ok l'
    → (same_mode l.state.restore no_restore ≡ true)
      × (record l.state { restore = no_restore } ≡ l'.state)
unfolding finish_restore require_current checked_decrement
finish_no_restore-ok_inv t l l' e = ground arith

pub finish_no_restore-IsBalanced :
    (t : ℕ) (l l' : Lifecycle) (g : Held)
    → finish_restore no_restore t l ≡ ok l'
    → IsBalanced l.state (hold (restore no_restore) g)
    → IsBalanced l'.state g
finish_no_restore-IsBalanced t l l' g done b =
    let (d, q) = finish_no_restore-ok_inv t l l' done in
    subst (λ x. IsBalanced x g) q
      (record {
        editing = b.editing;
        ara1_held = ground arith;
        ara2_held = ground arith;
        exclusive = b.exclusive;
        samples = b.samples;
        contents = b.contents;
        renders = b.renders;
        teardowns = b.teardowns;
        idle = b.idle;
      })

-- Every guard that is finished or dropped gives its interval back.
pub finish-IsBalanced :
    (k : Guard) (t : ℕ) (l l' : Lifecycle) (g : Held)
    → finish k t l ≡ ok l'
    → IsBalanced l.state (hold k g)
    → IsBalanced l'.state g
unfolding finish
finish-IsBalanced edit t l l' g e b = finish_edit-IsBalanced t l l' g e b
finish-IsBalanced sample_access t l l' g e b = finish_sample_access-IsBalanced t l l' g e b
finish-IsBalanced content_call t l l' g e b = finish_content_call-IsBalanced t l l' g e b
finish-IsBalanced render_activation t l l' g e b = finish_render_activation-IsBalanced l l' g e b
finish-IsBalanced teardown t l l' g e b = finish_teardown-IsBalanced t l l' g e b
finish-IsBalanced (restore no_restore) t l l' g e b = finish_no_restore-IsBalanced t l l' g e b
finish-IsBalanced (restore ara1) t l l' g e b = finish_ara1-IsBalanced t l l' g e b
finish-IsBalanced (restore ara2) t l l' g e b = finish_ara2-IsBalanced t l l' g e b
