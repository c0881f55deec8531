-- ===== src/Lifecycle/Balance/Reached.antt =====
-- What holds of every runtime that threads can reach (ara2-bridge-core/src/lifecycle.rs).
use ara2_bridge.Base.{subst, ◌↔◌, ℕ, true, ◌==◌, ◌≡◌, ◌≢◌, refl, arith}
use ara2_bridge.Errors.{is_ok, Result, ok, err, poisoned}
use ara2_bridge.Diagnostics.{Diagnostic, poison}
use ara2_bridge.Lifecycle.{
  no_restore, ara1, ara2, is_active, Lifecycle, Guard, edit, sample_access, content_call,
  render_activation, teardown, restore, require_current, require_usable, require_model_operation,
  checked_decrement, begin_editing, begin_ara1_restore, begin_ara2_restore, begin_sample_access,
  begin_content_call, begin_render_activation, begin_teardown, poison_runtime, finish, finish_edit,
  finish_restore, finish_sample_access, finish_content_call, finish_render_activation,
  finish_teardown,
}
use ara2_bridge.Lifecycle.Balance.{Held, none_held, hold, IsBalanced, Covers, Run, Reach}
use ara2_bridge.Lifecycle.Balance.Begin.{begin_teardown-ok_inv}
use ara2_bridge.Lifecycle.Balance.Sound.{Reach-IsSound}

-- In every runtime that is reached from a new one by the steps of its threads, in which the check and
-- the change of a begin lock apart and a guard whose end is refused is lost, the state counts exactly
-- the intervals that were begun and not ended, and no more guards exist than these: at most one
-- interval that edits or restores is open, and once the active phase is left, none but render
-- activations and the teardown's own.
pub Reach-IsBalanced :
    (m t : ℕ) (r : Run)
    → Reach m t r
    → IsBalanced r.lifecycle.state r.opened × Covers r.owned r.opened
Reach-IsBalanced m t r reached = let s = Reach-IsSound m t r reached in (s.balanced, s.covered)

finish-is_ok :
    (k : Guard) (l : Lifecycle) (o g : Held)
    → k ≢ restore no_restore
    → Covers (hold k o) g
    → IsBalanced l.state g
    → is_ok (finish k l.model_thread l) ≡ true
unfolding finish finish_edit finish_restore finish_sample_access finish_content_call
    finish_render_activation finish_teardown require_current checked_decrement
finish-is_ok edit l o g n c b = let (c1, c2, c3, c4, c5, c6, c7) = c in ground arith
finish-is_ok sample_access l o g n c b = let (c1, c2, c3, c4, c5, c6, c7) = c in ground arith
finish-is_ok content_call l o g n c b = let (c1, c2, c3, c4, c5, c6, c7) = c in ground arith
finish-is_ok render_activation l o g n c b = let (c1, c2, c3, c4, c5, c6, c7) = c in ground arith
finish-is_ok teardown l o g n c b = let (c1, c2, c3, c4, c5, c6, c7) = c in ground arith
finish-is_ok (restore no_restore) l o g n c b = absurd (n refl)
finish-is_ok (restore ara1) l o g n c b = let (c1, c2, c3, c4, c5, c6, c7) = c in ground arith
finish-is_ok (restore ara2) l o g n c b = let (c1, c2, c3, c4, c5, c6, c7) = c in ground arith

is_ok-true {ℓ} : {E : Type 0} {A : Type ℓ} (r : Result E A) → is_ok r ≡ true → (a : A) × (r ≡ ok a)
is_ok-true (ok a) e = (a, refl)
is_ok-true (err x) e = cc

-- In a reachable runtime, each guard that exists is ended with success on the model thread, in any
-- order with the others, also once the runtime is poisoned or torn down.
pub Reach-finish :
    (m t : ℕ) (r : Run) (k : Guard) (o : Held)
    → k ≢ restore no_restore
    → Reach m t r
    → r.owned ≡ hold k o
    → (l' : Lifecycle) × (finish k r.lifecycle.model_thread r.lifecycle ≡ ok l')
Reach-finish m t r k o n reached owned =
    let s = Reach-IsSound m t r reached in
    is_ok-true (finish k r.lifecycle.model_thread r.lifecycle) (
      finish-is_ok k r.lifecycle o r.opened n (subst (λ x. Covers x r.opened) owned s.covered)
        s.balanced)

teardown-is_ok :
    (l : Lifecycle)
    → is_active l.state.phase ≡ true
    → IsBalanced l.state none_held
    → is_ok (begin_teardown l.model_thread l) ≡ true
unfolding begin_teardown require_current
teardown-is_ok l a b = ground arith

Held-eq :
    (g : Held)
    → g.edits ≡ 0
    → g.ara1_restores ≡ 0
    → g.ara2_restores ≡ 0
    → g.samples ≡ 0
    → g.contents ≡ 0
    → g.renders ≡ 0
    → g.teardowns ≡ 0
    → g ≡ none_held
Held-eq g a b c d e f h = λ i. record {
  edits = a i;
  ara1_restores = b i;
  ara2_restores = c i;
  samples = d i;
  contents = e i;
  renders = f i;
  teardowns = h i;
}

teardown-none_held :
    (l : Lifecycle) (g : Held) (b : IsBalanced l.state g) (l' : Lifecycle) (k : Guard)
    → begin_teardown l.model_thread l ≡ ok (k, l')
    → g ≡ none_held
teardown-none_held l g b l' k e =
    let (ed, re, sa, co, ra, a, p, q) = begin_teardown-ok_inv l.model_thread l l' k e in
    Held-eq g (ground arith) (ground arith) (ground arith) (ground arith) (ground arith)
      (ground arith) (ground arith)

-- In a reachable runtime whose phase is active, teardown begins on the model thread exactly when no
-- interval is open: every one that was begun was ended by its guard, so that none is left whose guard
-- still exists or was lost. This is so also once the runtime is poisoned, and with activations that
-- have passed their check and not entered yet.
pub Reach-begin_teardown :
    (m t : ℕ) (r : Run)
    → Reach m t r
    → is_active r.lifecycle.state.phase ≡ true
    → (is_ok (begin_teardown r.lifecycle.model_thread r.lifecycle) ≡ true) ↔ (r.opened ≡ none_held)
Reach-begin_teardown m t r reached a =
    let l : Lifecycle = r.lifecycle in
    let s = Reach-IsSound m t r reached in
    (
      (λ e.
          let (p, e') = is_ok-true (begin_teardown l.model_thread l) e in
          teardown-none_held l r.opened s.balanced p.1 p.0 e'),
      (λ e. teardown-is_ok l a (subst (λ x. IsBalanced l.state x) e s.balanced)),
    )

-- A poisoned runtime refuses every begin on the model thread but teardown, whose outcome
-- does not depend on the poison.
pub poison-begin :
    (m : ℕ) (d : Diagnostic) (l : Lifecycle)
    → let p : Lifecycle = poison_runtime d l in
      (begin_editing l.model_thread p ≡ err poisoned)
      × (begin_ara1_restore l.model_thread p ≡ err poisoned)
      × (begin_ara2_restore l.model_thread p ≡ err poisoned)
      × (begin_sample_access m l.model_thread p ≡ err poisoned)
      × (begin_content_call l.model_thread p ≡ err poisoned)
      × (begin_render_activation m p ≡ err poisoned)
      × (is_ok (begin_teardown l.model_thread p) ≡ is_ok (begin_teardown l.model_thread l))
unfolding poison_runtime poison begin_editing begin_ara1_restore begin_ara2_restore
    begin_sample_access begin_content_call begin_render_activation begin_teardown
    require_model_operation require_current require_usable
poison-begin m d l =
    let same : (l.model_thread == l.model_thread) ≡ true = ground arith in
    (ground arith, ground arith, ground arith, ground arith, ground arith, refl, ground arith)
