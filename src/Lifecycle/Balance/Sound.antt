-- ===== src/Lifecycle/Balance/Sound.antt =====
-- The steps of a lifecycle's threads keep its state and its intervals in agreement
-- (ara2-bridge-core/src/lifecycle.rs).
use ara2_bridge.Base.{subst, sym, ap, ◌∙◌, ℕ, true, ◌≡◌, refl, arith}
use ara2_bridge.Errors.{ok, err, AraError}
use ara2_bridge.Lifecycle.{
  no_restore, ara1, ara2, is_active, Lifecycle, Guard, edit, sample_access, content_call,
  render_activation, teardown, restore, new_on_current_thread, require_current, require_usable,
  require_model_operation, checked_decrement, checked_increment, poison_runtime, finish,
  finish_edit, finish_restore, finish_sample_access, finish_content_call, finish_render_activation,
  finish_teardown, drop_guard, enter_render_activation,
}
use ara2_bridge.Lifecycle.Balance.{
  Held, none_held, hold, IsBalanced, Covers, Run, Enter, Step, Reach,
}
use ara2_bridge.Lifecycle.Balance.Begin.{
  enter_editing-IsBalanced, enter_ara1_restore-IsBalanced, enter_ara2_restore-IsBalanced,
  enter_sample_access-IsBalanced, enter_content_call-IsBalanced, enter_render_activation-IsBalanced,
  begin_teardown-IsBalanced,
}
use ara2_bridge.Lifecycle.Balance.Finish.{finish-IsBalanced}

-- What holds between steps.
pub record IsSound (r : Run) : Type 0 where
  pub balanced : IsBalanced r.lifecycle.state r.opened
  pub covered : Covers r.owned r.opened
  pub usable : r.admitted ≡ true → is_active r.lifecycle.state.phase ≡ true

hold-Covers : (k : Guard) (o g : Held) → Covers o g → Covers (hold k o) (hold k g)
hold-Covers edit o g c = let (c1, c2, c3, c4, c5, c6, c7) = c in ground arith
hold-Covers sample_access o g c = let (c1, c2, c3, c4, c5, c6, c7) = c in ground arith
hold-Covers content_call o g c = let (c1, c2, c3, c4, c5, c6, c7) = c in ground arith
hold-Covers render_activation o g c = let (c1, c2, c3, c4, c5, c6, c7) = c in ground arith
hold-Covers teardown o g c = let (c1, c2, c3, c4, c5, c6, c7) = c in ground arith
hold-Covers (restore no_restore) o g c = let (c1, c2, c3, c4, c5, c6, c7) = c in ground arith
hold-Covers (restore ara1) o g c = let (c1, c2, c3, c4, c5, c6, c7) = c in ground arith
hold-Covers (restore ara2) o g c = let (c1, c2, c3, c4, c5, c6, c7) = c in ground arith

release-Covers : (k : Guard) (o g : Held) → Covers (hold k o) (hold k g) → Covers o g
release-Covers edit o g c = let (c1, c2, c3, c4, c5, c6, c7) = c in ground arith
release-Covers sample_access o g c = let (c1, c2, c3, c4, c5, c6, c7) = c in ground arith
release-Covers content_call o g c = let (c1, c2, c3, c4, c5, c6, c7) = c in ground arith
release-Covers render_activation o g c = let (c1, c2, c3, c4, c5, c6, c7) = c in ground arith
release-Covers teardown o g c = let (c1, c2, c3, c4, c5, c6, c7) = c in ground arith
release-Covers (restore no_restore) o g c = let (c1, c2, c3, c4, c5, c6, c7) = c in ground arith
release-Covers (restore ara1) o g c = let (c1, c2, c3, c4, c5, c6, c7) = c in ground arith
release-Covers (restore ara2) o g c = let (c1, c2, c3, c4, c5, c6, c7) = c in ground arith

lose-Covers : (k : Guard) (o g : Held) → Covers (hold k o) g → Covers o g
lose-Covers edit o g c = let (c1, c2, c3, c4, c5, c6, c7) = c in ground arith
lose-Covers sample_access o g c = let (c1, c2, c3, c4, c5, c6, c7) = c in ground arith
lose-Covers content_call o g c = let (c1, c2, c3, c4, c5, c6, c7) = c in ground arith
lose-Covers render_activation o g c = let (c1, c2, c3, c4, c5, c6, c7) = c in ground arith
lose-Covers teardown o g c = let (c1, c2, c3, c4, c5, c6, c7) = c in ground arith
lose-Covers (restore no_restore) o g c = let (c1, c2, c3, c4, c5, c6, c7) = c in ground arith
lose-Covers (restore ara1) o g c = let (c1, c2, c3, c4, c5, c6, c7) = c in ground arith
lose-Covers (restore ara2) o g c = let (c1, c2, c3, c4, c5, c6, c7) = c in ground arith

Enter-IsBalanced :
    (m : ℕ) (l l' : Lifecycle) (g : Held) (k : Guard)
    → Enter m l k l'
    → is_active l.state.phase ≡ true
    → IsBalanced l.state g
    → IsBalanced l'.state (hold k g)
Enter-IsBalanced m _ _ g _ (Enter.edited l l' k e) a b = enter_editing-IsBalanced l l' g k e a b
Enter-IsBalanced m _ _ g _ (Enter.restored_ara1 l l' k e) a b =
    enter_ara1_restore-IsBalanced l l' g k e a b
Enter-IsBalanced m _ _ g _ (Enter.restored_ara2 l l' k e) a b =
    enter_ara2_restore-IsBalanced l l' g k e a b
Enter-IsBalanced m _ _ g _ (Enter.sampled l l' k e) a b =
    enter_sample_access-IsBalanced m l l' g k e a b
Enter-IsBalanced m _ _ g _ (Enter.called l l' k e) a b =
    enter_content_call-IsBalanced l l' g k e a b

usable-active : (l : Lifecycle) → require_usable l ≡ ok tt → is_active l.state.phase ≡ true
unfolding require_usable
usable-active l e = ground arith

model_operation-active :
    (t : ℕ) (l : Lifecycle) → require_model_operation t l ≡ ok tt → is_active l.state.phase ≡ true
unfolding require_model_operation require_current require_usable
model_operation-active t l e = ground arith

-- An activation does not change the phase.
activation-phase :
    (m : ℕ) (l l' : Lifecycle) (k : Guard)
    → enter_render_activation m l ≡ ok (k, l')
    → l'.state.phase ≡ l.state.phase
unfolding enter_render_activation checked_increment
activation-phase m l l' k e = ground arith

-- The end of a guard leaves an active phase.
finish-active :
    (k : Guard) (t : ℕ) (l l' : Lifecycle)
    → finish k t l ≡ ok l'
    → is_active l.state.phase ≡ true
    → is_active l'.state.phase ≡ true
unfolding finish finish_edit finish_restore finish_sample_access finish_content_call
    finish_render_activation finish_teardown require_current checked_decrement
finish-active edit t l l' e a = ground arith
finish-active sample_access t l l' e a = ground arith
finish-active content_call t l l' e a = ground arith
finish-active render_activation t l l' e a = ground arith
finish-active teardown t l l' e a = ground arith
finish-active (restore mode) t l l' e a = ground arith

drop_guard-err :
    (k : Guard) (t : ℕ) (l : Lifecycle) (x : AraError) → finish k t l ≡ err x → drop_guard k t l ≡ l
unfolding drop_guard
drop_guard-err k t l x e = rw (drop_guard, e) refl

Step-IsSound : (m : ℕ) (r r' : Run) → Step m r r' → IsSound r → IsSound r'
unfolding poison_runtime
Step-IsSound m _ _ (Step.checked t r _ e) s = record {
  balanced = s.balanced;
  covered = s.covered;
  usable = λ _. model_operation-active t r.lifecycle e;
}
Step-IsSound m _ _ (Step.entered r k l' on e) s = record {
  balanced = Enter-IsBalanced m r.lifecycle l' r.opened k e (s.usable on) s.balanced;
  covered = hold-Covers k r.owned r.opened s.covered;
  usable = λ i. cc;
}
Step-IsSound m _ _ (Step.turned_away r on) s = record {
  balanced = s.balanced;
  covered = s.covered;
  usable = λ i. cc;
}
Step-IsSound m _ _ (Step.activation_checked r e) s = record {
  balanced = s.balanced;
  covered = s.covered;
  usable = s.usable;
}
Step-IsSound m _ _ (Step.activated r n k l' _ e) s = record {
  balanced = enter_render_activation-IsBalanced m r.lifecycle l' r.opened k e s.balanced;
  covered = hold-Covers k r.owned r.opened s.covered;
  usable = λ i. ap is_active (activation-phase m r.lifecycle l' k e) ∙ s.usable i;
}
Step-IsSound m _ _ (Step.activation_refused r n x _ e) s = record {
  balanced = s.balanced;
  covered = s.covered;
  usable = s.usable;
}
Step-IsSound m _ _ (Step.torn_down t r k l' off e) s = record {
  balanced = begin_teardown-IsBalanced t r.lifecycle l' r.opened k e s.balanced;
  covered = hold-Covers k r.owned r.opened s.covered;
  usable = λ i. cc;
}
Step-IsSound m _ _ (Step.poisoned d r) s = record {
  balanced = s.balanced;
  covered = s.covered;
  usable = s.usable;
}
Step-IsSound m _ _ (Step.finished t r k g o l' opened owned e) s = record {
  balanced =
      finish-IsBalanced k t r.lifecycle l' g e
        (subst (λ x. IsBalanced r.lifecycle.state x) opened s.balanced);
  covered =
      release-Covers k o g
        (subst (λ x. Covers x (hold k g)) owned (subst (λ x. Covers r.owned x) opened s.covered));
  usable = λ i. finish-active k t r.lifecycle l' e (s.usable i);
}
Step-IsSound m _ _ (Step.lost t r k o x owned e) s =
    let same : r.lifecycle ≡ drop_guard k t r.lifecycle =
      sym (drop_guard-err k t r.lifecycle x e) in
    record {
      balanced = subst (λ l. IsBalanced l.state r.opened) same s.balanced;
      covered = lose-Covers k o r.opened (subst (λ x. Covers x r.opened) owned s.covered);
      usable = λ i. ap (λ l. is_active l.state.phase) (sym same) ∙ s.usable i;
    }

new-IsBalanced : (t : ℕ) → IsBalanced (new_on_current_thread t).state none_held
unfolding new_on_current_thread
new-IsBalanced t = record {
  editing = refl;
  ara1_held = refl;
  ara2_held = refl;
  exclusive = omega arith;
  samples = refl;
  contents = refl;
  renders = refl;
  teardowns = refl;
  idle = λ _. refl;
}

pub Reach-IsSound : (m t : ℕ) (r : Run) → Reach m t r → IsSound r
Reach-IsSound m t _ Reach.start = record {
  balanced = new-IsBalanced t;
  covered = ground arith;
  usable = λ i. cc;
}
Reach-IsSound m t _ (Reach.next r r' before step) =
    Step-IsSound m r r' step (Reach-IsSound m t r before)
