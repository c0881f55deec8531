-- ===== src/Document/Outcomes.antt =====
-- Rules for a predicate on the session and the result of an operation, one for each action
-- (ara2-bridge-host/src/document/edit.rs).
use ara2_bridge.Base.{
  ℕ, Bool, true, false, ◌||◌, ◌==◌, List, [], ◌∷◌, ◌≡◌, ◌∙◌, ◌⊎◌, inl, inr, any, Bool-cases, arith,
}
use ara2_bridge.Errors.{Result, ok, err, AraError, map_ok, Result-cases}
use ara2_bridge.Document.Session.{
  Session, Plugin, Call, Op, ◌>>=◌, check, call, update, write_or, invoke_provisional,
  begin_provisional, observe_provisional, finish_provisional, observe_all,
}
use ara2_bridge.Document.Keeps.{after_call}

-- One more call was made, and the plug-in answered it with the address `q`.
abbrev pub Answered : Plugin → Call → Session → Session → ℕ → Type 0
Answered plugin c s s' q = (s'.calls ≡ c ∷ s.calls) × (plugin.answer s.calls c ≡ ok q)

-- One more call was made, and the plug-in refused it, or answered it with null.
abbrev pub Declined : Plugin → Call → Session → Session → AraError → Type 0
Declined plugin c s s' x =
    (s'.calls ≡ c ∷ s.calls)
    × ((plugin.answer s.calls c ≡ err x) ⊎ (plugin.answer s.calls c ≡ ok 0))

observed_head :
    (p : ℕ) (ps : List ℕ) (b : Bool) (rs : List (ℕ × Bool))
    → (finish_provisional p (observe_all ps ((p, b) ∷ rs))).0 ≡ (b || any (λ q. p == q) ps)
unfolding observe_all observe_provisional finish_provisional
observed_head p [] b rs = let same : (p == p) ≡ true = ground arith in rw same (ground arith)
observed_head p (q ∷ ps) b rs = elim (Bool-cases (p == q)) [
  | inl y ↦ rw y (observed_head p ps true rs ∙ ground arith)
  | inr n ↦ rw n (observed_head p ps b (observe_provisional q rs))
]

module _ {B : Type 0} (J : Session × Result AraError B → Type 0) where
  pub on_check :
      {A : Type 0} (q : Session → Result AraError A) (f : A → Op B) (s : Session)
      → ((x : AraError) → q s ≡ err x → J (s, err x))
      → ((a : A) → q s ≡ ok a → J (f a s))
      → J ((check q >>= f) s)
  unfolding check ◌>>=◌
  on_check q f s stop go = elim (Result-cases (q s)) [
    | inl (a, e) ↦ rw e (go a e)
    | inr (x, e) ↦ rw e (stop x e)
  ]

  pub on_store :
      {A C : Type 0} (undo : Session → Session) (g : Session → C → A × Session)
      (m : Session → Result AraError C) (f : A → Op B) (s : Session)
      → ((x : AraError) → m s ≡ err x → J (undo s, err x))
      → ((c : C) → m s ≡ ok c → J (f (g s c).0 (g s c).1))
      → J ((write_or undo (λ t. map_ok (g t) (m t)) >>= f) s)
  unfolding write_or ◌>>=◌
  on_store undo g m f s stop go = elim (Result-cases (m s)) [
    | inl (c, e) ↦ rw (write_or, e) (go c e)
    | inr (x, e) ↦ rw (write_or, e) (stop x e)
  ]

  -- The plug-in's answer, and whether it named the provisional reference.
  pub on_invoke :
      (plugin : Plugin) (p : ℕ) (c : Call) (f : Result AraError ℕ × Bool → Op B) (s : Session)
      → ((refs : List (ℕ × Bool)) (escaped : Bool)
          → escaped ≡ any (λ q. p == q) (plugin.observed s.calls c)
          → J (f (plugin.answer s.calls c, escaped) (after_call s refs (c ∷ s.calls))))
      → J ((invoke_provisional plugin p c >>= f) s)
  unfolding invoke_provisional ◌>>=◌ begin_provisional
  on_invoke plugin p c f s go = go _ _ (observed_head p (plugin.observed s.calls c) false _)

  pub on_call :
      (plugin : Plugin) (c : Call) (f : ℕ → Op B) (s : Session)
      → ((refs : List (ℕ × Bool)) (x : AraError) → J (after_call s refs (c ∷ s.calls), err x))
      → ((refs : List (ℕ × Bool)) (a : ℕ) → J (f a (after_call s refs (c ∷ s.calls))))
      → J ((call plugin c >>= f) s)
  unfolding call ◌>>=◌
  on_call plugin c f s stop go = elim (Result-cases (plugin.answer s.calls c)) [
    | inl (a, e) ↦ rw e (go _ a)
    | inr (x, e) ↦ rw e (stop _ x)
  ]

  pub on_update :
      (g : Session → Session) (f : Unit {0} → Op B) (s : Session)
      → J (f tt (g s))
      → J ((update g >>= f) s)
  unfolding update ◌>>=◌
  on_update g f s h = h
