-- ===== src/Document/Keeps.antt =====
-- Rules for a predicate on the graph through the operations of the session, one for each action.
use ara2_bridge.Base.{ℕ, zero, suc, String, Bool, List, ◌≡◌, refl, ap, subst, sym, inl, inr, arith}
use ara2_bridge.Errors.{Result, ok, err, AraError, map_ok}
pub use ara2_bridge.Errors.{Result-cases}
use ara2_bridge.Registry.{Kind, Handle}
use ara2_bridge.Document.Records.{Graph}
use ara2_bridge.Document.Session.{
  Session, Plugin, Call, Op, continue, ◌>>=◌, pure, fail, check, write, write_or, update, call,
  invoke_provisional,
}
use ara2_bridge.Document.Create.{settle}

-- The session after a call: what the plug-in may have touched.
abbrev pub after_call : Session → List (ℕ × Bool) → List Call → Session
after_call s refs calls = record s { provisional_references = refs; calls = calls }

bind-ok :
    {A B : Type 0} (m : Op A) (f : A → Op B) (s : Session) {s' : Session} {a : A}
    → m s ≡ (s', ok a)
    → (m >>= f) s ≡ f a s'
unfolding ◌>>=◌
bind-ok m f s e = ap (λ x. continue x f) e

bind-err :
    {A B : Type 0} (m : Op A) (f : A → Op B) (s : Session) {s' : Session} {x : AraError}
    → m s ≡ (s', err x)
    → (m >>= f) s ≡ (s', err x)
unfolding ◌>>=◌
bind-err m f s e = ap (λ x. continue x f) e

module _ (I : Graph → Type 0) where
  pub keep_check :
      {A B : Type 0} (q : Session → Result AraError A) (f : A → Op B) (s : Session)
      → I s.graph
      → ((a : A) → q s ≡ ok a → I (f a s).0.graph)
      → I ((check q >>= f) s).0.graph
  unfolding check ◌>>=◌
  keep_check q f s stay go = elim (Result-cases (q s)) [
    | inl (a, e) ↦ rw e (go a e)
    | inr (x, e) ↦ rw e stay
  ]

  pub keep_write :
      {B : Type 0} (q : Session → Result AraError Session) (f : Unit {0} → Op B) (s : Session)
      → I s.graph
      → ((s' : Session) → q s ≡ ok s' → I (f tt s').0.graph)
      → I ((write q >>= f) s).0.graph
  unfolding write
  keep_write q f s stay go = elim (Result-cases (q s)) [
    | inl (a, e) ↦
        subst (λ x. I x.0.graph) (sym (bind-ok (write q) f s {s' = a} {a = tt} (rw (e, write))))
          (go a e)
    | inr (x, e) ↦
        subst (λ x. I x.0.graph) (sym (bind-err (write q) f s {s' = s} {x = x} (rw (e, write))))
          stay
  ]

  pub keep_write_or :
      {A B : Type 0} (undo : Session → Session) (q : Session → Result AraError (A × Session))
      (f : A → Op B) (s : Session)
      → I (undo s).graph
      → ((a : A) (s' : Session) → q s ≡ ok (a, s') → I (f a s').0.graph)
      → I ((write_or undo q >>= f) s).0.graph
  unfolding write_or
  keep_write_or undo q f s stay go = elim (Result-cases (q s)) [
    | inl (a, e) ↦
        subst (λ x. I x.0.graph)
          (sym (bind-ok (write_or undo q) f s {s' = a.1} {a = a.0} (rw (e, write_or))))
          (go a.0 a.1 e)
    | inr (x, e) ↦
        subst (λ x. I x.0.graph)
          (sym (bind-err (write_or undo q) f s {s' = undo s} {x = x} (rw (e, write_or)))) stay
  ]

  pub keep_update :
      {B : Type 0} (g : Session → Session) (f : Unit {0} → Op B) (s : Session)
      → I (f tt (g s)).0.graph
      → I ((update g >>= f) s).0.graph
  unfolding update ◌>>=◌
  keep_update g f s h = h

  pub keep_last_update :
      (g : Session → Session) (s : Session) → I (g s).graph → I (update g s).0.graph
  unfolding update
  keep_last_update g s h = h

  pub keep_last_check :
      {A : Type 0} (q : Session → Result AraError A) (s : Session)
      → I s.graph
      → I (check q s).0.graph
  unfolding check
  keep_last_check q s h = h

  pub keep_pure : {A : Type 0} (a : A) (s : Session) → I s.graph → I (pure a s).0.graph
  unfolding pure
  keep_pure a s h = h

  pub keep_fail :
      (A : Type 0) (e : AraError) (s : Session) → I s.graph → I (fail {A = A} e s).0.graph
  unfolding fail
  keep_fail A e s h = h

  pub keep_call :
      {B : Type 0} (plugin : Plugin) (c : Call) (f : ℕ → Op B) (s : Session)
      → I s.graph
      → ((a : ℕ) (refs : List (ℕ × Bool)) (calls : List Call)
          → I (f a (after_call s refs calls)).0.graph)
      → I ((call plugin c >>= f) s).0.graph
  unfolding call ◌>>=◌
  keep_call plugin c f s stay go = elim (Result-cases (plugin.answer s.calls c)) [
    | inl (a, e) ↦ rw e (go a _ _)
    | inr (x, e) ↦ rw e stay
  ]

  pub keep_invoke :
      {B : Type 0} (plugin : Plugin) (p : ℕ) (c : Call) (f : Result AraError ℕ × Bool → Op B)
      (s : Session)
      → ((reply : Result AraError ℕ × Bool) (refs : List (ℕ × Bool)) (calls : List Call)
          → I (f reply (after_call s refs calls)).0.graph)
      → I ((invoke_provisional plugin p c >>= f) s).0.graph
  unfolding invoke_provisional ◌>>=◌
  keep_invoke plugin p c f s go = go _ _ _

  pub keep_settle :
      {K : Kind} (undo : Session → Session) (complete : ℕ → Session → Result AraError Session)
      (message : String) (h : Handle K) (s : Session) (reply : Result AraError ℕ × Bool)
      → I s.graph
      → I (undo s).graph
      → ((p : ℕ) (s' : Session) → complete p s ≡ ok s' → I s'.graph)
      → I (settle undo complete message h reply s).0.graph
  unfolding settle
  keep_settle undo complete message h s (err e, escaped) stay back go =
      keep_update _ _ _ (keep_fail _ _ _ back)
  keep_settle undo complete message h s (ok zero, escaped) stay back go =
      keep_update _ _ _ (keep_fail _ _ _ back)
  keep_settle undo complete message h s (ok (suc p), escaped) stay back go =
      keep_write _ _ _ stay (λ s' e. keep_pure _ _ (go (suc p) s' e))

-- Inversion of `Result::map`.
pub map_ok-ok_inv {ℓ κ} :
    {E : Type 0} {A : Type ℓ} {B : Type κ} (f : A → B) (r : Result E A) {b : B}
    → map_ok f r ≡ ok b
    → (a : A) × (r ≡ ok a) × (f a ≡ b)
map_ok-ok_inv f (ok a) h = (a, refl, ground arith)
map_ok-ok_inv f (err e) h = cc

module _ (I : Graph → Type 0) where
  -- A write whose new state is a function of a registry operation's result.
  pub keep_write_map :
      {B C : Type 0} (g : Session → C → Session) (m : Session → Result AraError C)
      (f : Unit {0} → Op B) (s : Session)
      → I s.graph
      → ((c : C) → m s ≡ ok c → I (f tt (g s c)).0.graph)
      → I ((write (λ t. map_ok (g t) (m t)) >>= f) s).0.graph
  keep_write_map g m f s stay go =
      keep_write I (λ t. map_ok (g t) (m t)) f s stay
        λ s' e.
          let (c, found, same) = map_ok-ok_inv (g s) (m s) e in
          subst (λ x. I (f tt x).0.graph) same (go c found)

  pub keep_store :
      {A B C : Type 0} (undo : Session → Session) (g : Session → C → A × Session)
      (m : Session → Result AraError C) (f : A → Op B) (s : Session)
      → I (undo s).graph
      → ((c : C) → m s ≡ ok c → I (f (g s c).0 (g s c).1).0.graph)
      → I ((write_or undo (λ t. map_ok (g t) (m t)) >>= f) s).0.graph
  keep_store undo g m f s stay go =
      keep_write_or I undo (λ t. map_ok (g t) (m t)) f s stay
        λ a s' e.
          let (c, found, same) = map_ok-ok_inv (g s) (m s) e in
          subst (λ x. I (f x.0 x.1).0.graph) same (go c found)
