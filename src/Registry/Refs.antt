-- ===== src/Registry/Refs.antt =====
-- Edges from the values of one registry to the live cells of another (registry.rs), and searches
-- over live values.
use ara2_bridge.Base.{
  ℕ, suc, Bool, true, false, some, List, [], ◌∷◌, ◌≡◌, sym, ◌⊎◌, inl, inr, ◌≢◌, arith, any, ap,
  subst, zero,
}
use ara2_bridge.Errors.{ok}
use ara2_bridge.Registry.{
  Kind, Handle, Registry, RegistryCell, insert, get, modify, remove, values, live_values,
  same_handle,
}
use ara2_bridge.Registry.Laws.{peek, get-ok_inv}
use ara2_bridge.Registry.Lookup.{
  handle_ext, get-insert_old, get-modify_ne, get-modify_self, get-remove_ne,
}
use native.Mathlib.Decide.{ℕ_discrete}

pub same_handle-false : {K : Kind} (h k : Handle K) → same_handle h k ≡ false → h ≢ k
same_handle-false h k e p = ground arith

pub same_handle-true : {K : Kind} (h k : Handle K) → same_handle h k ≡ true → h ≡ k
same_handle-true h k e = handle_ext h k (ground arith) (ground arith)

pub Handle-eq : {K : Kind} (h k : Handle K) → (h ≡ k) ⊎ (h ≢ k)
Handle-eq h k = elim (ℕ_discrete h.index.before k.index.before) [
  | no p ↦ inr (λ q. p (ap (λ (x : Handle _). x.index.before) q))
  | yes p ↦ elim (ℕ_discrete h.session.before k.session.before) [
    | no q ↦ inr (λ r. q (ap (λ (x : Handle _). x.session.before) r))
    | yes q ↦ inl (handle_ext h k p q)
  ]
]

any-peek :
    {T : Type 0} (p : T → Bool) (i : ℕ) (cs : List (RegistryCell T)) {w : T}
    → any p (live_values cs) ≡ false
    → peek i cs ≡ some w
    → p w ≡ false
unfolding live_values
any-peek p i [] n e = cc
any-peek p zero (c ∷ cs) n e = ground arith
any-peek p (suc i) (c ∷ cs) n e = any-peek p i cs (ground arith) e

module _ {K : Kind} {T : Type 0} where
  abbrev pub IsLive : Handle K → Registry K T → Type 0
  IsLive h r = (v : T) × (get h r ≡ ok v)

  pub insert-IsLive :
      (a : ℕ) (v : T) (r : Registry K T) {h : Handle K} {r' : Registry K T} (k : Handle K)
      → insert a v r ≡ ok (h, r')
      → IsLive k r
      → IsLive k r'
  insert-IsLive a v r k e (w, live) = (w, get-insert_old a v r k e live)

  pub modify-IsLive :
      (h : Handle K) (f : T → T) (r : Registry K T) {r' : Registry K T} (k : Handle K)
      → modify h f r ≡ ok r'
      → IsLive k r
      → IsLive k r'
  modify-IsLive h f r {r'} k e (w, live) = elim (Handle-eq k h) [
    | inl p ↦ (
      f w,
      subst (λ x. get x r' ≡ ok (f w)) (sym p)
          (get-modify_self h f r e (subst (λ x. get x r ≡ ok w) p live)),
    )
    | inr p ↦ (w, get-modify_ne h f r k e p live)
  ]

  pub remove-IsLive :
      (h : Handle K) (r : Registry K T) {v : T} {r' : Registry K T} (k : Handle K)
      → remove h r ≡ ok (v, r')
      → k ≢ h
      → IsLive k r
      → IsLive k r'
  remove-IsLive h r k e p (w, live) = (w, get-remove_ne h r k e p live)

  -- A search that finds nothing rules out every live value.
  pub any-values :
      (p : T → Bool) (r : Registry K T) (k : Handle K) {w : T}
      → any p (values r) ≡ false
      → get k r ≡ ok w
      → p w ≡ false
  unfolding values
  any-values p r k n live = any-peek p k.index.before r.cells n (get-ok_inv k r live).1
