-- ===== src/Registry/Stability.antt =====
-- Stable identities of registry cells over any history of operations (registry.rs).
use ara2_bridge.Base.{
  ℕ, ◌<◌, none, some, [], ◌∷◌, ◌≡◌, inl, inr, arith, length, get_elem?, get_elem?-lt,
  get_elem?-none, length-set, length-append, Option-cases,
}
use ara2_bridge.Errors.{ok, err, invalid_argument}
use ara2_bridge.Registry.{Kind, Handle, Registry, RegistryCell, insert, get, modify, remove}
use ara2_bridge.Registry.Laws.{
  peek, peek-append, peek-set, peek-get_elem?, insert-ok_inv, modify-ok_inv, remove-ok_inv,
}

-- One successful operation on a registry.
pub data Step {K : Kind} {T : Type 0} (r r' : Registry K T) : Type 0 where
  inserted : (a : ℕ) (v : T) (h : Handle K) → insert a v r ≡ ok (h, r') → Step r r'
  written : (h : Handle K) (f : T → T) → modify h f r ≡ ok r' → Step r r'
  removed : (h : Handle K) (v : T) → remove h r ≡ ok (v, r') → Step r r'

pub data Reach {K : Kind} {T : Type 0} (r : Registry K T) : Registry K T → Type 0 where
  here : Reach r r
  next : {s t : Registry K T} → Reach r s → Step s t → Reach r t

module _ {K : Kind} {T : Type 0} where
  -- The cell of a handle is there and holds nothing.
  abbrev pub IsTombstone : Handle K → Registry K T → Type 0
  IsTombstone h r =
      (h.session.before ≡ r.session.before)
      × (h.index.before < length r.cells)
      × (peek h.index.before r.cells ≡ none)

  get-IsTombstone :
      (h : Handle K) (r : Registry K T)
      → IsTombstone h r
      → get h r ≡ err (invalid_argument "stale handle")
  unfolding get
  get-IsTombstone h r (s, below, empty) = elim (Option-cases (get_elem? r.cells h.index.before)) [
    | inl n ↦ absurd (omega (arith, get_elem?-none r.cells h.index.before n))
    | inr (c, q) ↦ ground (arith, peek-get_elem? h.index.before r.cells q)
  ]

  Step-IsTombstone :
      (h : Handle K) (r r' : Registry K T) → Step r r' → IsTombstone h r → IsTombstone h r'
  Step-IsTombstone h r r' (inserted a v k e) (s, below, empty) =
      let c : RegistryCell T = record { address = a; content = some v } in
      let (at, after, _) = insert-ok_inv a v r e in
      ground (arith, peek-append h.index.before r.cells c, length-append r.cells (c ∷ []))
  Step-IsTombstone h r r' (written k f e) (s, below, empty) =
      let (c, v, at, full, same, after) = modify-ok_inv k f r e in
      let d : RegistryCell T = record c { content = some (f v) } in
      let inside = get_elem?-lt r.cells k.index.before at in
      ground (
        arith,
        peek-set h.index.before k.index.before r.cells d inside,
        length-set r.cells k.index.before d,
        peek-get_elem? k.index.before r.cells at,
      )
  Step-IsTombstone h r r' (removed k v e) (s, below, empty) =
      let (c, at, full, same, after) = remove-ok_inv k r e in
      let d : RegistryCell T = record c { content = none } in
      let inside = get_elem?-lt r.cells k.index.before at in
      ground (
        arith,
        peek-set h.index.before k.index.before r.cells d inside,
        length-set r.cells k.index.before d,
      )

  Reach-IsTombstone :
      (h : Handle K) {r s : Registry K T} → Reach r s → IsTombstone h r → IsTombstone h s
  Reach-IsTombstone h here t = t
  Reach-IsTombstone h (next {s = a} {t = b} way st) t =
      Step-IsTombstone h a b st (Reach-IsTombstone h way t)

  -- After a removal the handle stays stale, whatever insertions, writes and removals follow.
  pub removed_stays_stale :
      (h : Handle K) (v : T) (r r' s : Registry K T)
      → remove h r ≡ ok (v, r')
      → Reach r' s
      → get h s ≡ err (invalid_argument "stale handle")
  removed_stays_stale h v r r' s e way =
      let (c, at, full, same, after) = remove-ok_inv h r e in
      let d : RegistryCell T = record c { content = none } in
      let inside = get_elem?-lt r.cells h.index.before at in
      get-IsTombstone h s (
        Reach-IsTombstone h way (
          ground (
            arith,
            peek-set h.index.before h.index.before r.cells d inside,
            length-set r.cells h.index.before d,
          )))
