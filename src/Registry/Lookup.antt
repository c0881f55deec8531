-- ===== src/Registry/Lookup.antt =====
-- Lookups after an insertion, a write and a removal, over handles (registry.rs).
use ara2_bridge.Base.{
  ℕ, ◌<◌, none, some, ◌≡◌, ◌⊎◌, inl, inr, ◌≢◌, ◌∙◌, ap, arith, length, get_elem?-lt, ℕ_discrete,
}
use ara2_bridge.Errors.{ok}
use ara2_bridge.Registry.{Kind, Handle, Registry, RegistryCell, insert, get, modify, remove}
use ara2_bridge.Registry.Laws.{
  peek-append, peek-set, peek-lt, peek-get_elem?, get-ok_inv, get-ok_intro, insert-ok_inv,
  modify-ok_inv, remove-ok_inv,
}

-- A handle is its index and its session.
pub handle_ext :
    {K : Kind} (h k : Handle K)
    → h.index.before ≡ k.index.before
    → h.session.before ≡ k.session.before
    → h ≡ k
handle_ext h k p q = ground arith

module _ {K : Kind} {T : Type 0} where
  pub get-insert_self :
      (a : ℕ) (v : T) (r : Registry K T) {h : Handle K} {r' : Registry K T}
      → insert a v r ≡ ok (h, r')
      → get h r' ≡ ok v
  get-insert_self a v r {h} {r'} e =
      let c : RegistryCell T = record { address = a; content = some v } in
      let (next, after, _) = insert-ok_inv a v r e in
      get-ok_intro h r' (ground arith) (ground (arith, peek-append h.index.before r.cells c))

  pub get-insert_old :
      (a : ℕ) (v : T) (r : Registry K T) {h : Handle K} {r' : Registry K T} (k : Handle K) {w : T}
      → insert a v r ≡ ok (h, r')
      → get k r ≡ ok w
      → get k r' ≡ ok w
  get-insert_old a v r {r' = r'} k e live =
      let c : RegistryCell T = record { address = a; content = some v } in
      let (next, after, _) = insert-ok_inv a v r e in
      let (here, seen) = get-ok_inv k r live in
      let below : k.index.before < length r.cells = peek-lt k.index.before r.cells seen in
      get-ok_intro k r' (ground arith) (ground (arith, peek-append k.index.before r.cells c))

  pub get-insert_inv :
      (a : ℕ) (v : T) (r : Registry K T) {h : Handle K} {r' : Registry K T} (k : Handle K) {w : T}
      → insert a v r ≡ ok (h, r')
      → get k r' ≡ ok w
      → (get k r ≡ ok w) ⊎ ((k ≡ h) × (w ≡ v))
  get-insert_inv a v r {h} {r'} k e live =
      let c : RegistryCell T = record { address = a; content = some v } in
      let (next, after, _) = insert-ok_inv a v r e in
      let (here, seen) = get-ok_inv k r' live in
      elim (ℕ_discrete k.index.before h.index.before) [
        | yes p ↦
            inr (
              handle_ext k h p (ground arith),
              ground (arith, peek-append k.index.before r.cells c),
            )
        | no p ↦
            inl (
              get-ok_intro k r (ground arith)
                (ground (arith, peek-append k.index.before r.cells c)))
      ]

  -- The handle of an insertion names nothing before it.
  pub get-insert_fresh :
      (a : ℕ) (v : T) (r : Registry K T) {h : Handle K} {r' : Registry K T} {w : T}
      → insert a v r ≡ ok (h, r')
      → get h r ≢ ok w
  get-insert_fresh a v r {h} e live =
      let (next, _, _) = insert-ok_inv a v r e in
      let (here, seen) = get-ok_inv h r live in
      absurd (omega (arith, peek-lt h.index.before r.cells seen))

  pub get-modify_inv :
      (h : Handle K) (f : T → T) (r : Registry K T) {r' : Registry K T} (k : Handle K) {w : T}
      → modify h f r ≡ ok r'
      → get k r' ≡ ok w
      → ((k ≢ h) × (get k r ≡ ok w)) ⊎ ((k ≡ h) × ((v : T) × (get h r ≡ ok v) × (w ≡ f v)))
  get-modify_inv h f r {r'} k e live =
      let (c, v, at, full, same, after) = modify-ok_inv h f r e in
      let d : RegistryCell T = record c { content = some (f v) } in
      let (here, seen) = get-ok_inv k r' live in
      let inside : h.index.before < length r.cells = get_elem?-lt r.cells h.index.before at in
      let write = peek-set k.index.before h.index.before r.cells d inside in
      elim (ℕ_discrete k.index.before h.index.before) [
        | yes p ↦ inr (
          handle_ext k h p (ground arith),
          (
            v,
            get-ok_intro h r same (peek-get_elem? h.index.before r.cells at ∙ full),
            ground (arith, write),
          ),
        )
        | no p ↦ inl (
          λ q. p (ap (λ (x : Handle K). x.index.before) q),
          get-ok_intro k r (ground arith) (ground (arith, write)),
        )
      ]

  pub get-modify_ne :
      (h : Handle K) (f : T → T) (r : Registry K T) {r' : Registry K T} (k : Handle K) {w : T}
      → modify h f r ≡ ok r'
      → k ≢ h
      → get k r ≡ ok w
      → get k r' ≡ ok w
  get-modify_ne h f r {r' = r'} k e ne live =
      let (c, v, at, full, same, after) = modify-ok_inv h f r e in
      let d : RegistryCell T = record c { content = some (f v) } in
      let (here, seen) = get-ok_inv k r live in
      let inside : h.index.before < length r.cells = get_elem?-lt r.cells h.index.before at in
      let write = peek-set k.index.before h.index.before r.cells d inside in
      let apart : k.index.before ≢ h.index.before = λ p. ne (handle_ext k h p (ground arith)) in
      get-ok_intro k r' (ground arith) (ground (arith, write))

  pub get-modify_self :
      (h : Handle K) (f : T → T) (r : Registry K T) {r' : Registry K T} {v : T}
      → modify h f r ≡ ok r'
      → get h r ≡ ok v
      → get h r' ≡ ok (f v)
  get-modify_self h f r {r' = r'} e live =
      let (c, v, at, full, same, after) = modify-ok_inv h f r e in
      let d : RegistryCell T = record c { content = some (f v) } in
      let (here, seen) = get-ok_inv h r live in
      let inside : h.index.before < length r.cells = get_elem?-lt r.cells h.index.before at in
      let write = peek-set h.index.before h.index.before r.cells d inside in
      get-ok_intro h r' (ground arith)
        (ground (arith, write, peek-get_elem? h.index.before r.cells at))

  pub get-remove_inv :
      (h : Handle K) (r : Registry K T) {v : T} {r' : Registry K T} (k : Handle K) {w : T}
      → remove h r ≡ ok (v, r')
      → get k r' ≡ ok w
      → (k ≢ h) × (get k r ≡ ok w)
  get-remove_inv h r {r' = r'} k e live =
      let (c, at, full, same, after) = remove-ok_inv h r e in
      let d : RegistryCell T = record c { content = none } in
      let (here, seen) = get-ok_inv k r' live in
      let inside : h.index.before < length r.cells = get_elem?-lt r.cells h.index.before at in
      let write = peek-set k.index.before h.index.before r.cells d inside in
      let apart : k.index.before ≢ h.index.before = ground (arith, write) in
      (
        λ q. apart (ap (λ (x : Handle K). x.index.before) q),
        get-ok_intro k r (ground arith) (ground (arith, write)),
      )

  pub get-remove_ne :
      (h : Handle K) (r : Registry K T) {v : T} {r' : Registry K T} (k : Handle K) {w : T}
      → remove h r ≡ ok (v, r')
      → k ≢ h
      → get k r ≡ ok w
      → get k r' ≡ ok w
  get-remove_ne h r {r' = r'} k e ne live =
      let (c, at, full, same, after) = remove-ok_inv h r e in
      let d : RegistryCell T = record c { content = none } in
      let (here, seen) = get-ok_inv k r live in
      let inside : h.index.before < length r.cells = get_elem?-lt r.cells h.index.before at in
      let write = peek-set k.index.before h.index.before r.cells d inside in
      let apart : k.index.before ≢ h.index.before = λ p. ne (handle_ext k h p (ground arith)) in
      get-ok_intro k r' (ground arith) (ground (arith, write))

  -- A removal returns the value that a lookup shows.
  pub get-of_remove :
      (h : Handle K) (r : Registry K T) {v : T} {r' : Registry K T}
      → remove h r ≡ ok (v, r')
      → get h r ≡ ok v
  get-of_remove h r e =
      let (c, at, full, same, _) = remove-ok_inv h r e in
      get-ok_intro h r same (peek-get_elem? h.index.before r.cells at ∙ full)
