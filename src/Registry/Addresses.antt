-- ===== src/Registry/Addresses.antt =====
-- Fresh addresses keep a registry's addresses distinct (registry.rs).
use ara2_bridge.Base.{
  ℕ, zero, suc, some, none, Option, List, [], ◌∷◌, ◌++◌, ◌≡◌, sym, ◌≢◌, arith, length,
  length-append, length-set, set, get_elem?, subst,
}
use ara2_bridge.Errors.{ok}
use ara2_bridge.Registry.{
  Kind, Handle, Registry, RegistryCell, NonZero, insert, modify, remove, in_session,
}
use ara2_bridge.Registry.Laws.{insert-ok_inv, modify-ok_inv, remove-ok_inv}
use ara2_bridge.Registry.Opaque.{Unused, AreDistinct, IsValid}

module _ {T : Type 0} where
  Unused-append :
      (a : ℕ) (cs : List (RegistryCell T)) (c : RegistryCell T)
      → Unused a cs
      → c.address ≢ a
      → Unused a (cs ++ c ∷ [])
  Unused-append a [] c u n = (n, tt)
  Unused-append a (d ∷ cs) c u n = (u.0, Unused-append a cs c u.1 n)

  AreDistinct-append :
      (cs : List (RegistryCell T)) (c : RegistryCell T)
      → AreDistinct cs
      → c.address ≢ 0
      → Unused c.address cs
      → AreDistinct (cs ++ c ∷ [])
  AreDistinct-append [] c d n u = (n, tt, tt)
  AreDistinct-append (b ∷ cs) c d n u =
      (d.0, Unused-append b.address cs c d.1 (λ e. u.0 (sym e)), AreDistinct-append cs c d.2 n u.1)

  Unused-set :
      (a : ℕ) (cs : List (RegistryCell T)) (i : ℕ) {c : RegistryCell T} (v : Option T)
      → get_elem? cs i ≡ some c
      → Unused a cs
      → Unused a (set cs i (record c { content = v }))
  Unused-set a [] i v e u = tt
  Unused-set a (d ∷ cs) zero {c} v e u =
      let same : d ≡ c = ground arith in
      (subst (λ (x : RegistryCell T). x.address ≢ a) same u.0, u.1)
  Unused-set a (d ∷ cs) (suc i) v e u = (u.0, Unused-set a cs i v e u.1)

  AreDistinct-set :
      (cs : List (RegistryCell T)) (i : ℕ) {c : RegistryCell T} (v : Option T)
      → get_elem? cs i ≡ some c
      → AreDistinct cs
      → AreDistinct (set cs i (record c { content = v }))
  AreDistinct-set [] i v e d = tt
  AreDistinct-set (b ∷ cs) zero {c} v e d =
      let same : b ≡ c = ground arith in
      subst (λ (x : RegistryCell T). (x.address ≢ 0) × Unused x.address cs × AreDistinct cs) same d
  AreDistinct-set (b ∷ cs) (suc i) v e d =
      (d.0, Unused-set b.address cs i v e d.1, AreDistinct-set cs i v e d.2)

module _ {K : Kind} {T : Type 0} where
  pub in_session-IsValid : (n : NonZero) (c : ℕ) → IsValid (in_session K T n c)
  unfolding in_session
  in_session-IsValid n c = record { distinct = tt; sized = omega arith; indexed = ground arith }

  -- An insertion at an address that no cell has and that is not null keeps a registry valid: its
  -- addresses are distinct and not null, and its size is within its capacity.
  pub insert-IsValid :
      (a : ℕ) (v : T) (r : Registry K T) {h : Handle K} {r' : Registry K T}
      → insert a v r ≡ ok (h, r')
      → a ≢ 0
      → Unused a r.cells
      → IsValid r
      → IsValid r'
  insert-IsValid a v r e n u i =
      let c : RegistryCell T = record { address = a; content = some v } in
      let (_, after, room) = insert-ok_inv a v r e in
      subst IsValid (sym after) (record {
        distinct = AreDistinct-append r.cells c i.distinct n u;
        sized = omega (arith, length-append r.cells (c ∷ []));
        indexed = i.indexed;
      })

  put-IsValid :
      (r : Registry K T) (i : ℕ) {c : RegistryCell T} (v : Option T)
      → get_elem? r.cells i ≡ some c
      → IsValid r
      → IsValid (record r { cells = set r.cells i (record c { content = v }) })
  put-IsValid r i {c} v e w = record {
    distinct = AreDistinct-set r.cells i v e w.distinct;
    sized =
        let same : length (set r.cells i (record c { content = v })) ≡ length r.cells =
          length-set r.cells i (record c { content = v }) in
        omega (arith, w.sized);
    indexed = w.indexed;
  }

  pub modify-IsValid :
      (h : Handle K) (f : T → T) (r : Registry K T) {r' : Registry K T}
      → modify h f r ≡ ok r'
      → IsValid r
      → IsValid r'
  modify-IsValid h f r e w =
      let (c, v, at, _, _, after) = modify-ok_inv h f r e in
      subst IsValid (sym after) (put-IsValid r h.index.before (some (f v)) at w)

  pub remove-IsValid :
      (h : Handle K) (r : Registry K T) {v : T} {r' : Registry K T}
      → remove h r ≡ ok (v, r')
      → IsValid r
      → IsValid r'
  remove-IsValid h r e w =
      let (c, at, _, _, after) = remove-ok_inv h r e in
      subst IsValid (sym after) (put-IsValid r h.index.before none at w)
