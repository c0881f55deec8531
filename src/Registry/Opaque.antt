-- ===== src/Registry/Opaque.antt =====
-- Stable cell addresses and the handles recovered from them (registry.rs).
use ara2_bridge.Base.{
  ℕ, zero, suc, ◌+◌, ◌≤◌, some, List, [], ◌∷◌, ◌≡◌, refl, sym, ap, ◌∙◌, inl, inr, ◌≢◌, arith,
  length, get_elem?, ◌==◌, Option-cases, Bool-cases,
}
use ara2_bridge.Errors.{ok}
use ara2_bridge.Registry.{
  Kind, Handle, Registry, RegistryCell, NonZero, get, opaque_pointer, handle_from_opaque,
  find_address, u32_max,
}
use ara2_bridge.Registry.Laws.{peek-get_elem?, get-ok_intro}

module _ {T : Type 0} where
  -- No cell has the address.
  abbrev pub Unused : ℕ → List (RegistryCell T) → Type 0
  Unused a [] = Unit {0}
  Unused a (c ∷ cs) = (c.address ≢ a) × Unused a cs

  -- The addresses are distinct and none is null.
  abbrev pub AreDistinct : List (RegistryCell T) → Type 0
  AreDistinct [] = Unit {0}
  AreDistinct (c ∷ cs) = (c.address ≢ 0) × Unused c.address cs × AreDistinct cs

  Unused-get_elem? :
      (a : ℕ) (cs : List (RegistryCell T)) (i : ℕ) {c : RegistryCell T}
      → Unused a cs
      → get_elem? cs i ≡ some c
      → c.address ≢ a
  Unused-get_elem? a [] i u e = cc
  Unused-get_elem? a (d ∷ cs) zero u e = ground (arith, u.0)
  Unused-get_elem? a (d ∷ cs) (suc i) u e = Unused-get_elem? a cs i u.1 e

  AreDistinct-nonzero :
      (cs : List (RegistryCell T)) (i : ℕ) {c : RegistryCell T}
      → AreDistinct cs
      → get_elem? cs i ≡ some c
      → c.address ≢ 0
  AreDistinct-nonzero [] i u e = cc
  AreDistinct-nonzero (d ∷ cs) zero u e = ground (arith, u.0)
  AreDistinct-nonzero (d ∷ cs) (suc i) u e = AreDistinct-nonzero cs i u.2 e

module _ {K : Kind} {T : Type 0} where
  find_address-ok_inv :
      (s : NonZero) (p off : ℕ) (cs : List (RegistryCell T)) {h : Handle K}
      → find_address s p off cs ≡ ok h
      → (i : ℕ) × (c : RegistryCell T) × (v : T) × (get_elem? cs i ≡ some c)
        × (c.content ≡ some v)
        × (c.address ≡ p)
        × (h.index.before ≡ off + i)
        × (h.session.before ≡ s.before)
  unfolding find_address
  find_address-ok_inv s p off [] e = cc
  find_address-ok_inv s p off (c ∷ cs) {h} e = elim (Bool-cases (c.address == p)) [
    | inl hit ↦ elim (Option-cases c.content) [
      | inl n ↦ ground arith
      | inr (v, q) ↦ (zero, c, v, refl, q, ground arith, ground arith, ground arith)
    ]
    | inr miss ↦
        let rest : find_address s p (off + 1) cs ≡ ok h = ground arith in
        let (i, d, v, at, full, a, x, y) = find_address-ok_inv s p (off + 1) cs rest in
        (suc i, d, v, at, full, a, omega arith, y)
  ]

  find_address-get_elem? :
      (s : NonZero) (p off i : ℕ) (cs : List (RegistryCell T)) {c : RegistryCell T} {v : T}
      (h : Handle K)
      → AreDistinct cs
      → get_elem? cs i ≡ some c
      → c.content ≡ some v
      → c.address ≡ p
      → h.index.before ≡ off + i
      → h.session.before ≡ s.before
      → off + length cs ≤ u32_max
      → find_address s p off cs ≡ ok h
  unfolding find_address
  find_address-get_elem? s p off i [] h d at full a x y b = cc
  find_address-get_elem? s p off zero (c ∷ cs) h d at full a x y b = ground arith
  find_address-get_elem? s p off (suc i) (c ∷ cs) h d at full a x y b =
      let miss : c.address ≢ p = λ q. Unused-get_elem? c.address cs i d.1 at (a ∙ sym q) in
      ground (
        arith,
        find_address-get_elem? s p (off + 1) i cs h d.2 at full a (omega arith) y (omega arith),
      )

  -- What the cells of a registry satisfy when every new cell gets a fresh nonnull address.
  pub record IsValid (r : Registry K T) : Type 0 where
    pub distinct : AreDistinct r.cells
    pub sized : length r.cells ≤ r.capacity
    pub indexed : r.capacity ≤ u32_max

  -- A recovered handle is live, and its address is the pointer.
  pub handle_from_opaque-ok_inv :
      (p : ℕ) (r : Registry K T) {h : Handle K}
      → handle_from_opaque p r ≡ ok h
      → ((v : T) × (get h r ≡ ok v)) × (opaque_pointer h r ≡ ok p)
  unfolding handle_from_opaque opaque_pointer
  handle_from_opaque-ok_inv p r {h} e =
      let found : find_address r.session p 0 r.cells ≡ ok h = ground arith in
      let (i, c, v, at, full, a, x, y) = find_address-ok_inv r.session p 0 r.cells found in
      let there : get_elem? r.cells h.index.before ≡ some c =
        ap (get_elem? r.cells) (omega arith) ∙ at in
      ((v, get-ok_intro h r y (peek-get_elem? h.index.before r.cells there ∙ full)), ground arith)

  -- In a valid registry, the address of a live cell leads back to its handle.
  pub handle_from_opaque-opaque_pointer :
      (h : Handle K) (r : Registry K T) {p : ℕ}
      → IsValid r
      → opaque_pointer h r ≡ ok p
      → handle_from_opaque p r ≡ ok h
  unfolding handle_from_opaque opaque_pointer
  handle_from_opaque-opaque_pointer h r {p} v e =
      elim (Option-cases (get_elem? r.cells h.index.before)) [
        | inl n ↦ ground arith
        | inr (c, q) ↦ elim (Option-cases c.content) [
          | inl n ↦ ground arith
          | inr (w, full) ↦
              let a : c.address ≡ p = ground arith in
              let nonnull = AreDistinct-nonzero r.cells h.index.before v.distinct q in
              ground (
                arith,
                find_address-get_elem? r.session p 0 h.index.before r.cells h v.distinct q full a
                    (omega arith) (ground arith) (omega (arith, v.sized, v.indexed)),
              )
        ]
      ]
