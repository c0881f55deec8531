-- ===== src/Registry/Laws.antt =====
-- What a lookup sees after an insertion, a write and a removal (registry.rs).
use ara2_bridge.Base.{
  ℕ, zero, suc, ◌<◌, Option, none, some, List, [], ◌∷◌, ◌++◌, ◌≡◌, refl, inl, inr, arith, ◌==◌,
  if◌then◌else◌, length, get_elem?, set, Option-cases,
}
use ara2_bridge.Errors.{ok}
use ara2_bridge.Registry.{Kind, Handle, Registry, RegistryCell, insert, get, modify, remove}

-- The content of the cell at an offset.
abbrev pub peek : {T : Type 0} → ℕ → List (RegistryCell T) → Option T
peek i [] = none
peek zero (c ∷ cs) = c.content
peek (suc i) (c ∷ cs) = peek i cs

module _ {T : Type 0} where
  pub peek-append :
      (i : ℕ) (cs : List (RegistryCell T)) (c : RegistryCell T)
      → peek i (cs ++ c ∷ []) ≡ (if i == length cs then c.content else peek i cs)
  peek-append zero [] c = refl
  peek-append (suc i) [] c = ground arith
  peek-append zero (d ∷ cs) c = ground arith
  peek-append (suc i) (d ∷ cs) c = ground (arith, peek-append i cs c)

  pub peek-set :
      (i j : ℕ) (cs : List (RegistryCell T)) (c : RegistryCell T)
      → j < length cs
      → peek i (set cs j c) ≡ (if i == j then c.content else peek i cs)
  peek-set i j [] c h = absurd (omega arith)
  peek-set zero zero (d ∷ cs) c h = ground arith
  peek-set (suc i) zero (d ∷ cs) c h = ground arith
  peek-set zero (suc j) (d ∷ cs) c h = ground arith
  peek-set (suc i) (suc j) (d ∷ cs) c h = ground (arith, peek-set i j cs c)

  pub peek-get_elem? :
      (i : ℕ) (cs : List (RegistryCell T)) {c : RegistryCell T}
      → get_elem? cs i ≡ some c
      → peek i cs ≡ c.content
  peek-get_elem? i [] h = cc
  peek-get_elem? zero (d ∷ cs) h = ground arith
  peek-get_elem? (suc i) (d ∷ cs) h = peek-get_elem? i cs h

  pub peek-lt : (i : ℕ) (cs : List (RegistryCell T)) {v : T} → peek i cs ≡ some v → i < length cs
  peek-lt i [] h = cc
  peek-lt zero (d ∷ cs) h = omega arith
  peek-lt (suc i) (d ∷ cs) h = omega (arith, peek-lt i cs h)

  peek-some :
      (i : ℕ) (cs : List (RegistryCell T)) {v : T}
      → peek i cs ≡ some v
      → (c : RegistryCell T) × (get_elem? cs i ≡ some c) × (c.content ≡ some v)
  peek-some i [] h = cc
  peek-some zero (d ∷ cs) h = (d, refl, h)
  peek-some (suc i) (d ∷ cs) h = peek-some i cs h

module _ {K : Kind} {T : Type 0} where
  -- A lookup succeeds exactly on a live cell of the same session.
  pub get-ok_inv :
      (h : Handle K) (r : Registry K T) {v : T}
      → get h r ≡ ok v
      → (h.session.before ≡ r.session.before) × (peek h.index.before r.cells ≡ some v)
  unfolding get
  get-ok_inv h r e = elim (Option-cases (get_elem? r.cells h.index.before)) [
    | inl n ↦ ground arith
    | inr (c, q) ↦ ground (arith, peek-get_elem? h.index.before r.cells q)
  ]

  pub get-ok_intro :
      (h : Handle K) (r : Registry K T) {v : T}
      → h.session.before ≡ r.session.before
      → peek h.index.before r.cells ≡ some v
      → get h r ≡ ok v
  unfolding get
  get-ok_intro h r e p = ground (arith, peek-some h.index.before r.cells p)

  -- The next handle of a registry.
  abbrev pub IsNext : Registry K T → Handle K → Type 0
  IsNext r h = (h.index.before ≡ length r.cells) × (h.session.before ≡ r.session.before)

  pub insert-ok_inv :
      (a : ℕ) (v : T) (r : Registry K T) {h : Handle K} {r' : Registry K T}
      → insert a v r ≡ ok (h, r')
      → IsNext r h
        × (r' ≡ record r { cells = r.cells ++ record { address = a; content = some v } ∷ [] })
        × (length r.cells < r.capacity)
  unfolding insert
  insert-ok_inv a v r e = ground arith

  pub modify-ok_inv :
      (h : Handle K) (f : T → T) (r : Registry K T) {r' : Registry K T}
      → modify h f r ≡ ok r'
      → (c : RegistryCell T) × (v : T) × (get_elem? r.cells h.index.before ≡ some c)
        × (c.content ≡ some v)
        × (h.session.before ≡ r.session.before)
        × (r' ≡ record r { cells = set r.cells h.index.before (record c { content = some (f v) }) })
  unfolding modify
  modify-ok_inv h f r e = elim (Option-cases (get_elem? r.cells h.index.before)) [
    | inl n ↦ ground arith
    | inr (c, q) ↦ elim (Option-cases c.content) [
      | inl n ↦ ground arith
      | inr (v, w) ↦ (c, v, q, w, ground arith, ground arith)
    ]
  ]

  pub remove-ok_inv :
      (h : Handle K) (r : Registry K T) {v : T} {r' : Registry K T}
      → remove h r ≡ ok (v, r')
      → (c : RegistryCell T) × (get_elem? r.cells h.index.before ≡ some c)
        × (c.content ≡ some v)
        × (h.session.before ≡ r.session.before)
        × (r' ≡ record r { cells = set r.cells h.index.before (record c { content = none }) })
  unfolding remove
  remove-ok_inv h r e = elim (Option-cases (get_elem? r.cells h.index.before)) [
    | inl n ↦ ground arith
    | inr (c, q) ↦ (c, q, ground arith, ground arith, ground arith)
  ]

  -- A write and a removal succeed on a live handle.
  pub modify_of_get :
      (h : Handle K) (f : T → T) (r : Registry K T) {v : T}
      → get h r ≡ ok v
      → (r' : Registry K T) × (modify h f r ≡ ok r')
  unfolding get modify
  modify_of_get h f r {v} e = elim (Option-cases (get_elem? r.cells h.index.before)) [
    | inl n ↦ ground arith
    | inr (c, q) ↦ (
      record r { cells = set r.cells h.index.before (record c { content = some (f v) }) },
      ground arith,
    )
  ]

  pub remove_of_get :
      (h : Handle K) (r : Registry K T) {v : T}
      → get h r ≡ ok v
      → (r' : Registry K T) × (remove h r ≡ ok (v, r'))
  unfolding get remove
  remove_of_get h r e = elim (Option-cases (get_elem? r.cells h.index.before)) [
    | inl n ↦ ground arith
    | inr (c, q) ↦ (
      record r { cells = set r.cells h.index.before (record c { content = none }) },
      ground arith,
    )
  ]
