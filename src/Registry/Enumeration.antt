-- ===== src/Registry/Enumeration.antt =====
-- The handles that a registry lists (registry.rs).
use mathlib.Core.List.{Memᴰ}
use ara2_bridge.Base.{
  ℕ, zero, suc, ◌+◌, ◌≤◌, some, none, List, [], ◌∷◌, ◌≡◌, ◌↔◌, refl, sym, subst, ◌⊎◌, arith, length,
  Option-cases, inl, inr,
}
use ara2_bridge.Errors.{ok}
use ara2_bridge.Registry.{
  Kind, Handle, Registry, RegistryCell, NonZero, get, handles, live_handles, u32_max,
}
use ara2_bridge.Registry.Laws.{peek, get-ok_inv, get-ok_intro}
use ara2_bridge.Registry.Lookup.{handle_ext}
use ara2_bridge.Registry.Opaque.{IsValid}

head_or_tail {ℓ} : {A : Type ℓ} {a x : A} {xs : List A} → Memᴰ a (x ∷ xs) → (a ≡ x) ⊎ Memᴰ a xs
head_or_tail (Memᴰ.head e) = inl e
head_or_tail (Memᴰ.tail m) = inr m

-- The handle of an offset.
abbrev handle_at : {K : Kind} → NonZero → ℕ → Handle K
handle_at s i = record { index = record { before = i }; session = s }

module _ {K : Kind} {T : Type 0} where
  live_handles-some :
      (s : NonZero) (off : ℕ) (c : RegistryCell T) (cs : List (RegistryCell T)) {v : T}
      → c.content ≡ some v
      → off + 1 ≤ u32_max
      → live_handles {K = K} s off (c ∷ cs) ≡ handle_at s off ∷ live_handles s (off + 1) cs
  unfolding live_handles
  live_handles-some s off c cs e b = ground arith

  live_handles-none :
      (s : NonZero) (off : ℕ) (c : RegistryCell T) (cs : List (RegistryCell T))
      → c.content ≡ none
      → live_handles {K = K} s off (c ∷ cs) ≡ live_handles s (off + 1) cs
  unfolding live_handles
  live_handles-none s off c cs e = ground arith

  listed-peek :
      (s : NonZero) (off : ℕ) (cs : List (RegistryCell T)) (h : Handle K)
      → off + length cs ≤ u32_max
      → Memᴰ h (live_handles s off cs)
      → (i : ℕ) × (v : T) × (peek i cs ≡ some v)
        × (h.index.before ≡ off + i)
        × (h.session.before ≡ s.before)
  unfolding live_handles
  listed-peek s off [] h b m = elim m [ ]
  listed-peek s off (c ∷ cs) h b m = elim (Option-cases c.content) [
    | inl n ↦
        let (i, v, p, q, r) =
          listed-peek s (off + 1) cs h (omega arith)
            (subst (λ l. Memᴰ h l) (live_handles-none s off c cs n) m) in
        (suc i, v, p, omega arith, r)
    | inr (v, e) ↦
        elim (head_or_tail
          (subst (λ l. Memᴰ h l) (live_handles-some s off c cs e (omega arith)) m)) [
            | inl same ↦ (zero, v, e, ground arith, ground arith)
            | inr m' ↦
                let (i, w, p, q, r) = listed-peek s (off + 1) cs h (omega arith) m' in
                (suc i, w, p, omega arith, r)
          ]
  ]

  peek-listed :
      (s : NonZero) (off : ℕ) (cs : List (RegistryCell T)) (i : ℕ) {v : T}
      → off + length cs ≤ u32_max
      → peek i cs ≡ some v
      → Memᴰ (handle_at {K = K} s (off + i)) (live_handles s off cs)
  unfolding live_handles
  peek-listed s off [] i b e = absurd (ground arith)
  peek-listed s off (c ∷ cs) zero b e =
      subst (λ l. Memᴰ (handle_at {K = K} s (off + 0)) l)
        (sym (live_handles-some s off c cs e (omega arith)))
        (Memᴰ.head
          (handle_ext (handle_at {K = K} s (off + 0)) (handle_at {K = K} s off) (omega arith) refl))
  peek-listed s off (c ∷ cs) (suc i) b e =
      let rest : Memᴰ (handle_at {K = K} s (off + 1 + i)) (live_handles s (off + 1) cs) =
        peek-listed s (off + 1) cs i (omega arith) e in
      let same : handle_at {K = K} s (off + 1 + i) ≡ handle_at {K = K} s (off + suc i) =
        handle_ext (handle_at {K = K} s (off + 1 + i)) (handle_at {K = K} s (off + suc i))
          (omega arith) refl in
      let moved : Memᴰ (handle_at {K = K} s (off + suc i)) (live_handles s (off + 1) cs) =
        subst (λ h. Memᴰ h (live_handles s (off + 1) cs)) same rest in
      elim (Option-cases c.content) [
        | inl n ↦
            subst (λ l. Memᴰ (handle_at {K = K} s (off + suc i)) l)
              (sym (live_handles-none s off c cs n)) moved
        | inr (w, f) ↦
            subst (λ l. Memᴰ (handle_at {K = K} s (off + suc i)) l)
              (sym (live_handles-some s off c cs f (omega arith))) (Memᴰ.tail moved)
      ]

  -- In a valid registry, the listed handles are exactly the live ones.
  pub handles-live :
      (r : Registry K T) (h : Handle K)
      → IsValid r
      → Memᴰ h (handles r) ↔ ((v : T) × (get h r ≡ ok v))
  unfolding handles
  handles-live r h w = (
    (λ m.
        let (i, v, p, q, s) =
          listed-peek r.session 0 r.cells h (omega (arith, w.sized, w.indexed)) m in
        let at : i ≡ h.index.before = omega arith in
        (v, get-ok_intro h r s (subst (λ j. peek j r.cells ≡ some v) at p))),
    (λ (v, live).
        let (s, p) = get-ok_inv h r live in
        let m : Memᴰ (handle_at {K = K} r.session (0 + h.index.before))
            (live_handles r.session 0 r.cells) =
          peek-listed r.session 0 r.cells h.index.before (omega (arith, w.sized, w.indexed)) p in
        subst (λ k. Memᴰ k (live_handles r.session 0 r.cells))
          (handle_ext (handle_at {K = K} r.session (0 + h.index.before)) h (omega arith) (sym s))
          m),
  )
