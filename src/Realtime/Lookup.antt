-- ===== src/Realtime/Lookup.antt =====
-- A query of a snapshot finds exactly the entries that it was made from.
pub mod Search
use ara2_bridge.Base.{
  ℕ, zero, suc, Bool, true, false, not, ◌||◌, Option, some, none, List, [], ◌∷◌, length, ltb, leb,
  get_elem?, if◌then◌else◌, ◌==◌, ◌≡◌, refl, sym, ap, ◌∙◌, subst, ◌↔◌, ◌⊎◌, inl, inr, ◌+◌, ◌-◌, ◌/◌,
  ◌≤◌, ◌<◌, arith, ==_iff, Bool-cases, get_elem?-lt, ltb→lt,
}
use ara2_bridge.Base.Distinct.{or_false_iff}
use ara2_bridge.Realtime.{HeadTailEntry, insert_sorted, sort, has_twins}

module _ {A : Type 0} where
  -- The keys of a list are at least, or above, a number.
  abbrev pub AtLeast : ℕ → List (HeadTailEntry A) → Type 0
  AtLeast k [] = Unit
  AtLeast k (e ∷ es) = (k ≤ e.key) × AtLeast k es

  abbrev pub Above : ℕ → List (HeadTailEntry A) → Type 0
  Above k [] = Unit
  Above k (e ∷ es) = (k < e.key) × Above k es

  abbrev pub Sorted : List (HeadTailEntry A) → Type 0
  Sorted [] = Unit
  Sorted (e ∷ es) = AtLeast e.key es × Sorted es

  abbrev pub Increasing : List (HeadTailEntry A) → Type 0
  Increasing [] = Unit
  Increasing (e ∷ es) = Above e.key es × Increasing es

  abbrev pub Has : HeadTailEntry A → List (HeadTailEntry A) → Type 0
  Has e [] = ⊥
  Has e (x ∷ xs) = (x ≡ e) ⊎ Has e xs

  AtLeast-le : (k m : ℕ) (es : List (HeadTailEntry A)) → k ≤ m → AtLeast m es → AtLeast k es
  AtLeast-le k m [] h _ = tt
  AtLeast-le k m (e ∷ es) h (a, rest) = (omega arith, AtLeast-le k m es h rest)

  insert_sorted-AtLeast :
      (k : ℕ) (e : HeadTailEntry A) (es : List (HeadTailEntry A))
      → k ≤ e.key
      → AtLeast k es
      → AtLeast k (insert_sorted e es)
  insert_sorted-AtLeast k e [] h _ = (h, tt)
  insert_sorted-AtLeast k e (x ∷ xs) h (a, rest) =
      either (leb e.key x.key) (h, (a, rest)) (a, insert_sorted-AtLeast k e xs h rest)
    where
      either :
          (b : Bool)
          → AtLeast k (e ∷ x ∷ xs)
          → AtLeast k (x ∷ insert_sorted e xs)
          → AtLeast k (if b then e ∷ x ∷ xs else x ∷ insert_sorted e xs)
      either true p q = p
      either false p q = q

  insert_sorted-Sorted :
      (e : HeadTailEntry A) (es : List (HeadTailEntry A)) → Sorted es → Sorted (insert_sorted e es)
  insert_sorted-Sorted e [] _ = (tt, tt)
  insert_sorted-Sorted e (x ∷ xs) (a, rest) = elim (Bool-cases (leb e.key x.key)) [
    | inl f ↦
        let small : e.key ≤ x.key = ground arith in
        subst (λ b. Sorted (if b then e ∷ x ∷ xs else x ∷ insert_sorted e xs)) (sym f)
          ((small, AtLeast-le e.key x.key xs small a), (a, rest))
    | inr f ↦
        let large : x.key ≤ e.key = ground arith in
        subst (λ b. Sorted (if b then e ∷ x ∷ xs else x ∷ insert_sorted e xs)) (sym f)
          (insert_sorted-AtLeast x.key e xs large a, insert_sorted-Sorted e xs rest)
  ]

  sort-Sorted : (es : List (HeadTailEntry A)) → Sorted (sort es)
  sort-Sorted [] = tt
  sort-Sorted (e ∷ es) = insert_sorted-Sorted e (sort es) (sort-Sorted es)

  AtLeast-Above : (k m : ℕ) (es : List (HeadTailEntry A)) → k < m → AtLeast m es → Above k es
  AtLeast-Above k m [] h _ = tt
  AtLeast-Above k m (e ∷ es) h (a, rest) = (omega arith, AtLeast-Above k m es h rest)

  -- Sorted neighbours with different keys increase.
  Sorted-Increasing :
      (es : List (HeadTailEntry A)) → Sorted es → has_twins es ≡ false → Increasing es
  Sorted-Increasing [] _ _ = tt
  Sorted-Increasing (e ∷ []) _ _ = (tt, tt)
  Sorted-Increasing (e ∷ x ∷ xs) ((a, _), (b, rest)) f =
      let (apart, g) = (or_false_iff (e.key == x.key) (has_twins (x ∷ xs))).0 f in
      let less : e.key < x.key = ground arith in
      ((less, AtLeast-Above e.key x.key xs less b), Sorted-Increasing (x ∷ xs) (b, rest) g)

  pub sort-Increasing :
      (es : List (HeadTailEntry A)) → has_twins (sort es) ≡ false → Increasing (sort es)
  sort-Increasing es f = Sorted-Increasing (sort es) (sort-Sorted es) f

  insert_sorted-Has :
      (e y : HeadTailEntry A) (es : List (HeadTailEntry A))
      → Has y (insert_sorted e es) ↔ Has y (e ∷ es)
  insert_sorted-Has e y [] = (λ h. h, λ h. h)
  insert_sorted-Has e y (x ∷ xs) = elim (Bool-cases (leb e.key x.key)) [
    | inl f ↦
        subst (λ b. Has y (if b then e ∷ x ∷ xs else x ∷ insert_sorted e xs) ↔ Has y (e ∷ x ∷ xs))
          (sym f) (λ h. h, λ h. h)
    | inr f ↦
        let (to, from) = insert_sorted-Has e y xs in
        subst (λ b. Has y (if b then e ∷ x ∷ xs else x ∷ insert_sorted e xs) ↔ Has y (e ∷ x ∷ xs))
          (sym f)
          (
            λ h. elim h [
              | inl p ↦ inr (inl p)
              | inr q ↦ elim (to q) [ inl r ↦ inl r | inr r ↦ inr (inr r) ]
            ],
            λ h. elim h [
              | inl p ↦ inr (from (inl p))
              | inr q ↦ elim q [ inl r ↦ inl r | inr r ↦ inr (from (inr r)) ]
            ],
          )
  ]

  pub sort-Has : (y : HeadTailEntry A) (es : List (HeadTailEntry A)) → Has y (sort es) ↔ Has y es
  sort-Has y [] = (λ h. h, λ h. h)
  sort-Has y (e ∷ es) =
      let (to, from) = insert_sorted-Has e y (sort es) in
      let (to', from') = sort-Has y es in
      (
        λ h. elim (to h) [ inl p ↦ inl p | inr q ↦ inr (to' q) ],
        λ h. elim h [ inl p ↦ from (inl p) | inr q ↦ from (inr (from' q)) ],
      )
