-- ===== src/Realtime/Lookup/Search.antt =====
-- The binary search of a snapshot.
use ara2_bridge.Base.{
  ℕ, zero, suc, Bool, false, not, Option, some, none, List, [], ◌∷◌, length, ltb, leb, get_elem?,
  if◌then◌else◌, ◌==◌, ◌≡◌, refl, sym, ap, ◌∙◌, subst, ◌↔◌, inl, inr, ◌+◌, ◌-◌, ◌/◌, ◌≤◌, ◌<◌,
  arith, ==_iff, Bool-cases, Option-cases, get_elem?-lt, get_elem?-none, ltb→lt,
}
use ara2_bridge.Errors.{ok, ◌>>◌, guard, guard_bind, not-true_iff, AraError, invalid_argument}
use ara2_bridge.Realtime.{HeadTailEntry, sort, has_twins, new_view, search, query}
use ara2_bridge.Realtime.Lookup.{Above, Increasing, Has, sort-Increasing, sort-Has}

abbrev middle : ℕ → ℕ → ℕ
middle low high = low + (high - low) / 2

module _ {A : Type 0} where
  Above-at :
      (k : ℕ) (es : List (HeadTailEntry A)) (i : ℕ) (x : HeadTailEntry A)
      → Above k es
      → get_elem? es i ≡ some x
      → k < x.key
  Above-at k [] i x h e = cc
  Above-at k (y ∷ es) zero x (a, _) e = let same : y ≡ x = cc in subst (λ z. k < z.key) same a
  Above-at k (y ∷ es) (suc i) x (_, h) e = Above-at k es i x h e

  Increasing-at :
      (es : List (HeadTailEntry A)) (i j : ℕ) (x y : HeadTailEntry A)
      → Increasing es
      → i < j
      → get_elem? es i ≡ some x
      → get_elem? es j ≡ some y
      → x.key < y.key
  Increasing-at [] i j x y h l e f = cc
  Increasing-at (z ∷ es) zero zero x y h l e f = absurd (omega arith)
  Increasing-at (z ∷ es) zero (suc j) x y (a, _) l e f =
      let same : z ≡ x = cc in subst (λ w. w.key < y.key) same (Above-at z.key es j y a f)
  Increasing-at (z ∷ es) (suc i) zero x y h l e f = absurd (omega arith)
  Increasing-at (z ∷ es) (suc i) (suc j) x y (_, h) l e f =
      Increasing-at es i j x y h (omega arith) e f

  Has-at :
      (x : HeadTailEntry A) (es : List (HeadTailEntry A))
      → Has x es
      → (i : ℕ) × (get_elem? es i ≡ some x)
  Has-at x [] h = absurd h
  Has-at x (y ∷ es) (inl e) = (0, ap some e)
  Has-at x (y ∷ es) (inr h) = let (i, e) = Has-at x es h in (suc i, e)

  at-Has :
      (x : HeadTailEntry A) (es : List (HeadTailEntry A)) (i : ℕ)
      → get_elem? es i ≡ some x
      → Has x es
  at-Has x [] i e = cc
  at-Has x (y ∷ es) zero e = inl cc
  at-Has x (y ∷ es) (suc i) e = inr (at-Has x es i e)

  -- The order of the keys is that of the positions.
  order-at :
      (es : List (HeadTailEntry A)) (i j : ℕ) (x y : HeadTailEntry A)
      → Increasing es
      → get_elem? es i ≡ some x
      → get_elem? es j ≡ some y
      → x.key < y.key
      → i < j
  order-at es i j x y h e f l = elim (Bool-cases (ltb i j)) [
    | inl t ↦ ltb→lt i j t
    | inr t ↦ elim (Bool-cases (ltb j i)) [
      | inl u ↦ let less = Increasing-at es j i y x h (ltb→lt j i u) f e in absurd (omega arith)
      | inr u ↦
          let same : i ≡ j = ground arith in
          let at : get_elem? es j ≡ some x = sym (ap (get_elem? es) same) ∙ e in
          let twin : some x ≡ some y = sym at ∙ f in
          let x_is : x ≡ y = cc in
          let keys : x.key ≡ y.key = ap (λ z. z.key) x_is in absurd (omega arith)
    ]
  ]

  same-at :
      (es : List (HeadTailEntry A)) (i j : ℕ) (x y : HeadTailEntry A)
      → Increasing es
      → get_elem? es i ≡ some x
      → get_elem? es j ≡ some y
      → x.key ≡ y.key
      → x ≡ y
  same-at es i j x y h e f l = elim (Bool-cases (ltb i j)) [
    | inl t ↦ let less = Increasing-at es i j x y h (ltb→lt i j t) e f in absurd (omega arith)
    | inr t ↦ elim (Bool-cases (ltb j i)) [
      | inl u ↦ let less = Increasing-at es j i y x h (ltb→lt j i u) f e in absurd (omega arith)
      | inr u ↦
          let same : i ≡ j = ground arith in
          let twin : some x ≡ some y = sym (sym (ap (get_elem? es) same) ∙ e) ∙ f in cc
    ]
  ]

  -- What a search goes on with.
  abbrev half : Bool → ℕ → ℕ → ℕ → ℕ → List (HeadTailEntry A) → Option (HeadTailEntry A)
  half below fuel key low high view =
      if below
      then search fuel key low (middle low high) view
      else search fuel key (middle low high + 1) high view

  abbrev chosen :
      Bool → ℕ → ℕ → ℕ → ℕ → List (HeadTailEntry A) → HeadTailEntry A → Option (HeadTailEntry A)
  chosen hit fuel key low high view e =
      if hit then some e else half (ltb key e.key) fuel key low high view

  abbrev next :
      ℕ → ℕ → ℕ → ℕ → List (HeadTailEntry A) → Option (HeadTailEntry A) → Option (HeadTailEntry A)
  next fuel key low high view none = none
  next fuel key low high view (some e) = chosen (e.key == key) fuel key low high view e

  search-next :
      (fuel key low high : ℕ) (view : List (HeadTailEntry A))
      → search (suc fuel) key low high view ≡ (
          if leb high low
          then none
          else next fuel key low high view (get_elem? view (middle low high)))
  unfolding search
  search-next fuel key low high view = refl

  search-found :
      (fuel low high p : ℕ) (view : List (HeadTailEntry A)) (e : HeadTailEntry A)
      → Increasing view
      → get_elem? view p ≡ some e
      → low ≤ p
      → p < high
      → high ≤ length view
      → high ≤ fuel + low
      → search fuel e.key low high view ≡ some e
  search-found zero low high p view e h at a b c d = absurd (omega arith)
  search-found (suc fuel) low high p view e h at a b c d =
      let open_range : leb high low ≡ false = ground arith in
      search-next fuel e.key low high view
      ∙ ap
          (λ t.
            if t then none else next fuel e.key low high view (get_elem? view (middle low high)))
          open_range
      ∙ elim (Option-cases (get_elem? view (middle low high))) [
        | inl f ↦ let far = get_elem?-none view (middle low high) f in absurd (omega arith)
        | inr (m, f) ↦ ap (next fuel e.key low high view) f ∙ elim (Bool-cases (m.key == e.key)) [
          | inl t ↦
              let same : m ≡ e =
                same-at view (middle low high) p m e h f at ((==_iff m.key e.key).0 t) in
              ap (λ t. chosen t fuel e.key low high view m) t ∙ ap some same
          | inr t ↦
              ap (λ t. chosen t fuel e.key low high view m) t
              ∙ elim (Bool-cases (ltb e.key m.key)) [
                | inl u ↦
                    let left =
                      order-at view p (middle low high) e m h at f (ltb→lt e.key m.key u) in
                    ap (λ t. half t fuel e.key low high view) u
                    ∙ search-found fuel low (middle low high) p view e h at a left (omega arith)
                        (omega arith)
                | inr u ↦
                    let more : m.key < e.key = ground arith in
                    let right = order-at view (middle low high) p m e h f at more in
                    ap (λ t. half t fuel e.key low high view) u
                    ∙ search-found fuel (middle low high + 1) high p view e h at (omega arith) b c
                        (omega arith)
              ]
        ]
      ]

  -- A search returns an entry of the snapshot with the key.
  search_sound :
      (fuel key low high : ℕ) (view : List (HeadTailEntry A)) (e : HeadTailEntry A)
      → search fuel key low high view ≡ some e
      → Has e view × (e.key ≡ key)
  unfolding search
  search_sound zero key low high view e f = cc
  search_sound (suc fuel) key low high view e f = elim (Bool-cases (leb high low)) [
    | inl t ↦
        let no : none ≡ some e =
          sym (
            ap
              (λ b.
                if b then none else next fuel key low high view (get_elem? view (middle low high)))
              t)
          ∙ f in
        cc
    | inr t ↦
        let f =
          sym (
            ap
              (λ b.
                if b then none else next fuel key low high view (get_elem? view (middle low high)))
              t)
          ∙ f in
        elim (Option-cases (get_elem? view (middle low high))) [
          | inl g ↦ let no : none ≡ some e = sym (ap (next fuel key low high view) g) ∙ f in cc
          | inr (m, g) ↦
              let f = sym (ap (next fuel key low high view) g) ∙ f in
              elim (Bool-cases (m.key == key)) [
                | inl u ↦
                    let same : some m ≡ some e =
                      sym (ap (λ t. chosen t fuel key low high view m) u) ∙ f in
                    let m_is : m ≡ e = cc in
                    subst (λ z. Has z view × (z.key ≡ key)) m_is
                      (at-Has m view (middle low high) g, (==_iff m.key key).0 u)
                | inr u ↦
                    let f = sym (ap (λ t. chosen t fuel key low high view m) u) ∙ f in
                    elim (Bool-cases (ltb key m.key)) [
                      | inl v ↦
                          search_sound fuel key low (middle low high) view e
                            (sym (ap (λ t. half t fuel key low high view) v) ∙ f)
                      | inr v ↦
                          search_sound fuel key (middle low high + 1) high view e
                            (sym (ap (λ t. half t fuel key low high view) v) ∙ f)
                    ]
              ]
        ]
  ]

  new_view-ok_inv :
      (entries : List (HeadTailEntry A)) (capacity : ℕ) {view : List (HeadTailEntry A)}
      → new_view entries capacity ≡ ok view
      → (sort entries ≡ view) × Increasing (sort entries)
  unfolding new_view
  new_view-ok_inv entries capacity {view} e =
      let twins : AraError = invalid_argument "realtime snapshot contains duplicate region" in
      let (_, e) =
        (guard_bind (not (ltb capacity (length entries)))
            (invalid_argument "realtime snapshot exceeds configured capacity")
            (guard (not (has_twins (sort entries))) twins >> ok (sort entries))).0
          e in
      let (single, e) =
        (guard_bind (not (has_twins (sort entries))) twins (ok (sort entries))).0 e in
      (cc, sort-Increasing entries ((not-true_iff (has_twins (sort entries))).0 single))

  answer : Option (HeadTailEntry A) → Option (A × A)
  answer none = none
  answer (some e) = some (e.head, e.tail)

  query-found :
      (view : List (HeadTailEntry A)) (e : HeadTailEntry A)
      → Increasing view
      → Has e view
      → query view e.key ≡ some (e.head, e.tail)
  unfolding query answer
  query-found view e h has =
      let (p, at) = Has-at e view has in
      let near = get_elem?-lt view p at in
      let found =
        search-found (length view) 0 (length view) p view e h at (omega arith) near (omega arith)
          (omega arith) in
      ap answer found

  query_sound :
      (view : List (HeadTailEntry A)) (key : ℕ) {head tail : A}
      → query view key ≡ some (head, tail)
      → (e : HeadTailEntry A) × Has e view × (e.key ≡ key) × (e.head ≡ head) × (e.tail ≡ tail)
  unfolding query answer
  query_sound view key f = elim (Option-cases (search (length view) key 0 (length view) view)) [
    | inl g ↦ let no = sym (ap answer g) ∙ f in cc
    | inr (e, g) ↦
        let (has, key_is) = search_sound (length view) key 0 (length view) view e g in
        let same = sym (ap answer g) ∙ f in (e, has, key_is, cc, cc)
  ]

-- A query of a snapshot that was made from some entries, within its capacity and with distinct keys,
-- returns a head and a tail exactly when one of the entries has the key and these durations.
pub query-new_view :
    {A : Type 0} (entries : List (HeadTailEntry A)) (capacity key : ℕ) (head tail : A)
    {view : List (HeadTailEntry A)}
    → new_view entries capacity ≡ ok view
    → (query view key ≡ some (head, tail))
      ↔ ((e : HeadTailEntry A) × Has e entries × (e.key ≡ key) × (e.head ≡ head) × (e.tail ≡ tail))
query-new_view {A} entries capacity key head tail {view} made =
    let (sorted, increasing) = new_view-ok_inv entries capacity made in
    (
      λ f.
          let (e, has, x, y, z) = query_sound view key f in
          (e, (sort-Has e entries).0 (subst (Has e) (sym sorted) has), x, y, z),
      λ (e, has, key_is, head_is, tail_is).
          let found =
            query-found view e (subst Increasing sorted increasing)
              (subst (Has e) sorted ((sort-Has e entries).1 has)) in
          ap (query view) (sym key_is)
          ∙ found
          ∙ ap (λ x. some (x, e.tail)) head_is
          ∙ ap (λ y. some (head, y)) tail_is,
    )
