-- ===== src/Plugin/Updates/Merging.antt =====
-- What is pending for an object after any marks.
use ara2_bridge.Base.{
  Bool, true, false, ◌&&◌, Option, some, none, List, [], ◌∷◌, ◌++◌, if◌then◌else◌, ◌+◌, ◌≤◌, ◌≡◌,
  refl, sym, ◌∙◌, ap, subst, ◌⊎◌, inl, inr, arith, Bool-cases,
}
use ara2_bridge.Errors.{Result, ok, map_ok, AraError, ◌>>=◌, ok_bind, map_ok-ok_inv}
use ara2_bridge.Registry.{RawHandle, same_raw}
use ara2_bridge.Plugin.Keys.{find, count, same_raw_self, same_raw_eq, count-snoc}
use ara2_bridge.Plugin.Updates.{
  Times, PendingContent, Pending, UpdateOrigin, should_notify, coalesce, merge, mark,
}

-- A mark of one category.
pub record Mark (A : Type 0) : Type 0 where
  pub object : RawHandle
  pub content : PendingContent A
  pub origin : UpdateOrigin

abbrev pub mark_all :
    (T : Times) → List (Mark T.Carrier) → Pending T.Carrier → Result AraError (Pending T.Carrier)
mark_all T [] pending = ok pending
mark_all T (m ∷ ms) pending = mark T m.object m.content m.origin pending >>= mark_all T ms

-- One object's content alone: the first one, then each coalesced into it.
abbrev pub absorb :
    (T : Times)
    → PendingContent T.Carrier
    → Option (PendingContent T.Carrier)
    → Result AraError (Option (PendingContent T.Carrier))
absorb T incoming none = ok (some incoming)
absorb T incoming (some existing) = map_ok some (coalesce T existing incoming)

-- The marks of one object that the host does not know yet, in their order.
abbrev pub content_of :
    (T : Times)
    → RawHandle
    → List (Mark T.Carrier)
    → Option (PendingContent T.Carrier)
    → Result AraError (Option (PendingContent T.Carrier))
content_of T key [] content = ok content
content_of T key (m ∷ ms) content =
    (if same_raw m.object key && should_notify m.origin
      then absorb T m.content content
      else ok content)
    >>= content_of T key ms

abbrev pub keys : {A : Type 0} → Pending A → List RawHandle
keys [] = []
keys ((k, _) ∷ pending) = k ∷ keys pending

abbrev pub Unique : {A : Type 0} → Pending A → Type 0
Unique pending = (key : RawHandle) → count key (keys pending) ≤ 1

module _ (T : Times) (object : RawHandle) (incoming : PendingContent T.Carrier) where
  -- One entry of a merge.
  abbrev chosen :
      Bool
      → RawHandle
      → PendingContent T.Carrier
      → Pending T.Carrier
      → Result AraError (Pending T.Carrier)
  chosen here k existing pending =
      if here
      then map_ok (λ (x : PendingContent T.Carrier). (k, x) ∷ pending)
          (coalesce T existing incoming)
      else map_ok (λ (ps : Pending T.Carrier). (k, existing) ∷ ps) (merge T object incoming pending)

  merge-find :
      (pending : Pending T.Carrier) {pending' : Pending T.Carrier}
      → merge T object incoming pending ≡ ok pending'
      → absorb T incoming (find object pending) ≡ ok (find object pending')
  unfolding merge
  merge-find [] {pending'} e =
      let same : (object, incoming) ∷ [] ≡ pending' = cc in
      sym (ap (λ b. ok (if b then some incoming else none)) (same_raw_self object))
      ∙ ap (λ ps. ok (find object ps)) same
  merge-find ((k, existing) ∷ pending) {pending'} e = elim (Bool-cases (same_raw k object)) [
    | inl on ↦
        let (x, f, g) =
          map_ok-ok_inv (λ (x : PendingContent T.Carrier). (k, x) ∷ pending)
            (coalesce T existing incoming) (sym (ap (λ b. chosen b k existing pending) on) ∙ e) in
        ap (λ b. absorb T incoming (if b then some existing else find object pending)) on
        ∙ ap (map_ok some) f
        ∙ sym (ap (λ b. ok (if b then some x else find object pending)) on)
        ∙ ap (λ ps. ok (find object ps)) g
    | inr other ↦
        let (ps, f, g) =
          map_ok-ok_inv (λ (ps : Pending T.Carrier). (k, existing) ∷ ps)
            (merge T object incoming pending)
            (sym (ap (λ b. chosen b k existing pending) other) ∙ e) in
        ap (λ b. absorb T incoming (if b then some existing else find object pending)) other
        ∙ merge-find pending f
        ∙ sym (ap (λ b. ok (if b then some existing else find object ps)) other)
        ∙ ap (λ ps. ok (find object ps)) g
  ]

  merge-find_other :
      (key : RawHandle) (pending : Pending T.Carrier) {pending' : Pending T.Carrier}
      → same_raw object key ≡ false
      → merge T object incoming pending ≡ ok pending'
      → find key pending' ≡ find key pending
  unfolding merge
  merge-find_other key [] {pending'} off e =
      let same : (object, incoming) ∷ [] ≡ pending' = cc in
      sym (ap (find key) same) ∙ ap (λ b. if b then some incoming else none) off
  merge-find_other key ((k, existing) ∷ pending) {pending'} off e =
      elim (Bool-cases (same_raw k object)) [
        | inl on ↦
            let (x, f, g) =
              map_ok-ok_inv (λ (x : PendingContent T.Carrier). (k, x) ∷ pending)
                (coalesce T existing incoming)
                (sym (ap (λ b. chosen b k existing pending) on) ∙ e) in
            let k_off : same_raw k key ≡ false =
              ap (λ z. same_raw z key) (same_raw_eq k object on) ∙ off in
            sym (ap (find key) g)
            ∙ ap (λ b. if b then some x else find key pending) k_off
            ∙ sym (ap (λ b. if b then some existing else find key pending) k_off)
        | inr other ↦
            let (ps, f, g) =
              map_ok-ok_inv (λ (ps : Pending T.Carrier). (k, existing) ∷ ps)
                (merge T object incoming pending)
                (sym (ap (λ b. chosen b k existing pending) other) ∙ e) in
            sym (ap (find key) g)
            ∙ ap (λ o. if same_raw k key then some existing else o)
                (merge-find_other key pending off f)
      ]

  -- The objects stay the same, or a new one comes last.
  merge-keys :
      (pending : Pending T.Carrier) {pending' : Pending T.Carrier}
      → merge T object incoming pending ≡ ok pending'
      → (keys pending' ≡ keys pending)
        ⊎ ((keys pending' ≡ keys pending ++ object ∷ []) × (count object (keys pending) ≡ 0))
  unfolding merge
  merge-keys [] {pending'} e =
      let same : (object, incoming) ∷ [] ≡ pending' = cc in inr (sym (ap keys same), refl)
  merge-keys ((k, existing) ∷ pending) {pending'} e = elim (Bool-cases (same_raw k object)) [
    | inl on ↦
        let (x, f, g) =
          map_ok-ok_inv (λ (x : PendingContent T.Carrier). (k, x) ∷ pending)
            (coalesce T existing incoming) (sym (ap (λ b. chosen b k existing pending) on) ∙ e) in
        inl (sym (ap keys g))
    | inr other ↦
        let (ps, f, g) =
          map_ok-ok_inv (λ (ps : Pending T.Carrier). (k, existing) ∷ ps)
            (merge T object incoming pending)
            (sym (ap (λ b. chosen b k existing pending) other) ∙ e) in
        elim (merge-keys pending f) [
          | inl h ↦ inl (sym (ap keys g) ∙ ap (λ ks. k ∷ ks) h)
          | inr (h, n) ↦ inr (
            sym (ap keys g) ∙ ap (λ ks. k ∷ ks) h,
            ap (λ b. if b then count object (keys pending) + 1 else count object (keys pending))
                  other
                ∙ n,
          )
        ]
  ]

  merge-Unique :
      (pending : Pending T.Carrier) {pending' : Pending T.Carrier}
      → merge T object incoming pending ≡ ok pending'
      → Unique pending
      → Unique pending'
  merge-Unique pending {pending'} e h key = elim (merge-keys pending e) [
    | inl same ↦ let n = ap (count key) same in let m = h key in omega arith
    | inr (same, new) ↦ elim (Bool-cases (same_raw object key)) [
      | inr off ↦
          let n =
            ap (count key) same
            ∙ count-snoc key object (keys pending)
            ∙ ap (λ b. if b then count key (keys pending) + 1 else count key (keys pending)) off in
          let m = h key in omega arith
      | inl on ↦
          let n =
            ap (count key) same
            ∙ count-snoc key object (keys pending)
            ∙ ap (λ b. if b then count key (keys pending) + 1 else count key (keys pending)) on in
          let m = ap (λ z. count z (keys pending)) (sym (same_raw_eq object key on)) ∙ new in
          omega arith
    ]
  ]

and_false : (b : Bool) → (b && false) ≡ false
and_false true = refl
and_false false = refl

-- One mark, for an object and for the others.
mark-content :
    (T : Times) (m : Mark T.Carrier) (key : RawHandle) (pending : Pending T.Carrier)
    {pending' : Pending T.Carrier}
    → mark T m.object m.content m.origin pending ≡ ok pending'
    → Unique pending
    → ((if same_raw m.object key && should_notify m.origin
          then absorb T m.content (find key pending)
          else ok (find key pending))
        ≡ ok (find key pending'))
      × Unique pending'
unfolding mark
mark-content T m key pending {pending'} e h = elim (Bool-cases (should_notify m.origin)) [
  | inr silent ↦
      let same : ok pending ≡ ok pending' =
        sym (ap (λ b. if b then merge T m.object m.content pending else ok pending) silent) ∙ e in
      let same : pending ≡ pending' = cc in
      (
        ap (λ b. gated b key m pending)
              (ap (λ b. same_raw m.object key && b) silent ∙ and_false (same_raw m.object key))
            ∙ ap (λ ps. ok (find key ps)) same,
        subst Unique same h,
      )
  | inl told ↦
      let merged : merge T m.object m.content pending ≡ ok pending' =
        sym (ap (λ b. if b then merge T m.object m.content pending else ok pending) told) ∙ e in
      (
        elim (Bool-cases (same_raw m.object key)) [
          | inr off ↦
              ap (λ b. gated b key m pending) (ap (λ b. b && should_notify m.origin) off)
              ∙ ap ok (sym (merge-find_other T m.object m.content key pending off merged))
          | inl on ↦
              ap (λ b. gated b key m pending) (ap (λ b. b && should_notify m.origin) on ∙ told)
              ∙ subst (λ z. absorb T m.content (find z pending) ≡ ok (find z pending'))
                  (same_raw_eq m.object key on) (merge-find T m.object m.content pending merged)
        ],
        merge-Unique T m.object m.content pending merged h,
      )
]
  where
    gated :
        Bool
        → RawHandle
        → Mark T.Carrier
        → Pending T.Carrier
        → Result AraError (Option (PendingContent T.Carrier))
    gated b key m pending =
        if b then absorb T m.content (find key pending) else ok (find key pending)

pub mark_all-from :
    (T : Times) (ms : List (Mark T.Carrier)) (key : RawHandle) (pending : Pending T.Carrier)
    {pending' : Pending T.Carrier}
    → mark_all T ms pending ≡ ok pending'
    → Unique pending
    → (content_of T key ms (find key pending) ≡ ok (find key pending')) × Unique pending'
mark_all-from T [] key pending e h =
    let same : pending ≡ _ = ok_same e in (ap (λ ps. ok (find key ps)) same, subst Unique same h)
  where
    ok_same :
        {a b : Pending T.Carrier}
        → ◌≡◌ {A = Result AraError (Pending T.Carrier)} (ok a) (ok b)
        → a ≡ b
    ok_same f = cc
mark_all-from T (m ∷ ms) key pending e h =
    let (next, f, g) = ok_bind (mark T m.object m.content m.origin pending) (mark_all T ms) e in
    let (one, h') = mark-content T m key pending f h in
    let (rest, h'') = mark_all-from T ms key next g h' in
    (ap (λ r. r >>= content_of T key ms) one ∙ rest, h'')
