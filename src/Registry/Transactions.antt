-- ===== src/Registry/Transactions.antt =====
-- An insertion that is completed by a write, or taken back by a removal (registry.rs).
use ara2_bridge.Base.{ℕ, ◌≡◌, ◌≢◌, ◌↔◌, inl, inr, subst, arith}
use ara2_bridge.Errors.{ok}
use ara2_bridge.Registry.{
  RegistryCell, Kind, Handle, Registry, insert, get, modify, remove, opaque_pointer,
}
use ara2_bridge.Base.{get_elem?-append_end, some}
use ara2_bridge.Registry.Laws.{insert-ok_inv, remove_of_get, modify_of_get}
use ara2_bridge.Registry.Lookup.{
  get-insert_self, get-insert_old, get-insert_inv, get-insert_fresh, get-modify_inv, get-modify_ne,
  get-modify_self, get-remove_inv, get-remove_ne,
}

module _ {K : Kind} {T : Type 0} where
  pub insert-opaque_pointer :
      (a : ℕ) (v : T) (r : Registry K T) {h : Handle K} {q : Registry K T}
      → insert a v r ≡ ok (h, q)
      → opaque_pointer h q ≡ ok a
  unfolding opaque_pointer
  insert-opaque_pointer a v r {h} {q} e =
      let c : RegistryCell T = record { address = a; content = some v } in
      let (next, after, _) = insert-ok_inv a v r e in ground (arith, get_elem?-append_end r.cells c)

  -- The same handles are live, with the same values.
  abbrev pub SameLive : Registry K T → Registry K T → Type 0
  SameLive r r' = (k : Handle K) (w : T) → (get k r' ≡ ok w) ↔ (get k r ≡ ok w)

  -- The handle is new and has the value; the other handles are as before.
  abbrev pub Added : Handle K → T → Registry K T → Registry K T → Type 0
  Added h v r r' =
      (get h r' ≡ ok v)
      × ((w : T) → get h r ≢ ok w)
      × ((k : Handle K) (w : T) → k ≢ h → (get k r' ≡ ok w) ↔ (get k r ≡ ok w))

  pub insert-remove :
      (a : ℕ) (v : T) (r : Registry K T) {h : Handle K} {q : Registry K T}
      → insert a v r ≡ ok (h, q)
      → (r' : Registry K T) × (remove h q ≡ ok (v, r')) × SameLive r r'
  insert-remove a v r {h} {q} e =
      let (r', removed) = remove_of_get h q (get-insert_self a v r e) in
      (
        r',
        removed,
        λ k w. (
          (λ g.
              let (n, f) = get-remove_inv h q k removed g in
              elim (get-insert_inv a v r k e f) [
                | inl old ↦ old
                | inr (same, _) ↦ absurd (n same)
              ]),
          (λ g.
              get-remove_ne h q k removed
                (λ same. get-insert_fresh a v r e (subst (λ x. get x r ≡ ok w) same g))
                (get-insert_old a v r k e g)),
        ),
      )

  pub insert-modify :
      (a : ℕ) (v : T) (f : T → T) (r : Registry K T) {h : Handle K} {q : Registry K T}
      → insert a v r ≡ ok (h, q)
      → (r' : Registry K T) × (modify h f q ≡ ok r') × Added h (f v) r r'
  insert-modify a v f r {h} {q} e =
      let (r', written) = modify_of_get h f q (get-insert_self a v r e) in
      (
        r',
        written,
        (
          get-modify_self h f q written (get-insert_self a v r e),
          (λ w live. get-insert_fresh a v r e live),
          λ k w n. (
            (λ g. elim (get-modify_inv h f q k written g) [
              | inl (_, old) ↦ elim (get-insert_inv a v r k e old) [
                | inl o ↦ o
                | inr (same, _) ↦ absurd (n same)
              ]
              | inr (same, _) ↦ absurd (n same)
            ]),
            (λ g. get-modify_ne h f q k written n (get-insert_old a v r k e g)),
          ),
        ),
      )
