-- ===== src/Processing/Catalogs.antt =====
-- What an index of a catalog gives.
use ara2_bridge.Base.{
  ℕ, zero, suc, Bool, true, false, not, ◌||◌, Option, some, none, List, [], ◌∷◌, length, get_elem?,
  ◌==◌, ◌≡◌, refl, sym, ap, ◌∙◌, ◌<◌, arith, get_elem?-lt, if◌then◌else◌,
}
use ara2_bridge.Base.Bytes.{same_bytes, same_bytes_comm}
use ara2_bridge.Base.Distinct.{is_in, repeats, Distinct, repeats-Distinct}
use ara2_bridge.Errors.{ok, ok_or, guard_bind, not-true_iff, invalid_argument}
use ara2_bridge.Processing.{
  ℤ, pos, negsuc, ProcessingAlgorithmProperties, Catalog, ids, new_catalog, get_algorithm,
}

new_catalog-ok_inv :
    (entries : Catalog) {c : Catalog}
    → new_catalog entries ≡ ok c
    → (c ≡ entries) × Distinct same_bytes (ids entries)
unfolding new_catalog
new_catalog-ok_inv entries e =
    let (distinct, e) =
      (guard_bind (not (repeats same_bytes [] (ids entries)))
          (invalid_argument "duplicate processing algorithm ID") (ok entries)).0
        e in
    (
      cc,
      (repeats-Distinct same_bytes same_bytes_comm (ids entries)).0
          ((not-true_iff (repeats same_bytes [] (ids entries))).0 distinct),
    )

same_bytes_self : (xs : List ℕ) → same_bytes xs xs ≡ true
same_bytes_self [] = refl
same_bytes_self (x ∷ xs) =
    let same : (x == x) ≡ true = ground arith in
    ap (λ b. if b then same_bytes xs xs else false) same ∙ same_bytes_self xs

-- An entry's identifier is among the catalog's.
is_in-ids :
    (entries : Catalog) (i : ℕ) (x : ProcessingAlgorithmProperties) (id : List ℕ)
    → get_elem? entries i ≡ some x
    → id ≡ x.persistent_id
    → is_in same_bytes id (ids entries) ≡ true
is_in-ids [] i x id at e = cc
is_in-ids (y ∷ entries) zero x id at e =
    let same : y ≡ x = cc in
    let self : same_bytes id y.persistent_id ≡ true =
      ap (λ z. same_bytes id z) (ap (λ z. z.persistent_id) same ∙ sym e) ∙ same_bytes_self id in
    ap (λ b. b || is_in same_bytes id (ids entries)) self
is_in-ids (y ∷ entries) (suc i) x id at e =
    let rest = is_in-ids entries i x id at e in
    ap (λ b. same_bytes id y.persistent_id || b) rest ∙ or_true (same_bytes id y.persistent_id)
  where
    or_true : (b : Bool) → (b || true) ≡ true
    or_true true = refl
    or_true false = refl

Distinct-index :
    (entries : Catalog) (i j : ℕ) (x y : ProcessingAlgorithmProperties)
    → Distinct same_bytes (ids entries)
    → get_elem? entries i ≡ some x
    → get_elem? entries j ≡ some y
    → x.persistent_id ≡ y.persistent_id
    → i ≡ j
Distinct-index [] i j x y d e f same = cc
Distinct-index (z ∷ entries) zero zero x y d e f same = refl
Distinct-index (z ∷ entries) zero (suc j) x y (new, d) e f same =
    let z_is : z ≡ x = cc in
    let found = is_in-ids entries j y z.persistent_id f (ap (λ w. w.persistent_id) z_is ∙ same) in
    let no : false ≡ true = sym new ∙ found in cc
Distinct-index (z ∷ entries) (suc i) zero x y (new, d) e f same =
    let z_is : z ≡ y = cc in
    let found =
      is_in-ids entries i x z.persistent_id e (ap (λ w. w.persistent_id) z_is ∙ sym same) in
    let no : false ≡ true = sym new ∙ found in cc
Distinct-index (z ∷ entries) (suc i) (suc j) x y (new, d) e f same =
    ap suc (Distinct-index entries i j x y d e f same)

get_algorithm-ok_inv :
    (index : ℤ) (entries : Catalog) {x : ProcessingAlgorithmProperties}
    → get_algorithm index entries ≡ ok x
    → (k : ℕ) × (index ≡ pos k) × (get_elem? entries k ≡ some x)
unfolding get_algorithm
get_algorithm-ok_inv (pos k) entries {x} e = (k, refl, given (get_elem? entries k) e)
  where
    given :
        (o : Option ProcessingAlgorithmProperties)
        → ok_or o (invalid_argument "processing algorithm index is out of bounds") ≡ ok x
        → o ≡ some x
    given none f = cc
    given (some y) f = cc
get_algorithm-ok_inv (negsuc k) entries e = cc

-- In a catalog that was made with success, an index that gives an algorithm is not negative and
-- below the number of entries, and indices that give algorithms with the same identifier are equal.
pub get_algorithm-index :
    (entries : Catalog) {c : Catalog} (i j : ℤ) {x y : ProcessingAlgorithmProperties}
    → new_catalog entries ≡ ok c
    → get_algorithm i c ≡ ok x
    → get_algorithm j c ≡ ok y
    → x.persistent_id ≡ y.persistent_id
    → (i ≡ j) × ((k : ℕ) × (i ≡ pos k) × (k < length entries))
get_algorithm-index entries {c} i j {x} {y} made e f same =
    let (c_is, distinct) = new_catalog-ok_inv entries made in
    let (k, i_is, at) = get_algorithm-ok_inv i c e in
    let (m, j_is, at') = get_algorithm-ok_inv j c f in
    let here : get_elem? entries k ≡ some x = sym (ap (λ z. get_elem? z k) c_is) ∙ at in
    let here' : get_elem? entries m ≡ some y = sym (ap (λ z. get_elem? z m) c_is) ∙ at' in
    let k_is = Distinct-index entries k m x y distinct here here' same in
    (i_is ∙ ap pos k_is ∙ sym j_is, (k, i_is, get_elem?-lt entries k here))
