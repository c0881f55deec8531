-- ===== src/Processing/Licenses.antt =====
-- Which license requests are made.
use ara2_bridge.Base.{
  ℕ, Bool, true, false, not, List, [], ◌∷◌, any, ◌==◌, ◌≡◌, refl, sym, ap, ◌↔◌, arith,
}
use ara2_bridge.Base.Distinct.{is_in, repeats, Distinct, or_false_iff, repeats-Distinct}
use ara2_bridge.Errors.{
  Result, ok, guard, guard_bind, not-true_iff, AraError, invalid_argument, ◌>>◌,
}
use ara2_bridge.Processing.{LicenseCapabilities, LicenseRequest, new_request, same_type, complement}
use Prim.Native.Nat.{bit_and}

-- Every content type is one of the supported.
abbrev pub AllIn : List ℕ → List ℕ → Type 0
AllIn supported [] = Unit
AllIn supported (t ∷ ts) = (is_in same_type t supported ≡ true) × AllIn supported ts

not-false_iff : (b : Bool) → (not b ≡ false) ↔ (b ≡ true)
not-false_iff true = (λ e. refl, λ e. refl)
not-false_iff false = (λ e. cc, λ e. cc)

same_type_comm : (a b : ℕ) → same_type a b ≡ same_type b a
same_type_comm a b = ground arith

all_supported :
    (supported ts : List ℕ)
    → (any (λ t. not (is_in same_type t supported)) ts ≡ false) ↔ AllIn supported ts
all_supported supported [] = (λ _. tt, λ _. refl)
all_supported supported (t ∷ ts) =
    let (to, from) = all_supported supported ts in
    let (split, join) =
      or_false_iff (not (is_in same_type t supported))
        (any (λ t. not (is_in same_type t supported)) ts) in
    (
      λ e. let (a, b) = split e in ((not-false_iff (is_in same_type t supported)).0 a, to b),
      λ (a, b). join ((not-false_iff (is_in same_type t supported)).1 a, from b),
    )

pub new_request_iff :
    (modal : Bool) (types : List ℕ) (flags : ℕ) (c : LicenseCapabilities) (r : LicenseRequest)
    → (new_request modal types flags c ≡ ok r) ↔ (
        (r
          ≡ record { run_modal_activation = modal; content_types = types; transformations = flags })
        × Distinct same_type types
        × AllIn c.content_types types
        × ((bit_and flags (complement c.transformations) == 0) ≡ true))
unfolding new_request
new_request_iff modal types flags c r =
    let request : LicenseRequest = record {
      run_modal_activation = modal;
      content_types = types;
      transformations = flags;
    } in
    let foreign : Bool = any (λ t. not (is_in same_type t c.content_types)) types in
    let subset : Bool = bit_and flags (complement c.transformations) == 0 in
    let twice : AraError = invalid_argument "license request contains duplicate content types" in
    let unknown : AraError = invalid_argument "license content request is not supported" in
    let excess : AraError = invalid_argument "license transformation request is not supported" in
    let k3 : Result AraError LicenseRequest = guard subset excess >> ok request in
    let k2 : Result AraError LicenseRequest = guard (not foreign) unknown >> k3 in
    let (to1, from1) = guard_bind (not (repeats same_type [] types)) twice k2 {a = r} in
    let (to2, from2) = guard_bind (not foreign) unknown k3 {a = r} in
    let (to3, from3) = guard_bind subset excess (ok request) {a = r} in
    let (to4, from4) = repeats-Distinct same_type same_type_comm types in
    let (to5, from5) = all_supported c.content_types types in
    (
      λ e.
          let (a, e) = to1 e in
          let (b, e) = to2 e in
          let (d, e) = to3 e in
          let same : request ≡ r = cc in
          (
            sym same,
            to4 ((not-true_iff (repeats same_type [] types)).0 a),
            to5 ((not-true_iff foreign).0 b),
            d,
          ),
      λ (same, a, b, d). from1 (
        (not-true_iff (repeats same_type [] types)).1 (from4 a),
        from2 ((not-true_iff foreign).1 (from5 b), from3 (d, ap ok (sym same))),
      ),
    )
