-- ===== src/Base/Distinct.antt =====
-- Lists without repetition, and the Boolean scan that keeps a set of what it has seen.
use mathlib.Core.Path.{◌≡◌, refl, ◌∙◌}
use mathlib.Core.Logic.{◌↔◌}
use mathlib.Core.Bool.{Bool, true, false, ◌||◌}
use mathlib.Core.List.{List, [], ◌∷◌}

module _ {A : Type 0} (same : A → A → Bool) where
  -- `contains` of a list or a set.
  abbrev pub is_in : A → List A → Bool
  is_in x [] = false
  is_in x (y ∷ ys) = same x y || is_in x ys

  -- Whether an insertion into the set of what was seen fails at some element.
  abbrev pub repeats : List A → List A → Bool
  repeats seen [] = false
  repeats seen (x ∷ xs) = is_in x seen || repeats (x ∷ seen) xs

  abbrev pub Distinct : List A → Type 0
  Distinct [] = Unit
  Distinct (x ∷ xs) = (is_in x xs ≡ false) × Distinct xs

  -- No element of the second list is in the first.
  abbrev pub Apart : List A → List A → Type 0
  Apart seen [] = Unit
  Apart seen (x ∷ xs) = (is_in x seen ≡ false) × Apart seen xs

pub or_false_iff : (a b : Bool) → ((a || b) ≡ false) ↔ ((a ≡ false) × (b ≡ false))
or_false_iff true b = (λ e. cc, λ (e, f). e)
or_false_iff false b = (λ e. (refl, e), λ (e, f). f)

module _ {A : Type 0} (same : A → A → Bool) (same_comm : (x y : A) → same x y ≡ same y x) where
  Apart-cons :
      (x : A) (seen xs : List A)
      → Apart same (x ∷ seen) xs ↔ ((is_in same x xs ≡ false) × Apart same seen xs)
  Apart-cons x seen [] = (λ _. (refl, tt), λ _. tt)
  Apart-cons x seen (y ∷ ys) =
      let (to, from) = Apart-cons x seen ys in
      let (split, join) = or_false_iff (same y x) (is_in same y seen) in
      let (split', join') = or_false_iff (same x y) (is_in same x ys) in
      (
        λ (e, rest).
            let (off, new) = split e in
            let (fresh, apart) = to rest in (join' (same_comm x y ∙ off, fresh), (new, apart)),
        λ (e, (new, apart)).
            let (off, fresh) = split' e in (join (same_comm y x ∙ off, new), from (fresh, apart)),
      )

  repeats-false :
      (seen xs : List A) → (repeats same seen xs ≡ false) ↔ (Apart same seen xs × Distinct same xs)
  repeats-false seen [] = (λ _. (tt, tt), λ _. refl)
  repeats-false seen (x ∷ xs) =
      let (to, from) = repeats-false (x ∷ seen) xs in
      let (split, join) = or_false_iff (is_in same x seen) (repeats same (x ∷ seen) xs) in
      let (spread, gather) = Apart-cons x seen xs in
      (
        λ e.
            let (new, rest) = split e in
            let (apart, distinct) = to rest in
            let (fresh, apart') = spread apart in ((new, apart'), (fresh, distinct)),
        λ ((new, apart), (fresh, distinct)). join (new, from (gather (fresh, apart), distinct)),
      )

  nothing_seen : (xs : List A) → Apart same [] xs
  nothing_seen [] = tt
  nothing_seen (x ∷ xs) = (refl, nothing_seen xs)

  -- The scan that starts with nothing seen fails exactly on a repetition.
  pub repeats-Distinct : (xs : List A) → (repeats same [] xs ≡ false) ↔ Distinct same xs
  repeats-Distinct xs =
      (λ e. ((repeats-false [] xs).0 e).1, λ d. (repeats-false [] xs).1 (nothing_seen xs, d))
