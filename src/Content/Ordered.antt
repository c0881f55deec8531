-- ===== src/Content/Ordered.antt =====
-- Tests of neighbours that say how all events of content stand to each other.
use ara2_bridge.Base.{List, [], ◌∷◌, ◌≡◌, refl, ◌↔◌}
use ara2_bridge.Errors.{Result, ok, err, AraError, ok_bind, ◌>>◌}
use ara2_bridge.Content.{each_pair}

both :
    (m : Result AraError (Unit {0})) {k : Result AraError (Unit {0})}
    → m ≡ ok tt
    → k ≡ ok tt
    → (m >> k) ≡ ok tt
both (ok _) e f = f
both (err _) e f = cc

module _ {ℓ} {A : Type ℓ} where
  abbrev pub Each : (A → Type 0) → List A → Type 0
  Each P [] = Unit
  Each P (a ∷ es) = P a × Each P es

  -- Each event stands so to the next.
  abbrev pub Adjacent : (A → A → Type 0) → List A → Type 0
  Adjacent R [] = Unit
  Adjacent R (a ∷ []) = Unit
  Adjacent R (a ∷ b ∷ es) = R a b × Adjacent R (b ∷ es)

  -- Each event stands so to all later ones.
  abbrev pub Before : (A → A → Type 0) → List A → Type 0
  Before R [] = Unit
  Before R (a ∷ es) = Each (R a) es × Before R es

  pub each_pair_iff :
      (check : A → A → Result AraError (Unit {0})) (R : A → A → Type 0) (es : List A)
      → ((a b : A) → (check a b ≡ ok tt) ↔ R a b)
      → (each_pair check es ≡ ok tt) ↔ Adjacent R es
  each_pair_iff check R [] h = (λ _. tt, λ _. refl)
  each_pair_iff check R (a ∷ []) h = (λ _. tt, λ _. refl)
  each_pair_iff check R (a ∷ b ∷ es) h =
      let (to, from) = each_pair_iff check R (b ∷ es) h in
      (
        λ e.
            let (_, first, rest) = ok_bind (check a b) (λ _. each_pair check (b ∷ es)) e in
            ((h a b).0 first, to rest),
        λ (first, rest). both (check a b) ((h a b).1 first) (from rest),
      )

  pub Adjacent-Both :
      (R S : A → A → Type 0) (es : List A)
      → Adjacent (λ a b. R a b × S a b) es ↔ (Adjacent R es × Adjacent S es)
  Adjacent-Both R S [] = (λ _. (tt, tt), λ _. tt)
  Adjacent-Both R S (a ∷ []) = (λ _. (tt, tt), λ _. tt)
  Adjacent-Both R S (a ∷ b ∷ es) =
      let (to, from) = Adjacent-Both R S (b ∷ es) in
      (
        λ ((r, s), rest). let (rs, ss) = to rest in ((r, rs), (s, ss)),
        λ ((r, rs), (s, ss)). ((r, s), from (rs, ss)),
      )

  module _ (P : A → Type 0) (R : A → A → Type 0)
      (trans : (a b c : A) → P a → P b → P c → R a b → R b c → R a c) where
    later : (a b : A) (es : List A) → P a → P b → Each P es → R a b → Each (R b) es → Each (R a) es
    later a b [] p q ps r rs = tt
    later a b (c ∷ es) p q (s, ps) r (t, rs) = (trans a b c p q s r t, later a b es p q ps r rs)

    pub Adjacent-Before : (es : List A) → Each P es → Adjacent R es ↔ Before R es
    Adjacent-Before [] ps = (λ _. tt, λ _. tt)
    Adjacent-Before (a ∷ []) ps = (λ _. (tt, tt), λ _. tt)
    Adjacent-Before (a ∷ b ∷ es) (p, (q, ps)) =
        let (to, from) = Adjacent-Before (b ∷ es) (q, ps) in
        (
          λ (r, rest).
              let (each, before) = to rest in ((r, later a b es p q ps r each), (each, before)),
          λ ((r, _), rest). (r, from rest),
        )
