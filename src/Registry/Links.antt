-- ===== src/Registry/Links.antt =====
-- Referential integrity between two registries (registry.rs): every edge of a live value leads to a
-- live cell, and what keeps it so.
use ara2_bridge.Base.{ℕ, Option, none, some, ◌≡◌, refl, sym, subst, inl, inr, ◌≢◌, ap, ◌∙◌}
use ara2_bridge.Errors.{ok}
use ara2_bridge.Registry.{Kind, Handle, Registry, insert, get, modify, remove}
use ara2_bridge.Registry.Lookup.{get-insert_inv, get-insert_fresh, get-modify_inv, get-remove_inv}
use ara2_bridge.Registry.Refs.{IsLive, insert-IsLive, modify-IsLive, remove-IsLive}

-- An edge leads to a live cell if it leads anywhere.
abbrev pub Points : {K : Kind} {T : Type 0} → Option (Handle K) → Registry K T → Type 0
Points none r = Unit {0}
Points (some h) r = IsLive h r

-- What carries an edge from one registry to another.
Points-map :
    {K : Kind} {T : Type 0} (o : Option (Handle K)) (r r' : Registry K T)
    → ((h : Handle K) → o ≡ some h → IsLive h r → IsLive h r')
    → Points o r
    → Points o r'
Points-map none r r' go p = tt
Points-map (some h) r r' go p = go h refl p

-- No live value of `r` has an edge to `h`.
abbrev pub NoRef :
    {K : Kind} {T : Type 0} {J : Kind} → (T → Option (Handle J)) → Registry K T → Handle J → Type 0
NoRef {K} {T} edge r h = (k : Handle K) (w : T) → get k r ≡ ok w → edge w ≢ some h

module _ {K : Kind} {T : Type 0} {J : Kind} {U : Type 0} (edge : T → Option (Handle J)) where
  -- Every edge of the live values of `r` leads into `t`.
  abbrev pub Refs : Registry K T → Registry J U → Type 0
  Refs r t = (k : Handle K) (w : T) → get k r ≡ ok w → Points (edge w) t

  pub Refs-insert :
      (a : ℕ) (v : T) (r : Registry K T) (t : Registry J U) {h : Handle K} {r' : Registry K T}
      → insert a v r ≡ ok (h, r')
      → Points (edge v) t
      → Refs r t
      → Refs r' t
  Refs-insert a v r t e new old k w live = elim (get-insert_inv a v r k e live) [
    | inl q ↦ old k w q
    | inr (_, q) ↦ subst (λ x. Points (edge x) t) (sym q) new
  ]

  pub Refs-modify :
      (h : Handle K) (f : T → T) (r : Registry K T) (t : Registry J U) {r' : Registry K T}
      → modify h f r ≡ ok r'
      → ((u : T) → get h r ≡ ok u → Points (edge (f u)) t)
      → Refs r t
      → Refs r' t
  Refs-modify h f r t e new old k w live = elim (get-modify_inv h f r k e live) [
    | inl (_, q) ↦ old k w q
    | inr (_, (u, q, p)) ↦ subst (λ x. Points (edge x) t) (sym p) (new u q)
  ]

  -- A write that keeps the edge.
  pub Refs-modify_same :
      (h : Handle K) (f : T → T) (r : Registry K T) (t : Registry J U) {r' : Registry K T}
      → modify h f r ≡ ok r'
      → ((u : T) → edge (f u) ≡ edge u)
      → Refs r t
      → Refs r' t
  Refs-modify_same h f r t e same old =
      Refs-modify h f r t e (λ u q. subst (λ x. Points x t) (sym (same u)) (old h u q)) old

  pub Refs-remove :
      (h : Handle K) (r : Registry K T) (t : Registry J U) {v : T} {r' : Registry K T}
      → remove h r ≡ ok (v, r')
      → Refs r t
      → Refs r' t
  Refs-remove h r t e old k w live = old k w (get-remove_inv h r k e live).1

  pub Refs-insert_target :
      (a : ℕ) (u : U) (r : Registry K T) (t : Registry J U) {h : Handle J} {t' : Registry J U}
      → insert a u t ≡ ok (h, t')
      → Refs r t
      → Refs r t'
  Refs-insert_target a u r t {t' = t'} e old k w live =
      Points-map (edge w) t t' (λ x _. insert-IsLive a u t x e) (old k w live)

  pub Refs-modify_target :
      (h : Handle J) (f : U → U) (r : Registry K T) (t : Registry J U) {t' : Registry J U}
      → modify h f t ≡ ok t'
      → Refs r t
      → Refs r t'
  Refs-modify_target h f r t {t' = t'} e old k w live =
      Points-map (edge w) t t' (λ x _. modify-IsLive h f t x e) (old k w live)

  pub Refs-remove_target :
      (h : Handle J) (r : Registry K T) (t : Registry J U) {u : U} {t' : Registry J U}
      → remove h t ≡ ok (u, t')
      → NoRef edge r h
      → Refs r t
      → Refs r t'
  Refs-remove_target h r t {t' = t'} e unused old k w live =
      Points-map (edge w) t t' (λ x p. remove-IsLive h t x e (λ q. unused k w live (p ∙ ap some q)))
        (old k w live)

  -- A record that was just inserted is not referred to, since every edge led to an older cell.
  pub fresh-NoRef :
      (a : ℕ) (u : U) (r : Registry K T) (t : Registry J U) {h : Handle J} {t' : Registry J U}
      → insert a u t ≡ ok (h, t')
      → Refs r t
      → NoRef edge r h
  fresh-NoRef a u r t {h} e old k w live p =
      let (v, there) : IsLive h t = subst (λ x. Points x t) p (old k w live) in
      get-insert_fresh a u t e there
