-- ===== src/Plugin/Updates/Summary.antt =====
-- What is pending for an object, in terms of the marks that were made for it
-- (ara2-bridge-plugin/src/updates.rs).
use Prim.Native.Nat.{bit_and}
use ara2_bridge.Base.{
  ℕ, Bool, true, false, ◌&&◌, Option, some, none, List, [], ◌∷◌, if◌then◌else◌, ◌≤◌, ◌≡◌, refl, sym,
  ◌∙◌, ap, inl, inr, arith, Bool-cases,
}
use ara2_bridge.Errors.{Result, ok, err, map_ok, AraError, ◌>>=◌, ok_bind, map_ok-ok_inv}
use ara2_bridge.Registry.{RawHandle, same_raw}
use ara2_bridge.Plugin.Keys.{find, count}
use ara2_bridge.Plugin.Updates.{
  Times, ContentTimeRange, new_range, join_ranges, PendingContent, Pending, UpdateOrigin,
  application, host, restore, recovery, should_notify, coalesce,
}
use ara2_bridge.Plugin.Updates.Merging.{Mark, mark_all, absorb, content_of, keys, mark_all-from}

-- Whether the host has to hear of a change.
abbrev pub is_news : UpdateOrigin → Bool
is_news application = true
is_news recovery = true
is_news host = false
is_news restore = false

-- The contents of the marks of one object that the host has to hear of, in their order.
abbrev pub told : {A : Type 0} → RawHandle → List (Mark A) → List (PendingContent A)
told key [] = []
told key (m ∷ ms) =
    let rest = told key ms in
    if same_raw m.object key && is_news m.origin then m.content ∷ rest else rest

-- From the earlier start to the later end.
abbrev pub hull :
    (T : Times)
    → ContentTimeRange T.Carrier
    → ContentTimeRange T.Carrier
    → ContentTimeRange T.Carrier
hull T a b = record {
  start = T.min a.start b.start;
  duration =
      T.sub (T.max (T.add a.start a.duration) (T.add b.start b.duration)) (T.min a.start b.start);
}

-- The hull of a range and those of some contents; the whole object, if one of them is.
abbrev pub united :
    (T : Times)
    → Option (ContentTimeRange T.Carrier)
    → List (PendingContent T.Carrier)
    → Option (ContentTimeRange T.Carrier)
united T none cs = none
united T (some a) [] = some a
united T (some a) (c ∷ cs) = elim c.range [ none ↦ none | some b ↦ united T (some (hull T a b)) cs ]

-- The flags that all of them have.
abbrev pub common : {A : Type 0} → ℕ → List (PendingContent A) → ℕ
common flags [] = flags
common flags (c ∷ cs) = common (bit_and flags c.flags) cs

-- What is pending after some contents of one object.
abbrev pub summary :
    (T : Times) → List (PendingContent T.Carrier) → Option (PendingContent T.Carrier)
summary T [] = none
summary T (c ∷ cs) = some (record { range = united T c.range cs; flags = common c.flags cs })

news : (o : UpdateOrigin) → should_notify o ≡ is_news o
unfolding should_notify
news application = refl
news recovery = refl
news host = refl
news restore = refl

bind_cong :
    {A B : Type 0} (r : Result AraError A) (f g : A → Result AraError B)
    → ((a : A) → f a ≡ g a)
    → (r >>= f) ≡ (r >>= g)
bind_cong (ok a) f g h = h a
bind_cong (err x) f g h = refl

ok_inv : {A : Type 0} {a b : A} → ◌≡◌ {A = Result AraError A} (ok a) (ok b) → a ≡ b
ok_inv f = cc

module _ (T : Times) where
  abbrev absorb_all :
      List (PendingContent T.Carrier)
      → Option (PendingContent T.Carrier)
      → Result AraError (Option (PendingContent T.Carrier))
  absorb_all [] content = ok content
  absorb_all (c ∷ cs) content = absorb T c content >>= absorb_all cs

  content_of-told :
      (key : RawHandle) (ms : List (Mark T.Carrier)) (content : Option (PendingContent T.Carrier))
      → content_of T key ms content ≡ absorb_all (told key ms) content
  content_of-told key [] content = refl
  content_of-told key (m ∷ ms) content =
      let same : (same_raw m.object key && should_notify m.origin)
          ≡ (same_raw m.object key && is_news m.origin) =
        ap (λ b. same_raw m.object key && b) (news m.origin) in
      ap (λ b. (if b then absorb T m.content content else ok content) >>= content_of T key ms) same
      ∙ elim (Bool-cases (same_raw m.object key && is_news m.origin)) [
        | inl y ↦ rw y (
            bind_cong (absorb T m.content content) (content_of T key ms) (absorb_all (told key ms))
              (content_of-told key ms))
        | inr n ↦ rw n (content_of-told key ms content)
      ]

  join_ranges-ok_inv :
      (a b : Option (ContentTimeRange T.Carrier)) (cs : List (PendingContent T.Carrier)) (flags : ℕ)
      {r : Option (ContentTimeRange T.Carrier)}
      → join_ranges T a b ≡ ok r
      → united T r cs ≡ united T a (record { range = b; flags = flags } ∷ cs)
  unfolding join_ranges new_range
  join_ranges-ok_inv none b cs flags e =
      let same : none ≡ _ = cc in sym (ap (λ x. united T x cs) same)
  join_ranges-ok_inv (some a) none cs flags e =
      let same : none ≡ _ = cc in sym (ap (λ x. united T x cs) same)
  join_ranges-ok_inv (some a) (some b) cs flags {r} e =
      let (x, made, done) =
        ok_bind
          (new_range T (T.min a.start b.start) (
            T.sub (T.max (T.add a.start a.duration) (T.add b.start b.duration))
              (T.min a.start b.start)))
          (λ x. ok (some x)) e in
      let same : hull T a b ≡ x = made_range made in
      let last : some x ≡ r = cc in sym (ap (λ x. united T x cs) (ap some same ∙ last))
    where
      made_range :
          {s d : T.Carrier} {x : ContentTimeRange T.Carrier}
          → new_range T s d ≡ ok x
          → record { start = s; duration = d } ≡ x
      made_range f = ground arith

  united-nil : (r : Option (ContentTimeRange T.Carrier)) → united T r [] ≡ r
  united-nil none = refl
  united-nil (some a) = refl

  coalesce-ok_inv :
      (c d : PendingContent T.Carrier) {c' : PendingContent T.Carrier}
      → coalesce T c d ≡ ok c'
      → (r : Option (ContentTimeRange T.Carrier)) × (join_ranges T c.range d.range ≡ ok r)
        × (record { range = r; flags = bit_and c.flags d.flags } ≡ c')
  unfolding coalesce
  coalesce-ok_inv c d e =
      let (r, f, g) =
        ok_bind (join_ranges T c.range d.range)
          (λ r. ok (record { range = r; flags = bit_and c.flags d.flags })) e in
      (r, f, ok_inv g)

  absorb_all-summary :
      (c : PendingContent T.Carrier) (cs : List (PendingContent T.Carrier))
      {out : Option (PendingContent T.Carrier)}
      → absorb_all cs (some c) ≡ ok out
      → summary T (c ∷ cs) ≡ out
  absorb_all-summary c [] e =
      ap (λ r. some (record { range = r; flags = c.flags })) (united-nil c.range) ∙ ok_inv e
  absorb_all-summary c (d ∷ cs) e =
      let (o, f, g) = ok_bind (map_ok some (coalesce T c d)) (absorb_all cs) e in
      let (c', made, same) = map_ok-ok_inv some (coalesce T c d) f in
      let (r, joined, content) = coalesce-ok_inv c d made in
      let rest : absorb_all cs (some c') ≡ ok _ = ap (absorb_all cs) same ∙ g in
      ap (λ u. some (record { range = u; flags = common (bit_and c.flags d.flags) cs }))
        (sym (join_ranges-ok_inv c.range d.range cs d.flags joined))
      ∙ ap (λ x. summary T (x ∷ cs)) content
      ∙ absorb_all-summary c' cs rest

  absorb_all-told :
      (cs : List (PendingContent T.Carrier)) {out : Option (PendingContent T.Carrier)}
      → absorb_all cs none ≡ ok out
      → summary T cs ≡ out
  absorb_all-told [] e = ok_inv e
  absorb_all-told (c ∷ cs) e = absorb_all-summary c cs e

-- When any marks of one category succeed, from an empty queue on, each object is pending at most
-- once, and its content is that of its own marks of the application and of a recovery, in their
-- order: nothing if there are none, else the range from the earlier start to the later end, again
-- and again, or the whole object if one of them is of the whole, and the flags that all have.
pub mark_all-content :
    (T : Times) (ms : List (Mark T.Carrier)) (key : RawHandle) {pending : Pending T.Carrier}
    → mark_all T ms [] ≡ ok pending
    → (find key pending ≡ summary T (told key ms)) × (count key (keys pending) ≤ 1)
mark_all-content T ms key e =
    let (content, unique) = mark_all-from T ms key [] e (λ k. omega arith) in
    (
      sym (absorb_all-told T (told key ms) (sym (content_of-told T key ms none) ∙ content)),
      unique key,
    )
