-- ===== src/Content/Sequences.antt =====
-- Which sequences of content events pass their checks.
use ara2_bridge.Base.{
  Bool, true, false, not, ◌||◌, List, length, leb, ◌≡◌, refl, sym, ap, ◌∙◌, String, ◌↔◌, ◌≤◌, arith,
}
use ara2_bridge.Errors.{ok, guard, AraError, invalid_argument, ok_bind, guard_bind, ◌>>=◌}
use ara2_bridge.Content.{
  Reals, TempoEvent, BarSignatureEvent, each_pair, new_tempo, new_bar_signature, finite, tempo_pair,
  tempo_count, tempo_sequence, on_bar,
}
use ara2_bridge.Processing.{ℤ}
use ara2_bridge.Content.Ordered.{Each, Before, each_pair_iff, Adjacent-Before}

-- Whether a pair is refused by one test or another.
neither_iff :
    (a b : Bool) (e : AraError) → (guard (not (a || b)) e ≡ ok tt) ↔ ((a ≡ false) × (b ≡ false))
neither_iff true b e = (λ f. cc, λ (f, _). cc)
neither_iff false true e = (λ f. cc, λ (_, f). cc)
neither_iff false false e = (λ _. (refl, refl), λ _. refl)

module _ (F : Reals) where
  -- An event that its constructor gave.
  abbrev pub TempoMade : TempoEvent F.Carrier → Type 0
  TempoMade e = (t : F.Carrier) × (q : F.Carrier) × (new_tempo F t q ≡ ok e)

  abbrev pub BarMade : BarSignatureEvent F.Carrier → Type 0
  BarMade e = (n : ℤ) × (d : ℤ) × (p : F.Carrier) × (new_bar_signature F n d p ≡ ok e)

  abbrev pub TempoIncreases : TempoEvent F.Carrier → TempoEvent F.Carrier → Type 0
  TempoIncreases a b =
      (F.is_ge a.time_position b.time_position ≡ false)
      × (F.is_ge a.quarter_position b.quarter_position ≡ false)

  abbrev pub BarIncreases : BarSignatureEvent F.Carrier → BarSignatureEvent F.Carrier → Type 0
  BarIncreases a b = F.is_ge a.position b.position ≡ false

  abbrev pub OnBar : BarSignatureEvent F.Carrier → BarSignatureEvent F.Carrier → Type 0
  OnBar a b = on_bar F a b ≡ true

  finite-ok_inv :
      (value : F.Carrier) (field : String) {v : F.Carrier}
      → finite F value field ≡ ok v
      → F.is_finite v ≡ true
  unfolding finite
  finite-ok_inv value field e =
      let (to, from) = guard_bind (F.is_finite value) (invalid_argument field) (ok value) in
      let (test, same) = to e in cc

  TempoMade-finite :
      (e : TempoEvent F.Carrier)
      → TempoMade e
      → (F.is_finite e.time_position ≡ true) × (F.is_finite e.quarter_position ≡ true)
  unfolding new_tempo
  TempoMade-finite e (time, quarter, made) =
      let (t, first, made) =
        ok_bind (finite F time "tempo time is not finite")
          (λ t. do
            q ← finite F quarter "tempo quarter is not finite"
            ok (record { time_position = t; quarter_position = q }))
          made in
      let (q, second, made) =
        ok_bind (finite F quarter "tempo quarter is not finite")
          (λ q. ok (record { time_position = t; quarter_position = q })) made in
      let same : record { time_position = t; quarter_position = q } ≡ e = cc in
      (
        sym (ap (λ e. F.is_finite e.time_position) same)
            ∙ finite-ok_inv time "tempo time is not finite" first,
        sym (ap (λ e. F.is_finite e.quarter_position) same)
            ∙ finite-ok_inv quarter "tempo quarter is not finite" second,
      )

  tempo_pair_iff : (a b : TempoEvent F.Carrier) → (tempo_pair F a b ≡ ok tt) ↔ TempoIncreases a b
  unfolding tempo_pair
  tempo_pair_iff a b =
      neither_iff (F.is_ge a.time_position b.time_position)
        (F.is_ge a.quarter_position b.quarter_position)
        (invalid_argument "tempo positions must increase strictly")

  -- Where the order of finite positions is transitive, a sequence of tempo events that the
  -- constructor made passes its check exactly when it has two events at least and each event comes
  -- before all later ones, in time and in quarters.
  pub tempo_sequence_iff :
      ((a b c : F.Carrier)
        → F.is_finite a ≡ true
        → F.is_finite b ≡ true
        → F.is_finite c ≡ true
        → F.is_ge a b ≡ false
        → F.is_ge b c ≡ false
        → F.is_ge a c ≡ false)
      → (events : List (TempoEvent F.Carrier)) → Each TempoMade events
      → (tempo_sequence F events ≡ ok tt) ↔ ((2 ≤ length events) × Before TempoIncreases events)
  unfolding tempo_sequence tempo_count
  tempo_sequence_iff trans events made =
      let message : AraError = invalid_argument "tempo content requires at least two events" in
      let (to1, from1) =
        guard_bind (leb 2 (length events)) message (each_pair (tempo_pair F) events) {a = tt} in
      let (to2, from2) = each_pair_iff (tempo_pair F) TempoIncreases events tempo_pair_iff in
      let (to3, from3) =
        Adjacent-Before TempoMade TempoIncreases
          (λ a b c p q r (x1, x2) (y1, y2).
            let (p1, p2) = TempoMade-finite a p in
            let (q1, q2) = TempoMade-finite b q in
            let (r1, r2) = TempoMade-finite c r in
            (
              trans a.time_position b.time_position c.time_position p1 q1 r1 x1 y1,
              trans a.quarter_position b.quarter_position c.quarter_position p2 q2 r2 x2 y2,
            ))
          events made in
      (
        λ e. let (n, rest) = to1 e in (ground arith, to3 (to2 rest)),
        λ (n, rest). from1 (ground arith, from2 (from3 rest)),
      )
