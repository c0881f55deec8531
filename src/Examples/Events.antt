-- ===== src/Examples/Events.antt =====
-- Concrete content events, over natural numbers in place of floats.
use ara2_bridge.Base.{
  ℕ, true, false, List, [], ◌∷◌, length, ltb, leb, ◌≡◌, refl, ◌↔◌, ◌≤◌, ◌-◌, ◌/◌, ◌%◌, arith,
}
use ara2_bridge.Errors.{ok, err, invalid_argument}
use ara2_bridge.Processing.{ℤ, pos, negsuc}
use ara2_bridge.Content.{
  Reals, TempoEvent, BarSignatureEvent, new_tempo, tempo_sequence, bar_signature_sequence,
}
use ara2_bridge.Content.Ordered.{Each, Before}
use ara2_bridge.Content.Sequences.{TempoMade, TempoIncreases, tempo_sequence_iff}

abbrev magnitude : ℤ → ℕ
magnitude (pos n) = n
magnitude (negsuc n) = 0

-- Whole numbers, all below 1000 finite.
abbrev naturals : Reals
naturals = record {
  Carrier = ℕ;
  is_finite = λ a. ltb a 1000;
  is_ge = λ a b. leb b a;
  is_lt = ltb;
  sub = λ a b. a - b;
  div = λ a b. a / b;
  rem = λ a b. a % b;
  from_i32 = magnitude;
  rounding_window = 1;
}

increases :
    (a b c : ℕ)
    → ltb a 1000 ≡ true
    → ltb b 1000 ≡ true
    → ltb c 1000 ≡ true
    → leb b a ≡ false
    → leb c b ≡ false
    → leb c a ≡ false
increases a b c p q r x y = ground arith

abbrev two_points : List (TempoEvent ℕ)
two_points =
    record { time_position = 0; quarter_position = 0 }
    ∷ record { time_position = 2; quarter_position = 4 }
    ∷ []

two_points-made : Each (TempoMade naturals) two_points
unfolding new_tempo
two_points-made = ((0, 0, refl), ((2, 4, refl), tt))

tempo_sequence_iff_example :
    (tempo_sequence naturals two_points ≡ ok tt)
    ↔ ((2 ≤ length two_points) × Before (TempoIncreases naturals) two_points)
tempo_sequence_iff_example = tempo_sequence_iff naturals increases two_points two_points-made

two_points_pass : tempo_sequence naturals two_points ≡ ok tt
unfolding tempo_sequence
two_points_pass = refl

-- A waltz from the start, and common time from the third bar on.
abbrev two_signatures : List (BarSignatureEvent ℕ)
two_signatures =
    record { numerator = pos 12; denominator = pos 4; position = 0 }
    ∷ record { numerator = pos 4; denominator = pos 1; position = 6 }
    ∷ []

two_signatures_pass : bar_signature_sequence naturals two_signatures ≡ ok tt
unfolding bar_signature_sequence
two_signatures_pass = refl

off_bar :
    bar_signature_sequence naturals (
      record { numerator = pos 4; denominator = pos 1; position = 0 }
      ∷ record { numerator = pos 4; denominator = pos 1; position = 6 }
      ∷ [])
    ≡ err (invalid_argument "bar-signature change is not on a bar boundary")
unfolding bar_signature_sequence
off_bar = refl
