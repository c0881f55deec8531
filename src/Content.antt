-- ===== src/Content.antt =====
-- Musical content events of ara2-bridge-core/src/content/events.rs and the checks of their counts
-- and orders of content/validate.rs. A float is a parameter; a text is its bytes, and a root and a
-- usage byte, which the bridge only carries, are bit patterns.
pub mod Ordered
pub mod Sequences
use ara2_bridge.Base.{
  String, ℕ, Bool, true, false, not, ◌||◌, Option, some, none, List, [], ◌∷◌, length, any, ltb, leb,
  ◌==◌,
}
use ara2_bridge.Errors.{Result, ok, err, guard, AraError, invalid_argument, ◌>>=◌, ◌>>◌}
use ara2_bridge.Processing.{ℤ, pos, negsuc}

-- What the code uses of `f64`.
pub record Reals : Type 1 where
  pub Carrier : Type 0
  pub is_finite : Carrier → Bool
  -- `a >= b` and `a < b`.
  pub is_ge : Carrier → Carrier → Bool
  pub is_lt : Carrier → Carrier → Bool
  pub sub : Carrier → Carrier → Carrier
  pub div : Carrier → Carrier → Carrier
  pub rem : Carrier → Carrier → Carrier
  -- `f64::from` of an `i32`, and 1.0 / 32.0.
  pub from_i32 : ℤ → Carrier
  pub rounding_window : Carrier

pub record TempoEvent (A : Type 0) : Type 0 where
  pub time_position : A
  pub quarter_position : A

pub record BarSignatureEvent (A : Type 0) : Type 0 where
  pub numerator : ℤ
  pub denominator : ℤ
  pub position : A

pub record KeySignatureEvent (A : Type 0) : Type 0 where
  pub root : ℕ
  pub intervals : List ℕ
  pub name : Option (List ℕ)
  pub position : A

pub record ChordEvent (A : Type 0) : Type 0 where
  pub root : ℕ
  pub bass : ℕ
  pub intervals : List ℕ
  pub name : Option (List ℕ)
  pub position : A

abbrev pub is_positive : ℤ → Bool
is_positive (pos n) = ltb 0 n
is_positive (negsuc n) = false

unfoldable pub display_name : Option (List ℕ) → Result AraError (Option (List ℕ))
display_name none = ok none
display_name (some name) = do
  guard (not (any (λ b. b == 0) name)) (invalid_argument "content name contains NUL")
  ok (some name)

-- The test of each pair of neighbours.
abbrev pub each_pair {ℓ} :
    {A : Type ℓ} → (A → A → Result AraError (Unit {0})) → List A → Result AraError (Unit {0})
each_pair check [] = ok tt
each_pair check (a ∷ []) = ok tt
each_pair check (a ∷ b ∷ es) = check a b >> each_pair check (b ∷ es)

module _ (F : Reals) where
  unfoldable pub finite : F.Carrier → String → Result AraError F.Carrier
  finite value field = do guard (F.is_finite value) (invalid_argument field); ok value

  unfoldable pub new_tempo : F.Carrier → F.Carrier → Result AraError (TempoEvent F.Carrier)
  unfolding finite
  new_tempo time quarter = do
    t ← finite time "tempo time is not finite"
    q ← finite quarter "tempo quarter is not finite"
    ok (record { time_position = t; quarter_position = q })

  unfoldable pub new_bar_signature :
      ℤ → ℤ → F.Carrier → Result AraError (BarSignatureEvent F.Carrier)
  unfolding finite
  new_bar_signature numerator denominator position = do
    guard (not (not (is_positive numerator) || not (is_positive denominator)))
        (invalid_argument "bar-signature terms must be positive")
    p ← finite position "bar-signature position is not finite"
    ok (record { numerator = numerator; denominator = denominator; position = p })

  unfoldable pub new_key_signature :
      ℕ → List ℕ → Option (List ℕ) → F.Carrier → Result AraError (KeySignatureEvent F.Carrier)
  unfolding finite
  new_key_signature root intervals name position = do
    n ← display_name name
    p ← finite position "key-signature position is not finite"
    ok (record { root = root; intervals = intervals; name = n; position = p })

  unfoldable pub new_chord :
      ℕ → ℕ → List ℕ → Option (List ℕ) → F.Carrier → Result AraError (ChordEvent F.Carrier)
  unfolding finite
  new_chord root bass intervals name position = do
    n ← display_name name
    p ← finite position "chord position is not finite"
    ok (record { root = root; bass = bass; intervals = intervals; name = n; position = p })

  unfoldable pub tempo_pair :
      TempoEvent F.Carrier → TempoEvent F.Carrier → Result AraError (Unit {0})
  tempo_pair previous current =
      guard
        (not (
          F.is_ge previous.time_position current.time_position
          || F.is_ge previous.quarter_position current.quarter_position))
        (invalid_argument "tempo positions must increase strictly")

  unfoldable pub tempo_count : ℕ → Result AraError (Unit {0})
  tempo_count count =
      guard (leb 2 count) (invalid_argument "tempo content requires at least two events")

  unfoldable pub tempo_sequence : List (TempoEvent F.Carrier) → Result AraError (Unit {0})
  unfolding tempo_count tempo_pair
  tempo_sequence events = tempo_count (length events) >> each_pair tempo_pair events

  -- The test of a signature's change: the remainder is near a multiple of the bar.
  unfoldable pub on_bar : BarSignatureEvent F.Carrier → BarSignatureEvent F.Carrier → Bool
  on_bar previous current =
      let bar_length : F.Carrier =
        F.div (F.from_i32 previous.numerator) (F.from_i32 previous.denominator) in
      let remainder : F.Carrier = F.rem (F.sub current.position previous.position) bar_length in
      F.is_lt remainder F.rounding_window || F.is_lt (F.sub bar_length F.rounding_window) remainder

  unfoldable pub bar_signature_pair :
      BarSignatureEvent F.Carrier → BarSignatureEvent F.Carrier → Result AraError (Unit {0})
  unfolding on_bar
  bar_signature_pair previous current = do
    guard (not (F.is_ge previous.position current.position))
        (invalid_argument "bar-signature positions must increase strictly")
    guard (on_bar previous current)
        (invalid_argument "bar-signature change is not on a bar boundary")

  unfoldable pub bar_signature_count : ℕ → Result AraError (Unit {0})
  bar_signature_count count =
      guard (ltb 0 count) (invalid_argument "bar-signature content requires an event")

  unfoldable pub bar_signature_sequence :
      List (BarSignatureEvent F.Carrier) → Result AraError (Unit {0})
  unfolding bar_signature_count bar_signature_pair
  bar_signature_sequence events =
      bar_signature_count (length events) >> each_pair bar_signature_pair events

  unfoldable pub key_signature_pair :
      KeySignatureEvent F.Carrier → KeySignatureEvent F.Carrier → Result AraError (Unit {0})
  key_signature_pair previous current =
      guard (not (F.is_ge previous.position current.position))
        (invalid_argument "key-signature positions must increase strictly")

  unfoldable pub key_signature_count : ℕ → Result AraError (Unit {0})
  key_signature_count count =
      guard (ltb 0 count) (invalid_argument "key-signature content requires an event")

  unfoldable pub key_signature_sequence :
      List (KeySignatureEvent F.Carrier) → Result AraError (Unit {0})
  unfolding key_signature_count key_signature_pair
  key_signature_sequence events =
      key_signature_count (length events) >> each_pair key_signature_pair events

  unfoldable pub chord_pair :
      ChordEvent F.Carrier → ChordEvent F.Carrier → Result AraError (Unit {0})
  chord_pair previous current =
      guard (not (F.is_ge previous.position current.position))
        (invalid_argument "chord positions must increase strictly")

  unfoldable pub chord_sequence : List (ChordEvent F.Carrier) → Result AraError (Unit {0})
  unfolding chord_pair
  chord_sequence events = each_pair chord_pair events
