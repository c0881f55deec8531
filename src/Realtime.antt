-- ===== src/Realtime.antt =====
-- The head and tail snapshots of ara2-bridge-core/src/realtime.rs. A duration is a float, whose
-- tests are a parameter; its failure queue is a library's.
pub mod Lookup
use ara2_bridge.Base.{
  ℕ, zero, suc, Bool, true, false, not, ◌&&◌, ◌||◌, Option, some, none, List, [], ◌∷◌, length, ltb,
  leb, get_elem?, if◌then◌else◌, ◌==◌, ◌+◌, ◌-◌, ◌/◌,
}
use ara2_bridge.Errors.{Result, ok, err, guard, AraError, invalid_argument, ◌>>=◌, ◌>>◌}

-- What the code uses of `f64`.
pub record Durations : Type 1 where
  pub Carrier : Type 0
  pub is_finite : Carrier → Bool
  pub is_negative : Carrier → Bool

pub record HeadTailEntry (A : Type 0) : Type 0 where
  pub key : ℕ
  pub head : A
  pub tail : A

unfoldable pub new_entry :
    (D : Durations) → ℕ → D.Carrier → D.Carrier → Result AraError (HeadTailEntry D.Carrier)
new_entry D key head tail = do
  guard
      (not (
        not (D.is_finite head)
        || (not (D.is_finite tail) || (D.is_negative head || D.is_negative tail))))
      (invalid_argument "head and tail must be finite and nonnegative")
  ok (record { key = key; head = head; tail = tail })

module _ {A : Type 0} where
  -- `sort_unstable_by_key`.
  abbrev pub insert_sorted : HeadTailEntry A → List (HeadTailEntry A) → List (HeadTailEntry A)
  insert_sorted e [] = e ∷ []
  insert_sorted e (x ∷ xs) =
      let rest = insert_sorted e xs in if leb e.key x.key then e ∷ x ∷ xs else x ∷ rest

  abbrev pub sort : List (HeadTailEntry A) → List (HeadTailEntry A)
  sort [] = []
  sort (e ∷ es) = insert_sorted e (sort es)

  -- Whether two neighbours have the same key.
  abbrev pub has_twins : List (HeadTailEntry A) → Bool
  has_twins [] = false
  has_twins (e ∷ []) = false
  has_twins (e ∷ x ∷ xs) = (e.key == x.key) || has_twins (x ∷ xs)

  -- `RealtimeHeadTailView::new`.
  unfoldable pub new_view : List (HeadTailEntry A) → ℕ → Result AraError (List (HeadTailEntry A))
  new_view entries capacity = do
    guard (not (ltb capacity (length entries)))
        (invalid_argument "realtime snapshot exceeds configured capacity")
    guard (not (has_twins (sort entries)))
        (invalid_argument "realtime snapshot contains duplicate region")
    ok (sort entries)

  -- `binary_search_by_key`: the entry in the middle, then the half that may have the key; the fuel is
  -- the number of entries, and each round at least halves what is left.
  unfoldable pub search : ℕ → ℕ → ℕ → ℕ → List (HeadTailEntry A) → Option (HeadTailEntry A)
  search zero key low high view = none
  search (suc fuel) key low high view =
      if leb high low then none else elim (get_elem? view (low + (high - low) / 2)) [
        | none ↦ none
        | some e ↦
            let below = search fuel key low (low + (high - low) / 2) view in
            let above = search fuel key (low + (high - low) / 2 + 1) high view in
            if e.key == key then some e else (if ltb key e.key then below else above)
      ]

  unfoldable pub query : List (HeadTailEntry A) → ℕ → Option (A × A)
  unfolding search
  query view key = elim (search (length view) key 0 (length view) view) [
    | none ↦ none
    | some e ↦ some (e.head, e.tail)
  ]
