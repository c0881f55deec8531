-- ===== src/Diagnostics/Bounds.antt =====
-- The sink keeps the newest diagnostics, and poison the oldest
-- (ara2-bridge-core/src/diagnostics.rs, ara2-bridge-core/src/poison.rs).
use mathlib.Core.List.{append-nil, append_assoc}
use ara2_bridge.Base.{
  ℕ, suc, zero, true, false, some, List, [], ◌∷◌, ◌++◌, ◌==◌, length, length-append, Bool-cases,
  leb, ◌<◌, if◌then◌else◌, subst, ◌≡◌, refl, sym, ap, ◌∙◌, inl, inr, ◌≤◌, ◌+◌, ◌-◌, arith,
}
use ara2_bridge.Diagnostics.{
  Diagnostic, BoundedDiagnosticSink, record_entry, record_all, pop_front, new_sink, PoisonState,
  poison, poison_all, healthy, snapshot,
}
use ara2_bridge.Errors.{ok}

-- The last entries of a list.
abbrev drop_first {ℓ} : {A : Type ℓ} → ℕ → List A → List A
drop_first zero xs = xs
drop_first (suc n) [] = []
drop_first (suc n) (x ∷ xs) = drop_first n xs

abbrev pub newest {ℓ} : {A : Type ℓ} → ℕ → List A → List A
newest n xs = drop_first (length xs - n) xs

drop_first-all {ℓ} : {A : Type ℓ} (xs ys : List A) → drop_first (length xs) (xs ++ ys) ≡ ys
drop_first-all [] ys = refl
drop_first-all (x ∷ xs) ys = drop_first-all xs ys

drop_first-append {ℓ} :
    {A : Type ℓ} (n : ℕ) (xs ys : List A)
    → n ≤ length xs
    → drop_first n (xs ++ ys) ≡ drop_first n xs ++ ys
drop_first-append zero xs ys h = refl
drop_first-append (suc n) [] ys h = absurd (omega arith)
drop_first-append (suc n) (x ∷ xs) ys h = drop_first-append n xs ys (omega arith)

drop_first-suc {ℓ} :
    {A : Type ℓ} (n : ℕ) (xs : List A) → drop_first (suc n) xs ≡ pop_front (drop_first n xs)
drop_first-suc zero [] = refl
drop_first-suc zero (x ∷ xs) = refl
drop_first-suc (suc n) [] = refl
drop_first-suc (suc n) (x ∷ xs) = drop_first-suc n xs

length-drop_first {ℓ} :
    {A : Type ℓ} (n : ℕ) (xs : List A) → length (drop_first n xs) ≡ length xs - n
length-drop_first zero xs = omega arith
length-drop_first (suc n) [] = omega arith
length-drop_first (suc n) (x ∷ xs) =
    let e : length (drop_first n xs) ≡ length xs - n = length-drop_first n xs in omega arith

newest-long {ℓ} :
    {A : Type ℓ} (n k : ℕ) (xs ys : List A)
    → k ≡ suc n
    → k ≤ length xs
    → drop_first k (xs ++ ys) ≡ pop_front (drop_first n xs) ++ ys
newest-long n k xs ys e h =
    drop_first-append k xs ys h
    ∙ ap (λ m. drop_first m xs ++ ys) e
    ∙ ap (λ m. m ++ ys) (drop_first-suc n xs)

newest-append_long {ℓ} :
    {A : Type ℓ} (k : ℕ) (xs : List A) (x : A)
    → 1 ≤ k
    → k ≤ length xs
    → newest k (xs ++ x ∷ []) ≡ pop_front (newest k xs) ++ x ∷ []
newest-append_long k xs x h n =
    let e : length (xs ++ x ∷ []) ≡ length xs + 1 = length-append xs (x ∷ []) in
    newest-long (length xs - k) (length (xs ++ x ∷ []) - k) xs (x ∷ []) (omega arith) (omega arith)

newest-short {ℓ} : {A : Type ℓ} (k : ℕ) (xs : List A) → length xs ≤ k → newest k xs ≡ xs
newest-short k xs h = let e : length xs - k ≡ 0 = omega arith in rw (newest, e) refl

newest-append_short {ℓ} :
    {A : Type ℓ} (k : ℕ) (xs : List A) (x : A)
    → length xs < k
    → newest k (xs ++ x ∷ []) ≡ newest k xs ++ x ∷ []
newest-append_short k xs x h =
    newest-short k (xs ++ x ∷ []) (omega (arith, length-append xs (x ∷ [])))
    ∙ ap (λ m. m ++ x ∷ []) (sym (newest-short k xs (omega arith)))

-- Recording after the newest of a history.
newest-step {ℓ} :
    {A : Type ℓ} (k : ℕ) (xs : List A) (x : A)
    → 1 ≤ k
    → (if length (newest k xs) == k then pop_front (newest k xs) else newest k xs) ++ x ∷ []
      ≡ newest k (xs ++ x ∷ [])
newest-step k xs x h =
    let e : length (newest k xs) ≡ length xs - (length xs - k) =
      length-drop_first (length xs - k) xs in
    elim (Bool-cases (leb k (length xs))) [
      | inl y ↦
          let f : (length (newest k xs) == k) ≡ true = ground arith in
          rw f (sym (newest-append_long k xs x h (ground arith)))
      | inr n ↦
          let f : (length (newest k xs) == k) ≡ false = ground arith in
          rw f (sym (newest-append_short k xs x (ground arith)))
    ]

history_step :
    (s : BoundedDiagnosticSink) (xs : List Diagnostic) (d : Diagnostic)
    → 1 ≤ s.capacity
    → s.entries ≡ newest s.capacity xs
    → (record_entry s d).entries ≡ newest s.capacity (xs ++ d ∷ [])
unfolding record_entry
history_step s xs d h e =
    ap (λ es. (if length es == s.capacity then pop_front es else es) ++ d ∷ []) e
    ∙ newest-step s.capacity xs d h

history_steps :
    (s : BoundedDiagnosticSink) (xs ds : List Diagnostic)
    → 1 ≤ s.capacity
    → s.entries ≡ newest s.capacity xs
    → (record_all s ds).entries ≡ newest s.capacity (xs ++ ds)
unfolding record_all record_entry
history_steps s xs [] h e = e ∙ ap (newest s.capacity) (sym (append-nil xs))
history_steps s xs (d ∷ ds) h e =
    history_steps (record_entry s d) (xs ++ d ∷ []) ds h (history_step s xs d h e)
    ∙ ap (newest s.capacity) (append_assoc xs (d ∷ []) ds)

-- A new sink of capacity `k` that has recorded the diagnostics `ds` holds exactly the newest `k` of
-- them, oldest first.
pub record_all-newest :
    (k : ℕ) (s : BoundedDiagnosticSink) (ds : List Diagnostic)
    → new_sink k ≡ ok s
    → snapshot (record_all s ds) ≡ newest k ds
unfolding snapshot new_sink
record_all-newest k s ds e = elim (Bool-cases (k == 0)) [
  | inl y ↦ ground arith
  | inr n ↦
      let f : record { capacity = k; entries = [] } ≡ s = ground arith in
      subst (λ t. (record_all t ds).entries ≡ newest k ds) f
        (history_steps (record { capacity = k; entries = [] }) [] ds (ground arith)
          (sym (newest-short k [] (omega arith))))
]

poison_all-keeps :
    (ds : List Diagnostic) (p : PoisonState)
    → p.poisoned ≡ true
    → (poison_all ds p).diagnostic ≡ p.diagnostic
unfolding poison_all poison
poison_all-keeps [] p e = refl
poison_all-keeps (d ∷ ds) p e = poison_all-keeps ds (poison d p) refl ∙ rw (e, poison) refl

poison_all-poisoned :
    (ds : List Diagnostic) (p : PoisonState) → p.poisoned ≡ true → (poison_all ds p).poisoned ≡ true
unfolding poison_all poison
poison_all-poisoned [] p e = e
poison_all-poisoned (d ∷ ds) p e = poison_all-poisoned ds (poison d p) refl

-- After any causes, the runtime that was healthy is poisoned, and reports the first cause.
pub poison_all-first :
    (d : Diagnostic) (ds : List Diagnostic)
    → ((poison_all (d ∷ ds) healthy).diagnostic ≡ some d)
      × ((poison_all (d ∷ ds) healthy).poisoned ≡ true)
unfolding poison_all poison
poison_all-first d ds =
    (poison_all-keeps ds (poison d healthy) refl, poison_all-poisoned ds (poison d healthy) refl)
