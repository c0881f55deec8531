-- ===== src/Plugin/Keys.antt =====
-- Maps and lists whose keys are raw handles.
use ara2_bridge.Base.{
  ℕ, Bool, true, false, Option, some, none, List, [], ◌∷◌, ◌++◌, if◌then◌else◌, ◌≡◌, refl, sym, ◌∙◌,
  ap, ◌↔◌, ◌+◌, arith, Bool-cases, inl, inr,
}
use ara2_bridge.Registry.{RawHandle, same_raw}

module _ {A : Type 0} where
  -- `HashMap::get`, `HashMap::remove` and `HashMap::insert`.
  abbrev pub find : RawHandle → List (RawHandle × A) → Option A
  find key [] = none
  find key ((k, value) ∷ entries) = if same_raw k key then some value else find key entries

  abbrev pub erase : RawHandle → List (RawHandle × A) → List (RawHandle × A)
  erase key [] = []
  erase key ((k, value) ∷ entries) =
      if same_raw k key then erase key entries else (k, value) ∷ erase key entries

  abbrev pub put : RawHandle → A → List (RawHandle × A) → List (RawHandle × A)
  put key value entries = (key, value) ∷ erase key entries

-- `Vec::retain` of the handles that differ from one.
abbrev pub without : RawHandle → List RawHandle → List RawHandle
without key [] = []
without key (k ∷ keys) = if same_raw k key then without key keys else k ∷ without key keys

-- How often a handle occurs.
abbrev pub count : RawHandle → List RawHandle → ℕ
count key [] = 0
count key (k ∷ keys) = if same_raw k key then count key keys + 1 else count key keys

pub same_raw_iff : (h k : RawHandle) → (same_raw h k ≡ true) ↔ (h ≡ k)
same_raw_iff h k = (λ e. ground arith, λ e. ground arith)

pub same_raw_self : (k : RawHandle) → same_raw k k ≡ true
same_raw_self k = (same_raw_iff k k).1 refl

pub same_raw_eq : (h k : RawHandle) → same_raw h k ≡ true → h ≡ k
same_raw_eq h k = (same_raw_iff h k).0

-- Lookups after a removal and after an insertion.
module _ {A : Type 0} where
  pub find-erase_self : (key : RawHandle) (m : List (RawHandle × A)) → find key (erase key m) ≡ none
  find-erase_self key [] = refl
  find-erase_self key ((k, value) ∷ m) = elim (Bool-cases (same_raw k key)) [
    | inl e ↦
        ap (λ b. find key (if b then erase key m else (k, value) ∷ erase key m)) e
        ∙ find-erase_self key m
    | inr e ↦
        ap (λ b. find key (if b then erase key m else (k, value) ∷ erase key m)) e
        ∙ ap (λ b. if b then some value else find key (erase key m)) e
        ∙ find-erase_self key m
  ]

  pub find-erase_other :
      (k key : RawHandle) (m : List (RawHandle × A))
      → same_raw k key ≡ false
      → find key (erase k m) ≡ find key m
  find-erase_other k key [] e = refl
  find-erase_other k key ((h, value) ∷ m) e = elim (Bool-cases (same_raw h k)) [
    | inl f ↦
        let off : same_raw h key ≡ false = ap (λ z. same_raw z key) (same_raw_eq h k f) ∙ e in
        ap (λ b. find key (if b then erase k m else (h, value) ∷ erase k m)) f
        ∙ find-erase_other k key m e
        ∙ sym (ap (λ b. if b then some value else find key m) off)
    | inr f ↦
        ap (λ b. find key (if b then erase k m else (h, value) ∷ erase k m)) f
        ∙ ap (λ o. if same_raw h key then some value else o) (find-erase_other k key m e)
  ]

  pub find-put_self :
      (key : RawHandle) (v : A) (m : List (RawHandle × A)) → find key (put key v m) ≡ some v
  find-put_self key v m = ap (λ b. if b then some v else find key (erase key m)) (same_raw_self key)

  pub find-put_other :
      (k key : RawHandle) (v : A) (m : List (RawHandle × A))
      → same_raw k key ≡ false
      → find key (put k v m) ≡ find key m
  find-put_other k key v m e =
      ap (λ b. if b then some v else find key (erase k m)) e ∙ find-erase_other k key m e

pub count-without_self : (key : RawHandle) (ks : List RawHandle) → count key (without key ks) ≡ 0
count-without_self key [] = refl
count-without_self key (k ∷ ks) = elim (Bool-cases (same_raw k key)) [
  | inl e ↦
      ap (λ b. count key (if b then without key ks else k ∷ without key ks)) e
      ∙ count-without_self key ks
  | inr e ↦
      ap (λ b. count key (if b then without key ks else k ∷ without key ks)) e
      ∙ ap (λ b. if b then count key (without key ks) + 1 else count key (without key ks)) e
      ∙ count-without_self key ks
]

pub count-without_other :
    (k key : RawHandle) (ks : List RawHandle)
    → same_raw k key ≡ false
    → count key (without k ks) ≡ count key ks
count-without_other k key [] e = refl
count-without_other k key (h ∷ ks) e = elim (Bool-cases (same_raw h k)) [
  | inl f ↦
      let off : same_raw h key ≡ false = ap (λ z. same_raw z key) (same_raw_eq h k f) ∙ e in
      ap (λ b. count key (if b then without k ks else h ∷ without k ks)) f
      ∙ count-without_other k key ks e
      ∙ sym (ap (λ b. if b then count key ks + 1 else count key ks) off)
  | inr f ↦
      ap (λ b. count key (if b then without k ks else h ∷ without k ks)) f
      ∙ ap (λ n. if same_raw h key then n + 1 else n) (count-without_other k key ks e)
]

pub count-snoc :
    (key k : RawHandle) (ks : List RawHandle)
    → count key (ks ++ k ∷ []) ≡ (if same_raw k key then count key ks + 1 else count key ks)
count-snoc key k [] = refl
count-snoc key k (h ∷ ks) =
    ap (λ n. if same_raw h key then n + 1 else n) (count-snoc key k ks)
    ∙ swap (same_raw h key) (same_raw k key)
  where
    swap :
        (a b : Bool)
        → (if a
            then (if b then count key ks + 1 else count key ks) + 1
            else (if b then count key ks + 1 else count key ks))
          ≡ (if b
              then (if a then count key ks + 1 else count key ks) + 1
              else (if a then count key ks + 1 else count key ks))
    swap true true = refl
    swap true false = refl
    swap false true = refl
    swap false false = refl
