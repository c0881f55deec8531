-- ===== src/Document/Contracts/Identifiers.antt =====
-- Claiming and giving back a persistent identifier (ara2-bridge-host/src/document/edit.rs).
use text.Mathlib.Text.{◌==◌ as str_eq}
use text.Mathlib.TextPositions.{eq_refl}
use ara2_bridge.Base.{
  String, Bool-cases, true, false, List, [], ◌∷◌, ◌≡◌, refl, ap, inl, inr, arith,
}
use ara2_bridge.Document.Records.{contains, insert_id, remove_id}

remove_id-absent :
    (id : String) (ids : List String) → contains id ids ≡ false → remove_id id ids ≡ ids
unfolding contains remove_id
remove_id-absent id [] e = refl
remove_id-absent id (x ∷ ids) e = elim (Bool-cases (str_eq x id)) [
  | inl y ↦ ground arith
  | inr n ↦
      let rest : contains id ids ≡ false = ground arith in
      rw n (ap (λ t. x ∷ t) (remove_id-absent id ids rest))
]

-- An identifier that is claimed and given back leaves the set as it was.
pub remove_id-insert_id :
    (id : String) (ids : List String)
    → contains id ids ≡ false
    → (remove_id id (insert_id id ids) ≡ ids) × (insert_id id ids ≡ id ∷ ids)
unfolding insert_id remove_id
remove_id-insert_id id ids e =
    let same : str_eq id id ≡ true = eq_refl id in
    (rw (e, same) (remove_id-absent id ids e), rw e refl)
