-- ===== src/Archive/Filters.antt =====
-- The store and restore filters of ara2-bridge-core/src/archive/filter.rs, without the copies from
-- and to raw memory. A persistent identifier is its bytes.
pub mod Validity
use ara2_bridge.Base.{
  ℕ, Bool, true, false, not, ◌&&◌, ◌||◌, Option, some, none, List, [], ◌∷◌, ◌++◌, length, any, ltb,
  if◌then◌else◌, ◌==◌,
}
use ara2_bridge.Base.Bytes.{same_bytes}
use ara2_bridge.Base.Distinct.{is_in}
use ara2_bridge.Errors.{
  Result, ok, err, guard, AraError, archive, ArchiveError, invalid_filter, ◌>>=◌, ◌>>◌,
}
use ara2_bridge.Registry.{
  Kind, Handle, NonZero, value, same_handle, audio_source_kind, audio_modification_kind,
}

abbrev pub PersistentId : Type 0
PersistentId = List ℕ

-- All of the graph, which a null filter selects, or what a filter has.
pub data FilterSelection {ℓ} (T : Type ℓ) : Type ℓ where
  all_selected : FilterSelection T
  selected : T → FilterSelection T

unfoldable pub as_selected {ℓ} : {T : Type ℓ} → FilterSelection T → Option T
as_selected all_selected = none
as_selected (selected filter) = some filter

pub record RestoreMapping : Type 0 where
  pub archive_id : PersistentId
  pub current_id : PersistentId

pub data RestorePhase : Type 0 where
  audio_sources_phase audio_modifications_phase document_data_phase : RestorePhase

pub record RestoreFilter : Type 0 where
  pub document_data : Bool
  pub audio_sources : List RestoreMapping
  pub audio_modifications : List RestoreMapping

abbrev pub is_empty {ℓ} : {A : Type ℓ} → List A → Bool
is_empty [] = true
is_empty (x ∷ xs) = false

-- The categories in the order in which they are restored.
unfoldable pub phases : RestoreFilter → List RestorePhase
phases f =
    (if is_empty f.audio_sources then [] else audio_sources_phase ∷ [])
    ++ ((if is_empty f.audio_modifications then [] else audio_modifications_phase ∷ [])
        ++ (if f.document_data then document_data_phase ∷ [] else []))

abbrev pub is_bad_id : PersistentId → Bool
is_bad_id id = is_empty id || (any (λ b. not (ltb b 128)) id || any (λ b. b == 0) id)

unfoldable pub validate_id : PersistentId → Result AraError (Unit {0})
validate_id id =
    guard (not (is_bad_id id)) (archive (invalid_filter "persistent ID must be nonempty ASCII"))

-- One mapping after those whose identifiers were seen, and the mappings from there on.
unfoldable pub validate_from :
    List PersistentId
    → List PersistentId
    → List RestoreMapping
    → Result AraError (List RestoreMapping)
unfolding validate_id
validate_from archive_ids current_ids [] = ok []
validate_from archive_ids current_ids (m ∷ mappings) = do
  validate_id m.archive_id
  validate_id m.current_id
  guard
      (not (is_in same_bytes m.archive_id archive_ids || is_in same_bytes m.current_id current_ids))
      (archive (invalid_filter "restore mappings contain duplicate IDs"))
  rest ← validate_from (m.archive_id ∷ archive_ids) (m.current_id ∷ current_ids) mappings
  ok (m ∷ rest)

unfoldable pub validate_mappings : List RestoreMapping → Result AraError (List RestoreMapping)
unfolding validate_from
validate_mappings mappings = validate_from [] [] mappings

-- The builder has the fields of the filter, not yet validated.
pub record RestoreFilterBuilder : Type 0 where
  pub document_data : Bool
  pub audio_sources : List RestoreMapping
  pub audio_modifications : List RestoreMapping

module _ (b : RestoreFilterBuilder) where
  unfoldable pub add_audio_source : PersistentId → PersistentId → RestoreFilterBuilder
  add_audio_source archive_id current_id =
      let mapping : RestoreMapping = record { archive_id = archive_id; current_id = current_id } in
      record b { audio_sources = b.audio_sources ++ mapping ∷ [] }

  unfoldable pub add_audio_modification : PersistentId → PersistentId → RestoreFilterBuilder
  add_audio_modification archive_id current_id =
      let mapping : RestoreMapping = record { archive_id = archive_id; current_id = current_id } in
      record b { audio_modifications = b.audio_modifications ++ mapping ∷ [] }

  -- `RestoreFilterBuilder::build`.
  unfoldable pub build_restore_filter : Result AraError RestoreFilter
  build_restore_filter = do
    audio_sources ← validate_mappings b.audio_sources
    audio_modifications ← validate_mappings b.audio_modifications
    ok (record {
      document_data = b.document_data;
      audio_sources = audio_sources;
      audio_modifications = audio_modifications;
    })

-- A store filter, and its builder, which has the same fields.
pub record StoreFilter : Type 0 where
  pub session : NonZero
  pub document_data : Bool
  pub audio_sources : List (Handle audio_source_kind)
  pub audio_modifications : List (Handle audio_modification_kind)

unfoldable pub validate_handles_from :
    {K : Kind} → NonZero → List (Handle K) → List (Handle K) → Result AraError (Unit {0})
validate_handles_from session seen [] = ok tt
validate_handles_from session seen (h ∷ handles) = do
  guard (value h.session == value session)
      (archive (invalid_filter "store handle belongs to another document session"))
  guard (not (is_in same_handle h seen))
      (archive (invalid_filter "store filter contains duplicate handles"))
  validate_handles_from session (h ∷ seen) handles

unfoldable pub validate_handles :
    {K : Kind} → NonZero → List (Handle K) → Result AraError (Unit {0})
unfolding validate_handles_from
validate_handles session handles = validate_handles_from session [] handles

-- `StoreFilterBuilder::build`.
unfoldable pub build_store_filter : StoreFilter → Result AraError StoreFilter
build_store_filter b = do
  validate_handles b.session b.audio_sources
  validate_handles b.session b.audio_modifications
  ok b
