-- ===== src/Archive/Filters/Validity.antt =====
-- Which filters are built.
use ara2_bridge.Base.{
  Bool, true, false, not, ◌||◌, List, [], ◌∷◌, ◌==◌, ◌≡◌, refl, sym, ap, ◌∙◌, ◌↔◌, arith,
  if◌then◌else◌,
}
use ara2_bridge.Base.Bytes.{same_bytes, same_bytes_comm}
use ara2_bridge.Base.Distinct.{is_in, repeats, Distinct, or_false_iff, repeats-Distinct}
use ara2_bridge.Errors.{
  Result, ok, guard, ok_bind, guard_bind, not-true_iff, AraError, archive, invalid_filter, ◌>>=◌,
  ◌>>◌,
}
use ara2_bridge.Registry.{Kind, Handle, NonZero, value, same_handle}
use ara2_bridge.Archive.Filters.{
  PersistentId, RestoreMapping, RestoreFilter, RestoreFilterBuilder, StoreFilter, is_bad_id,
  validate_id, validate_from, validate_mappings, build_restore_filter, validate_handles_from,
  validate_handles, build_store_filter,
}

-- Identifiers that are nonempty ASCII without a zero byte.
abbrev pub GoodIds : List RestoreMapping → Type 0
GoodIds [] = Unit
GoodIds (m ∷ ms) = (is_bad_id m.archive_id ≡ false) × (is_bad_id m.current_id ≡ false) × GoodIds ms

abbrev pub archive_ids : List RestoreMapping → List PersistentId
archive_ids [] = []
archive_ids (m ∷ ms) = m.archive_id ∷ archive_ids ms

abbrev pub current_ids : List RestoreMapping → List PersistentId
current_ids [] = []
current_ids (m ∷ ms) = m.current_id ∷ current_ids ms

-- Good identifiers, no archive identifier twice and no current identifier twice.
abbrev pub ValidMappings : List RestoreMapping → Type 0
ValidMappings ms =
    GoodIds ms × Distinct same_bytes (archive_ids ms) × Distinct same_bytes (current_ids ms)

-- The tests of the rest of a list of mappings.
abbrev Passes : List PersistentId → List PersistentId → List RestoreMapping → Type 0
Passes seen seen' ms =
    GoodIds ms
    × (repeats same_bytes seen (archive_ids ms) ≡ false)
    × (repeats same_bytes seen' (current_ids ms) ≡ false)

-- The checks of one mapping, then the rest.
validate_from_iff :
    (seen seen' : List PersistentId) (m : RestoreMapping) (ms r : List RestoreMapping)
    → (validate_from seen seen' (m ∷ ms) ≡ ok r) ↔ (
        (is_bad_id m.archive_id ≡ false)
        × (is_bad_id m.current_id ≡ false)
        × ((is_in same_bytes m.archive_id seen || is_in same_bytes m.current_id seen') ≡ false)
        × ((validate_from (m.archive_id ∷ seen) (m.current_id ∷ seen') ms
              >>= (λ rest. ok (m ∷ rest)))
            ≡ ok r))
unfolding validate_from validate_id
validate_from_iff seen seen' m ms r =
    let repeated : Bool =
      is_in same_bytes m.archive_id seen || is_in same_bytes m.current_id seen' in
    let bad : AraError = archive (invalid_filter "persistent ID must be nonempty ASCII") in
    let twice : AraError = archive (invalid_filter "restore mappings contain duplicate IDs") in
    let k3 : Result AraError (List RestoreMapping) =
      validate_from (m.archive_id ∷ seen) (m.current_id ∷ seen') ms >>= (λ rest. ok (m ∷ rest)) in
    let k2 : Result AraError (List RestoreMapping) = guard (not repeated) twice >> k3 in
    let k1 : Result AraError (List RestoreMapping) =
      guard (not (is_bad_id m.current_id)) bad >> k2 in
    let (to1, from1) = guard_bind (not (is_bad_id m.archive_id)) bad k1 {a = r} in
    let (to2, from2) = guard_bind (not (is_bad_id m.current_id)) bad k2 {a = r} in
    let (to3, from3) = guard_bind (not repeated) twice k3 {a = r} in
    (
      λ e.
          let (a, e) = to1 e in
          let (b, e) = to2 e in
          let (c, e) = to3 e in
          (
            (not-true_iff (is_bad_id m.archive_id)).0 a,
            (not-true_iff (is_bad_id m.current_id)).0 b,
            (not-true_iff repeated).0 c,
            e,
          ),
      λ (a, b, c, e). from1 (
        (not-true_iff (is_bad_id m.archive_id)).1 a,
        from2 ((not-true_iff (is_bad_id m.current_id)).1 b, from3 ((not-true_iff repeated).1 c, e)),
      ),
    )

validate_from-ok :
    (seen seen' : List PersistentId) (ms : List RestoreMapping) {r : List RestoreMapping}
    → validate_from seen seen' ms ≡ ok r
    → (r ≡ ms) × Passes seen seen' ms
unfolding validate_from
validate_from-ok seen seen' [] e = (cc, (tt, refl, refl))
validate_from-ok seen seen' (m ∷ ms) {r} e =
    let (a, b, c, e) = (validate_from_iff seen seen' m ms r).0 e in
    let (new, new') =
      (or_false_iff (is_in same_bytes m.archive_id seen) (is_in same_bytes m.current_id seen')).0
        c in
    let (rest, f, g) =
      ok_bind (validate_from (m.archive_id ∷ seen) (m.current_id ∷ seen') ms)
        (λ rest. ok (m ∷ rest)) e in
    let (same, (good, x, y)) = validate_from-ok (m.archive_id ∷ seen) (m.current_id ∷ seen') ms f in
    let whole : m ∷ rest ≡ r = cc in
    (
      sym whole ∙ ap (λ l. m ∷ l) same,
      (
        (a, b, good),
        (or_false_iff (is_in same_bytes m.archive_id seen) _).1 (new, x),
        (or_false_iff (is_in same_bytes m.current_id seen') _).1 (new', y),
      ),
    )

validate_from-Passes :
    (seen seen' : List PersistentId) (ms : List RestoreMapping)
    → Passes seen seen' ms
    → validate_from seen seen' ms ≡ ok ms
unfolding validate_from
validate_from-Passes seen seen' [] h = refl
validate_from-Passes seen seen' (m ∷ ms) ((a, b, good), x, y) =
    let (new, x') = (or_false_iff (is_in same_bytes m.archive_id seen) _).0 x in
    let (new', y') = (or_false_iff (is_in same_bytes m.current_id seen') _).0 y in
    let rest =
      validate_from-Passes (m.archive_id ∷ seen) (m.current_id ∷ seen') ms (good, x', y') in
    (validate_from_iff seen seen' m ms (m ∷ ms)).1 (
      a,
      b,
      (or_false_iff (is_in same_bytes m.archive_id seen) (is_in same_bytes m.current_id seen')).1
          (new, new'),
      ap (λ (z : Result AraError (List RestoreMapping)). z >>= (λ rest. ok (m ∷ rest))) rest,
    )

validate_mappings_iff :
    (ms r : List RestoreMapping) → (validate_mappings ms ≡ ok r) ↔ ((r ≡ ms) × ValidMappings ms)
unfolding validate_mappings
validate_mappings_iff ms r =
    let (to, from) = repeats-Distinct same_bytes same_bytes_comm (archive_ids ms) in
    let (to', from') = repeats-Distinct same_bytes same_bytes_comm (current_ids ms) in
    (
      λ e. let (same, (good, x, y)) = validate_from-ok [] [] ms e in (same, (good, to x, to' y)),
      λ (same, (good, x, y)).
          validate_from-Passes [] [] ms (good, from x, from' y) ∙ ap ok (sym same),
    )

-- The filter that a builder describes.
abbrev pub described : RestoreFilterBuilder → RestoreFilter
described b = record {
  document_data = b.document_data;
  audio_sources = b.audio_sources;
  audio_modifications = b.audio_modifications;
}

abbrev with_both : RestoreFilterBuilder → List RestoreMapping → List RestoreMapping → RestoreFilter
with_both b ss ms = record {
  document_data = b.document_data;
  audio_sources = ss;
  audio_modifications = ms;
}

abbrev with_sources : RestoreFilterBuilder → List RestoreMapping → Result AraError RestoreFilter
with_sources b ss = validate_mappings b.audio_modifications >>= (λ ms. ok (with_both b ss ms))

-- A restore filter is built exactly when in each category every identifier is nonempty ASCII without
-- a zero byte and neither an archive identifier nor a current one occurs twice, and it is then what
-- the builder describes.
pub build_restore_filter_iff :
    (b : RestoreFilterBuilder) (f : RestoreFilter)
    → (build_restore_filter b ≡ ok f)
      ↔ ((f ≡ described b) × ValidMappings b.audio_sources × ValidMappings b.audio_modifications)
unfolding build_restore_filter
build_restore_filter_iff b f = (
  λ e.
      let (ss, x, e) = ok_bind (validate_mappings b.audio_sources) (λ ss. with_sources b ss) e in
      let (ms, y, e) =
        ok_bind (validate_mappings b.audio_modifications) (λ ms. ok (with_both b ss ms)) e in
      let (same, good) = (validate_mappings_iff b.audio_sources ss).0 x in
      let (same', good') = (validate_mappings_iff b.audio_modifications ms).0 y in
      let done : with_both b ss ms ≡ f = cc in
      (
        sym done ∙ ap (λ z. with_both b z ms) same ∙ ap (λ z. with_both b b.audio_sources z) same',
        good,
        good',
      ),
  λ (same, good, good').
      ap (λ r. r >>= with_sources b)
        ((validate_mappings_iff b.audio_sources b.audio_sources).1 (refl, good))
      ∙ ap
          (λ (r : Result AraError (List RestoreMapping)).
            r >>= (λ ms. ok (with_both b b.audio_sources ms)))
          ((validate_mappings_iff b.audio_modifications b.audio_modifications).1 (refl, good'))
      ∙ ap ok (sym same),
)

-- Handles of one session.
abbrev pub OfSession : {K : Kind} → NonZero → List (Handle K) → Type 0
OfSession session [] = Unit
OfSession session (h ∷ hs) = ((value h.session == value session) ≡ true) × OfSession session hs

same_handle_comm : {K : Kind} (h k : Handle K) → same_handle h k ≡ same_handle k h
same_handle_comm h k =
    let flip : (value h.index == value k.index) ≡ (value k.index == value h.index) = ground arith in
    let flip' : (value h.session == value k.session) ≡ (value k.session == value h.session) =
      ground arith in
    ap (λ b. if b then value h.session == value k.session else false) flip
    ∙ ap (λ b. if value k.index == value h.index then b else false) flip'

validate_handles_from_iff :
    {K : Kind} (session : NonZero) (seen hs : List (Handle K))
    → (validate_handles_from session seen hs ≡ ok tt)
      ↔ (OfSession session hs × (repeats same_handle seen hs ≡ false))
unfolding validate_handles_from
validate_handles_from_iff session seen [] = (λ _. (tt, refl), λ _. refl)
validate_handles_from_iff session seen (h ∷ hs) =
    let foreign : AraError =
      archive (invalid_filter "store handle belongs to another document session") in
    let twice : AraError = archive (invalid_filter "store filter contains duplicate handles") in
    let rest : Result AraError Unit = validate_handles_from session (h ∷ seen) hs in
    let (to1, from1) =
      guard_bind (value h.session == value session) foreign
        (guard (not (is_in same_handle h seen)) twice >> rest) {a = tt} in
    let (to2, from2) = guard_bind (not (is_in same_handle h seen)) twice rest {a = tt} in
    let (to3, from3) = validate_handles_from_iff session (h ∷ seen) hs in
    let (split, join) =
      or_false_iff (is_in same_handle h seen) (repeats same_handle (h ∷ seen) hs) in
    (
      λ e.
          let (own, e) = to1 e in
          let (new, e) = to2 e in
          let (others, x) = to3 e in
          ((own, others), join ((not-true_iff (is_in same_handle h seen)).0 new, x)),
      λ ((own, others), x).
          let (new, y) = split x in
          from1 (own, from2 ((not-true_iff (is_in same_handle h seen)).1 new, from3 (others, y))),
    )

validate_handles_iff :
    {K : Kind} (session : NonZero) (hs : List (Handle K))
    → (validate_handles session hs ≡ ok tt) ↔ (OfSession session hs × Distinct same_handle hs)
unfolding validate_handles
validate_handles_iff session hs =
    let (to, from) = validate_handles_from_iff session [] hs in
    let (to', from') = repeats-Distinct same_handle same_handle_comm hs in
    (λ e. let (own, x) = to e in (own, to' x), λ (own, d). from (own, from' d))

-- A store filter is built exactly when in each category every handle is of the filter's session and
-- none occurs twice, and it is then the builder's.
pub build_store_filter_iff :
    (b f : StoreFilter)
    → (build_store_filter b ≡ ok f) ↔ (
        (f ≡ b)
        × (OfSession b.session b.audio_sources × Distinct same_handle b.audio_sources)
        × (OfSession b.session b.audio_modifications × Distinct same_handle b.audio_modifications))
unfolding build_store_filter
build_store_filter_iff b f =
    let checked : Result AraError StoreFilter =
      validate_handles b.session b.audio_modifications >> ok b in
    let (to, from) = validate_handles_iff b.session b.audio_sources in
    let (to', from') = validate_handles_iff b.session b.audio_modifications in
    (
      λ e.
          let (_, x, e) = ok_bind (validate_handles b.session b.audio_sources) (λ _. checked) e in
          let (_, y, e) =
            ok_bind (validate_handles b.session b.audio_modifications) (λ _. ok b) e in
          let same : b ≡ f = cc in (sym same, to x, to' y),
      λ (same, good, good').
          ap (λ (r : Result AraError Unit). r >> checked) (from good)
          ∙ ap (λ (r : Result AraError Unit). r >> ok b) (from' good')
          ∙ ap ok (sym same),
    )
