-- ===== src/Document/Session.antt =====
-- The host's document session and its operations on state: `DocumentSession` in
-- ara2-bridge-host/src/document/mod.rs, the provisional references of
-- ara2-bridge-host/src/services/dispatch.rs, and the calls to the plug-in's controller.
use ara2_bridge.Base.{ℕ, Bool, true, false, Option, List, [], ◌∷◌, ◌==◌, if◌then◌else◌}
use ara2_bridge.Errors.{Result, ok, err, AraError}
use ara2_bridge.Properties.{
  ApiGeneration, DocumentProperties, MusicalContextProperties, RegionSequenceProperties,
  AudioSourceProperties, AudioModificationProperties, PlaybackRegionProperties,
}
use ara2_bridge.Document.Records.{Graph}

-- A call to the plug-in's controller; peers and host references are addresses.
pub data Call : Type 0 where
  begin_editing end_editing : Call
  begin_restoring end_restoring store_document : ℕ → Call
  update_document_properties : DocumentProperties → Call
  create_musical_context : ℕ → MusicalContextProperties → Call
  create_region_sequence : ℕ → RegionSequenceProperties → Call
  create_audio_source : ℕ → AudioSourceProperties → Call
  create_audio_modification : ℕ → ℕ → AudioModificationProperties → Call
  clone_audio_modification : ℕ → ℕ → AudioModificationProperties → Call
  create_playback_region : ℕ → ℕ → PlaybackRegionProperties → Call
  update_musical_context : ℕ → MusicalContextProperties → Call
  update_region_sequence : ℕ → RegionSequenceProperties → Call
  update_audio_source : ℕ → AudioSourceProperties → Call
  update_audio_modification : ℕ → AudioModificationProperties → Call
  update_playback_region : ℕ → PlaybackRegionProperties → Call
  update_musical_context_content update_audio_source_content : ℕ → Option (ℕ × ℕ) → ℕ → Call
  enable_samples_access deactivate_audio_source deactivate_audio_modification : ℕ → Bool → Call
  destroy_musical_context destroy_region_sequence destroy_audio_source : ℕ → Call
  destroy_audio_modification destroy_playback_region : ℕ → Call

-- The plug-in behind the checked dispatch: its answer to a call after the calls made before, the
-- newest first (a refused dispatch is an error, a null pointer and a false ARABool are 0), and the
-- host references that its callbacks name while the call runs.
pub record Plugin : Type 0 where
  pub answer : List Call → Call → Result AraError ℕ
  pub observed : List Call → Call → List ℕ

pub record Session : Type 0 where
  pub graph : Graph
  pub generation : ApiGeneration
  pub aarch64 : Bool
  pub properties : DocumentProperties
  pub provisional_references : List (ℕ × Bool)
  pub editing : Bool
  pub poisoned : Bool
  pub calls : List Call

-- `HashMap::insert`, a lookup for writing, and `HashMap::remove`.
abbrev drop_reference : ℕ → List (ℕ × Bool) → List (ℕ × Bool)
drop_reference p [] = []
drop_reference p ((q, b) ∷ rs) =
    if q == p then drop_reference p rs else (q, b) ∷ drop_reference p rs

unfoldable pub begin_provisional : ℕ → List (ℕ × Bool) → List (ℕ × Bool)
begin_provisional p rs = (p, false) ∷ drop_reference p rs

unfoldable pub observe_provisional : ℕ → List (ℕ × Bool) → List (ℕ × Bool)
observe_provisional p [] = []
observe_provisional p ((q, b) ∷ rs) =
    if q == p then (q, true) ∷ rs else (q, b) ∷ observe_provisional p rs

unfoldable pub finish_provisional : ℕ → List (ℕ × Bool) → Bool × List (ℕ × Bool)
finish_provisional p [] = (false, [])
finish_provisional p ((q, b) ∷ rs) =
    let (flag, rest) = finish_provisional p rs in if q == p then (b, rs) else (flag, (q, b) ∷ rest)

unfoldable pub observe_all : List ℕ → List (ℕ × Bool) → List (ℕ × Bool)
unfolding observe_provisional
observe_all [] rs = rs
observe_all (p ∷ ps) rs = observe_all ps (observe_provisional p rs)

-- A method of the session: the state stays changed when it fails.
abbrev pub Op : Type 0 → Type 0
Op A = Session → Session × Result AraError A

abbrev pub continue :
    {A B : Type 0} → Session × Result AraError A → (A → Op B) → Session × Result AraError B
continue (s, ok a) f = f a s
continue (s, err e) f = (s, err e)

infixl 5 ◌>>=◌ ◌>>◌
unfoldable pub ◌>>=◌ : {A B : Type 0} → Op A → (A → Op B) → Op B
◌>>=◌ m f s = continue (m s) f

abbrev pub ◌>>◌ : {A B : Type 0} → Op A → Op B → Op B
m >> k = m >>= λ _. k

unfoldable pub pure : {A : Type 0} → A → Op A
pure a s = (s, ok a)

unfoldable pub fail : {A : Type 0} → AraError → Op A
fail e s = (s, err e)

-- A check that reads the state.
unfoldable pub check : {A : Type 0} → (Session → Result AraError A) → Op A
check q s = (s, q s)

-- A write that may be refused, in which case nothing is written.
unfoldable pub write : (Session → Result AraError Session) → Op (Unit {0})
write q s = elim (q s) [ ok s' ↦ (s', ok tt) | err e ↦ (s, err e) ]

-- A write that returns a value, with what is undone if it is refused.
unfoldable pub write_or :
    {A : Type 0} → (Session → Session) → (Session → Result AraError (A × Session)) → Op A
write_or undo q s = elim (q s) [ ok (a, s') ↦ (s', ok a) | err e ↦ (undo s, err e) ]

unfoldable pub update : (Session → Session) → Op (Unit {0})
update f s = (f s, ok tt)

-- The call's outcome as a value: the caller looks at it before it fails.
unfoldable pub invoke : Plugin → Call → Op (Result AraError ℕ)
unfolding observe_all
invoke plugin c s = (
  record s {
    provisional_references = observe_all (plugin.observed s.calls c) s.provisional_references;
    calls = c ∷ s.calls;
  },
  ok (plugin.answer s.calls c),
)

-- The call, whose error is the caller's.
unfoldable pub call : Plugin → Call → Op ℕ
unfolding observe_all
call plugin c s = (
  record s {
    provisional_references = observe_all (plugin.observed s.calls c) s.provisional_references;
    calls = c ∷ s.calls;
  },
  plugin.answer s.calls c,
)

-- A create call between `begin_provisional` and `finish_provisional`: its outcome, and whether the
-- plug-in named the provisional reference meanwhile.
unfoldable pub invoke_provisional : Plugin → ℕ → Call → Op (Result AraError ℕ × Bool)
unfolding begin_provisional finish_provisional observe_all
invoke_provisional plugin p c s =
    let refs =
      observe_all (plugin.observed s.calls c) (begin_provisional p s.provisional_references) in
    let (escaped, rest) = finish_provisional p refs in
    (
      record s { provisional_references = rest; calls = c ∷ s.calls },
      ok (plugin.answer s.calls c, escaped),
    )
