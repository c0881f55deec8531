-- ===== src/Document/Editing.antt =====
-- The scopes of ara2-bridge-host/src/document/edit.rs: a scope begins once, ends once, and a
-- scope that is dropped rather than finished poisons the session when its end fails.
use ara2_bridge.Base.{ℕ, zero, suc, Bool, true, false, not, ◌||◌}
use ara2_bridge.Errors.{ok, guard, invalid_state, unsupported, peer, is_ok}
use ara2_bridge.Properties.{at_least, v2_final}
use ara2_bridge.Document.Session.{Session, Plugin, Call, Op, ◌>>=◌, ◌>>◌, pure, check, update, call}

pub data EndMode : Type 0 where
  editing : EndMode
  legacy_restore : ℕ → EndMode

-- Begins one balanced document-editing scope.
unfoldable pub begin : Plugin → Op EndMode
begin plugin = do
  check (λ s. guard (not s.editing) (invalid_state "document is already being edited"))
  check (λ s. guard (not s.poisoned) (invalid_state "document session is poisoned"))
  call plugin Call.begin_editing
  update (λ s. record s { editing = true })
  pure editing

-- `AraBool::from_raw(accepted).get()`.
unfoldable pub accepted : ℕ → Bool
accepted zero = false
accepted (suc n) = true

-- Begins a legacy restore scope, of generations before ARA 2 Final.
unfoldable pub begin_legacy_restore : Plugin → ℕ → Op EndMode
begin_legacy_restore plugin reader = do
  check (λ s.
      guard (not (at_least v2_final s.generation))
        (unsupported "legacy restoration on ARA 2 Final or newer"))
  check (λ s. guard (not s.editing) (invalid_state "document is already being edited"))
  check (λ s. guard (not s.poisoned) (invalid_state "document session is poisoned"))
  answer ← call plugin (Call.begin_restoring reader)
  check (λ s. guard (accepted answer) (peer "plug-in rejected document restoration"))
  update (λ s. record s { editing = true })
  pure (legacy_restore reader)

unfoldable pub end_scope : Plugin → EndMode → Op (Unit {0})
end_scope plugin editing = do call plugin Call.end_editing; pure tt
end_scope plugin (legacy_restore reader) = do
  answer ← call plugin (Call.end_restoring reader)
  check (λ s. guard (accepted answer) (peer "plug-in rejected the end of document restoration"))

unfoldable pub close_scope : Session → Session
close_scope s = record s { editing = false }

-- Ends editing exactly once and reports the error of the end.
unfoldable pub finish : Plugin → EndMode → Op (Unit {0})
finish plugin mode s = let (t, r) = end_scope plugin mode s in (close_scope t, r)

-- `Drop`, of a scope that was not finished.
unfoldable pub drop : Plugin → EndMode → Op (Unit {0})
drop plugin mode s =
    let (t, r) = end_scope plugin mode s in
    (close_scope (record t { poisoned = t.poisoned || not (is_ok r) }), ok tt)
