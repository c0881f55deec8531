-- ===== src/Document/Integrity/Scopes.antt =====
-- Scopes of editing and of legacy restoration leave the graph alone
-- (ara2-bridge-host/src/document/edit.rs).
use ara2_bridge.Base.{ℕ}
use ara2_bridge.Document.Records.{Graph}
use ara2_bridge.Document.Session.{Session, Plugin}
use ara2_bridge.Document.Keeps.{keep_check, keep_update, keep_pure, keep_call, keep_last_check}
use ara2_bridge.Document.Editing.{
  EndMode, editing, legacy_restore, begin, begin_legacy_restore, end_scope, close_scope, finish,
  drop,
}

module _ (I : Graph → Type 0) (plugin : Plugin) (s : Session) (i : I s.graph) where
  pub keep_begin : I (begin plugin s).0.graph
  unfolding begin
  keep_begin = keep_check I _ _ _ i λ _ _.
      keep_check I _ _ _ i
        λ _ _. keep_call I _ _ _ _ i λ _ refs calls. keep_update I _ _ _ (keep_pure I _ _ i)

  pub keep_begin_legacy : (reader : ℕ) → I (begin_legacy_restore plugin reader s).0.graph
  unfolding begin_legacy_restore
  keep_begin_legacy reader = keep_check I _ _ _ i λ _ _. keep_check I _ _ _ i λ _ _.
      keep_check I _ _ _ i λ _ _.
        keep_call I _ _ _ _ i
          λ _ refs calls. keep_check I _ _ _ i λ _ _. keep_update I _ _ _ (keep_pure I _ _ i)

  keep_end : (mode : EndMode) → I (end_scope plugin mode s).0.graph
  unfolding end_scope
  keep_end editing = keep_call I _ _ _ _ i λ _ refs calls. keep_pure I _ _ i
  keep_end (legacy_restore reader) = keep_call I _ _ _ _ i λ _ refs calls. keep_last_check I _ _ i

  pub keep_finish : (mode : EndMode) → I (finish plugin mode s).0.graph
  unfolding finish close_scope
  keep_finish mode = keep_end mode

  pub keep_drop : (mode : EndMode) → I (drop plugin mode s).0.graph
  unfolding drop close_scope
  keep_drop mode = keep_end mode
