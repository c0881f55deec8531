-- ===== src/Examples/Documents.antt =====
-- Runs of a document session with a plug-in that accepts everything.
use ara2_bridge.Base.{true, false, some, none, List, [], ◌∷◌, ◌≡◌, refl}
use ara2_bridge.Errors.{ok}
use ara2_bridge.Registry.{
  Handle, NonZero, get, in_session, insert, modify, opaque_pointer, checked_cell, values,
  audio_source_kind, audio_modification_kind,
}
use ara2_bridge.Properties.{
  DocumentProperties, MusicalContextProperties, AudioSourceProperties, AudioModificationProperties,
  v23_final, ensure_generation,
}
use ara2_bridge.Document.Records.{contains, insert_id, AudioModificationRecord, AudioSourceRecord}
use ara2_bridge.Document.Session.{
  Session, Plugin, check, call, update, pure, fail, write, write_or, ◌>>=◌, invoke_provisional,
  begin_provisional, observe_provisional, finish_provisional, observe_all,
}
use ara2_bridge.Document.Create.{
  create_musical_context, create_audio_source, create_audio_modification, clone_audio_modification,
  store_modification, claim_id, settle,
}
use ara2_bridge.Document.Destroy.{destroy_audio_source, set_audio_source_deactivated}
use ara2_bridge.Document.Editing.{begin}
use ara2_bridge.Document.Requests.{
  Request, perform, perform_all, new_session, new_graph, create_source, source_deactivated,
  create_modification, destroy_source, begin_edit,
}
use ara2_bridge.Document.Linked.{IsLinked}
use ara2_bridge.Document.Integrity.Histories.{history-IsLinked}
use ara2_bridge.Document.Contracts.{ContextOutcome, create_musical_context-outcome}
use ara2_bridge.Document.Contracts.Modifications.{
  ModificationOutcome, AsksFor, LacksSource, create_audio_modification-outcome,
}
use ara2_bridge.Document.Contracts.Sources.{SourceOutcome, create_audio_source-outcome}
use ara2_bridge.Document.Contracts.Updates.{SourceUpdate, update_audio_source-outcome}
use ara2_bridge.Document.Update.{update_audio_source}
use ara2_bridge.Document.Contracts.Clones.{CloneOutcome, clone_audio_modification-outcome}
use ara2_bridge.Document.Dependents.{IsBlocked, blocked-perform}

-- Its objects are at address 500, and its callbacks name no host object.
abbrev plain_plugin : Plugin
plain_plugin = record { answer = λ _ _. ok 500; observed = λ _ _. [] }

abbrev session_one : NonZero
session_one = record { before = 0 }

abbrev source_handle : Handle audio_source_kind
source_handle = record { index = record { before = 0 }; session = session_one }

abbrev modification_handle : Handle audio_modification_kind
modification_handle = record { index = record { before = 0 }; session = session_one }

abbrev source_properties : AudioSourceProperties
source_properties = record {
  name = some "voice";
  persistent_id = "source";
  sample_count = 48000;
  sample_rate = 48000;
  channel_count = 1;
  merits_64_bit_samples = false;
  channel_arrangement = none;
}

abbrev modification_properties : AudioModificationProperties
modification_properties = record { name = none; persistent_id = "modification" }

abbrev clone_properties : AudioModificationProperties
clone_properties = record { name = none; persistent_id = "clone" }

abbrev context_properties : MusicalContextProperties
context_properties = record { name = none; order_index = 0; color = none }

abbrev untitled : DocumentProperties
untitled = record { name = none }

abbrev build : List Request
build =
    begin_edit
    ∷ create_source 80 source_properties
    ∷ create_modification 96 source_handle modification_properties
    ∷ destroy_source source_handle
    ∷ []

abbrev new_document : Session
new_document = new_session session_one v23_final false untitled

abbrev built : Session
built = perform_all plain_plugin build new_document

abbrev stored_modification : AudioModificationRecord
stored_modification = record {
  properties = modification_properties;
  peer = some 500;
  source = source_handle;
  active = true;
}

built-live : get modification_handle built.graph.audio_modifications ≡ ok stored_modification
unfolding perform_all perform new_session new_graph in_session begin check call observe_all
    observe_provisional begin_provisional finish_provisional invoke_provisional ◌>>=◌ update pure
    fail create_audio_source claim_id contains insert_id write_or write insert get opaque_pointer
    checked_cell ensure_generation settle modify create_audio_modification store_modification
    destroy_audio_source values
built-live = refl

history-IsLinked_example : IsLinked built.graph
history-IsLinked_example = history-IsLinked plain_plugin build session_one v23_final false untitled

blocked-perform_example : perform plain_plugin (destroy_source source_handle) built ≡ built
blocked-perform_example =
    blocked-perform plain_plugin built (destroy_source source_handle)
      (IsBlocked.by_modification modification_handle stored_modification built-live)

new_document-supported : ensure_generation new_document.aarch64 new_document.generation ≡ ok tt
unfolding ensure_generation new_session
new_document-supported = refl

create_musical_context-outcome_example :
    ContextOutcome plain_plugin 112 context_properties new_document
      (create_musical_context plain_plugin 112 context_properties new_document)
create_musical_context-outcome_example =
    create_musical_context-outcome plain_plugin 112 context_properties new_document
      new_document-supported

-- A modification is created, active, on a source that was deactivated before.
abbrev muted : Session
muted =
    perform_all plain_plugin
      (begin_edit
        ∷ create_source 80 source_properties
        ∷ source_deactivated source_handle true
        ∷ create_modification 96 source_handle modification_properties
        ∷ [])
      new_document

abbrev muted_source : AudioSourceRecord
muted_source = record {
  properties = source_properties;
  peer = some 500;
  active = false;
  samples_access_enabled = false;
}

active_on_inactive :
    (get source_handle muted.graph.audio_sources ≡ ok muted_source)
    × (get modification_handle muted.graph.audio_modifications ≡ ok stored_modification)
unfolding perform_all perform new_session new_graph in_session begin check call observe_all
    observe_provisional begin_provisional finish_provisional invoke_provisional ◌>>=◌ update pure
    fail create_audio_source claim_id contains insert_id write_or write insert get opaque_pointer
    checked_cell ensure_generation settle modify create_audio_modification store_modification
    set_audio_source_deactivated values
active_on_inactive = (refl, refl)

-- A document with one source.
abbrev sourced : Session
sourced =
    perform_all plain_plugin (begin_edit ∷ create_source 80 source_properties ∷ []) new_document

create_audio_modification-outcome_example :
    ModificationOutcome plain_plugin
      (LacksSource source_handle sourced)
      (AsksFor source_handle 96 modification_properties sourced)
      source_handle
      modification_properties
      sourced
      (create_audio_modification plain_plugin 96 source_handle modification_properties sourced)
create_audio_modification-outcome_example =
    create_audio_modification-outcome plain_plugin 96 source_handle modification_properties sourced

clone_audio_modification-outcome_example :
    CloneOutcome plain_plugin 128 modification_handle clone_properties built
      (clone_audio_modification plain_plugin 128 modification_handle clone_properties built)
clone_audio_modification-outcome_example =
    clone_audio_modification-outcome plain_plugin 128 modification_handle clone_properties built

create_audio_source-outcome_example :
    SourceOutcome plain_plugin 80 source_properties new_document
      (create_audio_source plain_plugin 80 source_properties new_document)
create_audio_source-outcome_example =
    create_audio_source-outcome plain_plugin 80 source_properties new_document
      new_document-supported

abbrev renamed_properties : AudioSourceProperties
renamed_properties = record source_properties { persistent_id = "renamed" }

update_audio_source-outcome_example :
    SourceUpdate source_handle renamed_properties sourced
      (update_audio_source plain_plugin source_handle renamed_properties sourced)
update_audio_source-outcome_example =
    update_audio_source-outcome plain_plugin source_handle renamed_properties sourced
