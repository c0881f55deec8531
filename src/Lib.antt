-- ===== src/Lib.antt =====
-- A model of ara2-bridge, the bridge between audio hosts and ARA plug-ins: the checked core that the
-- host and the plug-in share, and the host's document session.
--
-- Parts and files:
-- - Errors: ara2-bridge-core/src/error.rs. A fallible operation returns a Result.
-- - Registry: ara2-bridge-core/src/registry.rs and handles.rs. A registry is a list of cells; insert
--   takes the address that the allocator gave the boxed cell. `modify` is a write through `get_mut`.
-- - Properties: the owned object properties of ara2-bridge-core/src/properties and the API
--   generations. A float is its bit pattern.
-- - Document: the session of ara2-bridge-host/src/document. Document.Session has the state and its
--   operations; an operation keeps its changes when it fails, as a method on `&mut self` does.
--   Document.Create, Regions, Update, Destroy and Editing have the methods of edit.rs under their
--   names, and Document.Requests has one request for each. Document.Keeps and Document.Outcomes have
--   the rules by which proofs follow a method; Document.Linked and Document.Integrity have the edges of
--   the graph, and Document.Contracts what single methods promise. The plug-in is a record of two functions,
--   its answer to a call after the calls before, and the host references that its callbacks name
--   meanwhile; nothing is assumed of them.
-- - Diagnostics: ara2-bridge-core/src/diagnostics.rs and poison.rs.
-- - Lifecycle: ara2-bridge-core/src/lifecycle.rs and threading.rs. A thread is a number. A begin
--   locks its state twice, for its check and for its change, which the model has as `enter`. What
--   threads do is the relation of steps of Lifecycle.Balance, in which others come in between the two,
--   and a guard whose end is refused is lost while its interval stays open.
-- - AudioFile: ara2-bridge-core/src/audio_file/container.rs. AudioFile.Inspect has the scan of a
--   container, in steps named for what they do, and AudioFile.Rewrite reads and rewrites its iXML
--   chunk. A stream is the list of its bytes, and the output is one that starts empty.
-- - Plugin: the plug-in's side, of ara2-bridge-plugin/src. Plugin.Analysis has analysis.rs and the
--   callbacks of controller.rs that drive it, Plugin.Updates has updates.rs. What the code uses of
--   floating point is a record of functions.
-- - Archive: ara2-bridge-core/src/archive, archives in memory (io.rs) and the builders of filters
--   (filter.rs).
-- - Channel, Processing and Realtime: ara2-bridge-core/src/channel.rs, processing.rs and
--   realtime.rs.
-- - Content: ara2-bridge-core/src/content, tempo, bar-signature, key-signature and chord events
--   (events.rs) and the checks of their sequences (validate.rs).
-- - Base: native numbers, lists and Boolean tests. Examples: runs at concrete inputs.
--
-- The parts meet in the document: its five registries hold the records whose handles are the edges
-- of the graph, and a host reference that the plug-in gets is the address of a registry cell.
--
-- Bounds: handles hold an index of 32 bits and a session of 64 bits, and registries refuse to grow
-- over their capacity; archives check their ranges against 64 bits and the target's `usize`, which
-- is an argument. Two loops run on fuel: the scan of an audio container has 65,537 rounds, one more
-- than the chunks that it allows, after which it refuses the next, and the binary search of a
-- snapshot has as many as there are entries.
--
-- Not modelled: the raw C records and the generated dispatch, the host's services but for the
-- provisional references, storing and partial restoration of archives, closing of a document, the
-- plug-in's runtime and the rest of its controller, the XML in an iXML chunk, and the companion
-- interfaces; of the content, notes, tunings, interval usages and the readers.
pub mod Base
pub mod Errors
pub mod Registry
pub mod Properties
pub mod AudioFile
pub mod Document
pub mod Channel
pub mod Diagnostics
pub mod Lifecycle
pub mod Plugin
pub mod Processing
pub mod Realtime
pub mod Content
pub mod Archive
pub mod Examples
