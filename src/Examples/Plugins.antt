-- ===== src/Examples/Plugins.antt =====
-- Concrete runs of the plug-in's analysis and update queues; fractions are in percent.
use ara2_bridge.Base.{
  ℕ, true, false, some, List, [], ◌∷◌, ◌++◌, length, leb, ltb, if◌then◌else◌, ◌≡◌, refl, ◌+◌, ◌-◌,
  ◌≤◌, arith,
}
use ara2_bridge.Errors.{ok}
use ara2_bridge.Registry.{RawHandle, audio_source_kind}
use ara2_bridge.Plugin.Keys.{find, count}
use ara2_bridge.Plugin.Analysis.{Fractions, started, updated, completed}
use ara2_bridge.Plugin.Analysis.Callbacks.{new_analysis}
use ara2_bridge.Plugin.Analysis.Protocol.{
  View, quiet, notice, revoked, follow, Command, request, emit_update, emit_completion, revoke,
  notify, history,
}
use ara2_bridge.Plugin.Analysis.Protocol.Obeyed.{history-obeys}
use ara2_bridge.Plugin.Updates.{
  Times, PendingContent, Pending, UpdateNotification, audio_source, document_data, UpdateTracker,
  application, host, recovery, mark, Deliver, flush_with, pending_count, new_tracker,
}
use ara2_bridge.Plugin.Updates.Summary.{summary, told, mark_all-content}
use ara2_bridge.Plugin.Updates.Merging.{Mark, mark_all, keys}
use ara2_bridge.Plugin.Updates.Flushing.{run, batch, flush_with-batch}

abbrev percent : Fractions
percent = record { Carrier = ℕ; zero = 0; one = 100; is_finite = λ n. true; le = leb; lt = ltb }

abbrev song : RawHandle
song = record {
  raw_index = record { before = 0 };
  raw_session = record { before = 0 };
  kind = audio_source_kind;
}

abbrev song_hosts : List (RawHandle × ℕ)
song_hosts = (song, 7) ∷ []

song_is_own : (t : RawHandle) → find t song_hosts ≡ some 7 → t ≡ song
song_is_own t e = ground arith

-- A start, a fraction that is below the last one, a completion, and a second analysis that is
-- revoked while its start waits.
abbrev song_commands : List (Command ℕ)
song_commands =
    request song (3 ∷ []) true
    ∷ emit_update song 40
    ∷ notify true
    ∷ emit_update song 20
    ∷ emit_completion song
    ∷ notify true
    ∷ request song (3 ∷ []) true
    ∷ revoke song
    ∷ notify true
    ∷ []

heard_of_song :
    history percent (3 ∷ []) song_hosts song_commands new_analysis
    ≡ notice (7, started) ∷ notice (7, updated 40) ∷ notice (7, completed) ∷ revoked song ∷ []
unfolding history
heard_of_song = refl

history-obeys_example :
    (v : View ℕ) × (follow percent song 7
        (history percent (3 ∷ []) song_hosts song_commands new_analysis)
        (some quiet)
      ≡ some v)
history-obeys_example =
    history-obeys percent (3 ∷ []) song_hosts song 7 song_commands refl song_is_own

-- Whole seconds stand for the times.
abbrev seconds : Times
seconds = record {
  Carrier = ℕ;
  add = λ a b. a + b;
  sub = λ a b. a - b;
  min = λ a b. if leb a b then a else b;
  max = λ a b. if leb a b then b else a;
  is_finite = λ n. true;
  is_negative = λ n. false;
}

abbrev change : ℕ → ℕ → ℕ → PendingContent ℕ
change start duration flags = record {
  range = some (record { start = start; duration = duration });
  flags = flags;
}

-- Two changes of the application, and one that the host made between them.
abbrev song_marks : List (Mark ℕ)
song_marks =
    record { object = song; content = change 4 2 5; origin = application }
    ∷ record { object = song; content = change 0 9 0; origin = host }
    ∷ record { object = song; content = change 2 3 1; origin = recovery }
    ∷ []

abbrev song_pending : Pending ℕ
song_pending = (song, change 2 4 1) ∷ []

told_of_song : summary seconds (told song song_marks) ≡ some (change 2 4 1)
told_of_song = refl

song_marked : mark_all seconds song_marks [] ≡ ok song_pending
unfolding mark
song_marked = refl

mark_all-content_example :
    (find song song_pending ≡ summary seconds (told song song_marks))
    × (count song (keys song_pending) ≤ 1)
mark_all-content_example = mark_all-content seconds song_marks song song_marked

abbrev song_tracker : UpdateTracker ℕ
song_tracker = record { sources = song_pending; modifications = []; regions = []; document = true }

-- A delivery that keeps a log.
abbrev logging : Deliver ℕ (List (UpdateNotification ℕ))
logging n log t = (log ++ n ∷ [], t)

song_flushed :
    flush_with logging [] song_tracker
    ≡ (audio_source song (change 2 4 1) ∷ document_data ∷ [], new_tracker)
unfolding flush_with
song_flushed = refl

flush_with-batch_example :
    (flush_with logging [] song_tracker ≡ run logging (batch song_tracker) ([], new_tracker))
    × (length (batch song_tracker) ≡ pending_count song_tracker)
flush_with-batch_example = flush_with-batch logging [] song_tracker
