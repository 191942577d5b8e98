-- ===== src/Tests/AuditTests.antt =====
-- A log that is the list of its values, and an event with a token and a secret.
use task_fence.Prelude.{some, List, [], ◌∷◌, All, false}
use task_fence.Std.Io.{done}
use task_fence.Core.Event.{AuditEvent}
use task_fence.Audit.Value.{Value, string, object, entry, no_entries, default_max_string_bytes}
use task_fence.Audit.Value.Clean.{IsClean}
use task_fence.Audit.Logger.{JsonFiles, LocalJsonlAuditLogger, WriterState, record_event}
use task_fence.Audit.Logger.Written.{KeepsCleanLines, record_event-Keeps}

abbrev serialized : Value
serialized =
    object (entry "goal" (string "push with ghp_abc") (entry "api_token" (string "t0p") no_entries))

abbrev files : JsonFiles (List Value)
files = record {
  to_value = λ event. done serialized;
  parent = λ path. some "/logs";
  create_dir_all = λ path w. (done tt, w);
  open_append = λ path w. (done tt, w);
  write_json = λ value w. (done tt, value ∷ w);
  write_newline = λ w. (done tt, w);
  flush = λ w. (done tt, w);
}

abbrev logger : LocalJsonlAuditLogger
logger = record { path = "/logs/events.jsonl"; max_string_bytes = default_max_string_bytes }

abbrev before_event : WriterState (List Value)
before_event = record { poisoned = false; world = [] }

abbrev event : AuditEvent
event = AuditEvent.task_created "t1" 0 "push with ghp_abc"

files-KeepsCleanLines : KeepsCleanLines files (All IsClean)
files-KeepsCleanLines = record {
  writes = λ value w clean h. (clean, h);
  ends = λ w h. h;
  flushes = λ w h. h;
}

record_event-Keeps_example : All IsClean (record_event files logger event before_event).1.world
record_event-Keeps_example =
    record_event-Keeps files (All IsClean) logger event before_event files-KeepsCleanLines tt
