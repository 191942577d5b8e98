-- ===== src/Audit/Logger.antt =====
-- crates/taskfence-audit/src/lib.rs: `LocalJsonlAuditLogger`. How an event is serialised, and the file, are
-- the record `JsonFiles`, over any world.
pub mod Written
use task_fence.Prelude.{
  ℕ, String, Bool, true, false, Option, none, some, List, [], ◌∷◌, if◌then◌else◌,
}
use task_fence.Std.Format.{format}
use task_fence.Std.Io.{IoError, Io, done, failed, message_of}
use task_fence.Core.Error.{Result, ok, err, TaskFenceError, audit, map_err}
use task_fence.Core.Effect.{Effect, pure, raise, lift, gets, ◌>>=◌, ◌>>◌}
use task_fence.Core.Task.{Utf8PathBuf}
use task_fence.Core.Event.{AuditEvent}
use task_fence.Audit.Value.{Value, default_max_string_bytes, sanitize_json_value}

-- `parent`, `create_dir_all`, the opening of a file to append to it, and the writes to it.
pub record JsonFiles (W : Type 0) : Type 0 where
  pub to_value : AuditEvent → Io Value
  pub parent : Utf8PathBuf → Option Utf8PathBuf
  pub create_dir_all : Utf8PathBuf → W → Io (Unit {0}) × W
  pub open_append : Utf8PathBuf → W → Io (Unit {0}) × W
  pub write_json : Value → W → Io (Unit {0}) × W
  pub write_newline : W → Io (Unit {0}) × W
  pub flush : W → Io (Unit {0}) × W

-- With the length of `AuditSanitizer`.
pub record LocalJsonlAuditLogger : Type 0 where
  pub path : Utf8PathBuf
  pub max_string_bytes : ℕ

-- Whether the mutex of the writer is poisoned, and the world.
pub record WriterState (W : Type 0) : Type 0 where
  pub poisoned : Bool
  pub world : W

unfoldable pub audit_io_error : IoError → TaskFenceError
audit_io_error e = audit (message_of e)

abbrev pub labelled_error : String → IoError → TaskFenceError
labelled_error label e = audit (format (label ∷ message_of e ∷ []))

module _ {W : Type 0} (files : JsonFiles W) where
  abbrev pub call :
      (IoError → TaskFenceError) → (W → Io (Unit {0}) × W) → Effect (WriterState W) (Unit {0})
  call f io s = (map_err f (io s.world).0, record s { world = (io s.world).1 })

  abbrev create_parent : Option Utf8PathBuf → Effect (WriterState W) (Unit {0})
  create_parent none s = (ok tt, s)
  create_parent (some parent) s = call audit_io_error (files.create_dir_all parent) s

  unfoldable pub with_sanitizer : Utf8PathBuf → ℕ → Effect (WriterState W) LocalJsonlAuditLogger
  unfolding audit_io_error
  with_sanitizer path max_string_bytes = do
    create_parent (files.parent path)
    call audit_io_error (files.open_append path)
    pure (record { path = path; max_string_bytes = max_string_bytes })

  unfoldable pub new : Utf8PathBuf → Effect (WriterState W) LocalJsonlAuditLogger
  unfolding with_sanitizer
  new path = with_sanitizer path default_max_string_bytes

  unfoldable pub lock_writer : Effect (WriterState W) (Unit {0})
  lock_writer = gets (λ s. s.poisoned) >>= λ poisoned.
      if poisoned then raise (audit "audit writer lock poisoned") else pure tt

  -- `AuditLogger::record`
  unfoldable pub record_event :
      LocalJsonlAuditLogger → AuditEvent → Effect (WriterState W) (Unit {0})
  unfolding sanitize_json_value lock_writer audit_io_error format
  record_event logger event = do
    value ←
        lift (map_err (labelled_error "failed to serialize audit event: ") (files.to_value event))
    lock_writer
    call (labelled_error "failed to write audit json: ")
        (files.write_json (sanitize_json_value logger.max_string_bytes value))
    call audit_io_error files.write_newline
    call audit_io_error files.flush
