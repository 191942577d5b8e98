-- ===== src/Audit/Logger/Written.antt =====
-- What the audit logger writes to its file.
use task_fence.Std.Io.{IoError, Io}
use task_fence.Core.Error.{TaskFenceError}
use task_fence.Core.Effect.{Keeps, Keeps-bind, Keeps-lift, Keeps-if, Keeps-raise, Keeps-pure, gets}
use task_fence.Core.Event.{AuditEvent}
use task_fence.Audit.Value.{Value, sanitize_json_value}
use task_fence.Audit.Value.Clean.{IsClean, sanitize_json_value-IsClean}
use task_fence.Audit.Logger.{
  JsonFiles, LocalJsonlAuditLogger, WriterState, call, lock_writer, record_event,
}

-- A property of the world that a line of a clean value keeps.
pub record KeepsCleanLines {W : Type 0} (files : JsonFiles W) (P : W → Type 0) : Type 0 where
  pub writes : (value : Value) (w : W) → IsClean value → P w → P (files.write_json value w).1
  pub ends : (w : W) → P w → P (files.write_newline w).1
  pub flushes : (w : W) → P w → P (files.flush w).1

module _ {W : Type 0} (files : JsonFiles W) (P : W → Type 0) where
  abbrev OfWorld : WriterState W → Type 0
  OfWorld s = P s.world

  call-Keeps :
      (f : IoError → TaskFenceError) (io : W → Io (Unit {0}) × W)
      → ((w : W) → P w → P (io w).1)
      → Keeps OfWorld (call files f io)
  call-Keeps f io h = record { after = λ s k. h s.world k }

  lock-Keeps : Keeps OfWorld (lock_writer files)
  unfolding lock_writer gets
  lock-Keeps =
      Keeps-bind _ _ (record { after = λ s k. k })
        (λ b. Keeps-if b _ _ (Keeps-raise _) (Keeps-pure _))

-- The audit logger writes nothing but clean values: a property of the world that the writing of a JSON
-- value keeps, where the value is clean (none of its texts holds a prefix of a token, and the value of each
-- secret key is a marker), and that ends of lines and flushes keep, is kept by the recording of any event,
-- also where it fails.
pub record_event-Keeps :
    {W : Type 0} (files : JsonFiles W) (P : W → Type 0) (logger : LocalJsonlAuditLogger)
    (event : AuditEvent) (s : WriterState W)
    → KeepsCleanLines files P
    → P s.world
    → P (record_event files logger event s).1.world
unfolding record_event
record_event-Keeps files P logger event s h k =
    (Keeps-bind _ _ (Keeps-lift _) (λ value. Keeps-bind _ _ (lock-Keeps files P) (λ u.
        Keeps-bind _ _
          (call-Keeps files P _ _ (λ w.
            h.writes (sanitize_json_value logger.max_string_bytes value) w
              (sanitize_json_value-IsClean logger.max_string_bytes value)))
          (λ u.
            Keeps-bind _ _ (call-Keeps files P _ _ h.ends)
              (λ u. call-Keeps files P _ _ h.flushes))))).after
      s k
