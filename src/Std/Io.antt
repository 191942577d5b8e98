-- ===== src/Std/Io.antt =====
-- The results of calls to the operating system.
use task_fence.Prelude.{String}

-- An error of the operating system, with its text.
pub data IoError : Type 0 where
  not_found other : String → IoError

-- What such a call gives.
pub data Io (A : Type 0) : Type 0 where
  done : A → Io A
  failed : IoError → Io A

abbrev pub message_of : IoError → String
message_of (not_found m) = m
message_of (other m) = m
