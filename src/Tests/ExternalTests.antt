-- ===== src/Tests/ExternalTests.antt =====
-- Approvals through files.
use task_fence.Prelude.{ℕ, ◌+◌, ◌≡◌, refl, suc, Bool, true, false, none, some, [], ◌∷◌, arith}
use task_fence.Std.Map.{get}
use task_fence.Core.Error.{Result, ok}
use task_fence.Core.Action.{ApprovalRecord, approved, denied}
use task_fence.Core.Effect.{pure}
use task_fence.Approval.Store.{Outside, resolve_with_actor}
use task_fence.Approval.External.{LocalExternalApprovalEngine, Timeouts, or_default, wait}
use task_fence.Approval.Store.Final.{ReadsDecided, Refuses, resolve_with_actor-final}
use task_fence.Approval.External.Returns.{IsClock, IsDecided, wait-Returns}
use task_fence.Tests.Fixture.{approval}

-- A store whose one file stays undecided, in a world that is the clock.
abbrev unanswered : Outside ℕ
unanswered = record {
  read_json = λ path id. pure (approval none);
  write_json = λ path r. pure tt;
  now_utc = pure 7;
  new_id = pure "a1";
  show_request = λ r. pure tt;
  instant = λ clock. clock;
  sleep = λ d clock. clock + d;
  debug = λ s. s;
}

abbrev engine : LocalExternalApprovalEngine
engine = record {
  actor = "local";
  source = some "external";
  workspace = "/work";
  timeout_override = none;
  poll_interval = 2;
  announce = false;
}

abbrev waiting : Timeouts ℕ
waiting = record { timeouts = ("a1", 3) ∷ []; poisoned = false; world = 100 }

unanswered-IsClock : IsClock unanswered
unfolding pure
unanswered-IsClock = record {
  reads = λ least path id. record { after = λ w h. h };
  sleeps = λ d w. omega arith;
}

wait-Returns_example :
    (p : Result ApprovalRecord × Timeouts ℕ) × (wait unanswered engine
        (suc (or_default (get "a1" waiting.timeouts)))
        "a1"
        waiting
      ≡ some p)
    × IsDecided p.0
wait-Returns_example = wait-Returns unanswered engine "a1" waiting unanswered-IsClock (omega arith)

-- A store whose one file is approved, in a world that says whether a file was written.
abbrev answered : Outside Bool
answered = record {
  read_json = λ path id. pure (approval (some approved));
  write_json = λ path r w. (ok tt, true);
  now_utc = pure 7;
  new_id = pure "a1";
  show_request = λ r. pure tt;
  instant = λ written. 0;
  sleep = λ d written. written;
  debug = λ s. s;
}

answered-ReadsDecided : ReadsDecided (λ written. written ≡ false) answered
unfolding pure
answered-ReadsDecided = record {
  keeps = λ path id w p. p;
  decided = λ path id w r p e n. ground (arith, e, n);
}

resolve_with_actor-final_example :
    Refuses
      (λ written. written ≡ false)
      (resolve_with_actor answered "/work" "a1" denied "ann" none false).0
      (resolve_with_actor answered "/work" "a1" denied "ann" none false).1
resolve_with_actor-final_example =
    resolve_with_actor-final (λ written. written ≡ false) answered "/work" "a1" denied "ann" none
      false answered-ReadsDecided refl
