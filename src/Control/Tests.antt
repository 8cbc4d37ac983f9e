-- ===== src/Control/Tests.antt =====
-- Runs of the execution control (dare_framework/tool/_internal/control/default_execution_control.py): a
-- human is waited for, and two tasks wait on one checkpoint.
use deterministic_agent_runt.Base.{ℕ, true, false, Option, none, some, [], ◌∷◌, ◌≡◌, refl}
use deterministic_agent_runt.Base.Dict.{lookup, insert, erase}
use deterministic_agent_runt.Json.{end}
use deterministic_agent_runt.Control.{
  ExecutionControl, no_signal, checkpoint, resume, begin_human_wait, end_human_wait, still_waiting,
  released, forget_wait, register_wait, release, cancel_requested, request_cancel, poll_or_raise,
  permission_error,
}
use deterministic_agent_runt.Control.Waits.{
  EventsMade, Moves, here, next, cancels, human_wait_released, second_wait_starves_first,
}

abbrev fresh : ExecutionControl
fresh = record {
  signal = no_signal;
  checkpoints = [];
  pending_approval = [];
  approval_events = [];
  events = λ _. false;
  next_event = 0;
}

abbrev asked : ExecutionControl
asked = checkpoint "c1" 5 "approve" end fresh

asked-EventsMade : EventsMade asked
unfolding checkpoint lookup
asked-EventsMade id e h = cc h

abbrev waiting_once : ExecutionControl
waiting_once = register_wait "c1" asked

begins : begin_human_wait "c1" asked ≡ some (waiting_once, 0)
unfolding begin_human_wait checkpoint lookup insert
begins = refl

-- what a resumption of the checkpoint leaves, given the event that is listed
abbrev resumed : Option ℕ → ExecutionControl → ExecutionControl
resumed e x = release "c1" e (record x {
  checkpoints =
      (
        "c1",
        record {
          checkpoint_id = "c1";
          label = "approve";
          payload = end;
          created_at = 5;
          resumed = true;
        },
      )
      ∷ [];
  signal = no_signal;
})

interrupts : poll_or_raise waiting_once ≡ some permission_error
unfolding poll_or_raise
interrupts = refl

abbrev cancelled : ExecutionControl
cancelled = record waiting_once { signal = cancel_requested }

cancels_after : Moves "c1" waiting_once cancelled
unfolding request_cancel
cancels_after = next here cancels

resumes : resume "c1" cancelled ≡ some (resumed (some 0) cancelled)
unfolding resume checkpoint lookup insert
resumes = refl

human_wait_released_example :
    (end_human_wait "c1" 0 cancelled ≡ still_waiting)
    × (end_human_wait "c1" 0 (resumed (some 0) cancelled)
        ≡ released (forget_wait "c1" (resumed (some 0) cancelled)))
human_wait_released_example =
    human_wait_released "c1" 0 asked waiting_once cancelled (resumed (some 0) cancelled)
      (resumed (some 0) cancelled) asked-EventsMade begins cancels_after resumes here

-- a second task waits on the same checkpoint
abbrev waiting_twice : ExecutionControl
waiting_twice = register_wait "c1" waiting_once

begins_again : begin_human_wait "c1" waiting_once ≡ some (waiting_twice, 1)
unfolding begin_human_wait checkpoint lookup insert
begins_again = refl

abbrev resumed_once : ExecutionControl
resumed_once = resumed (some 1) waiting_twice

resumes_second : resume "c1" waiting_twice ≡ some resumed_once
unfolding resume checkpoint lookup insert
resumes_second = refl

resumes_again :
    resume "c1" (forget_wait "c1" resumed_once)
    ≡ some (resumed none (forget_wait "c1" resumed_once))
unfolding resume checkpoint lookup insert erase
resumes_again = refl

second_wait_starves_first_example :
    (end_human_wait "c1" 1 resumed_once ≡ released (forget_wait "c1" resumed_once))
    × (end_human_wait "c1" 0 resumed_once ≡ still_waiting)
    × (end_human_wait "c1" 0 (resumed none (forget_wait "c1" resumed_once)) ≡ still_waiting)
second_wait_starves_first_example =
    second_wait_starves_first "c1" 0 1 asked waiting_once waiting_twice resumed_once
      (resumed none (forget_wait "c1" resumed_once)) asked-EventsMade begins begins_again
      resumes_second resumes_again
