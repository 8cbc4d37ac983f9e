-- ===== src/Control.antt =====
-- `DefaultExecutionControl` of dare_framework/tool/_internal/control/default_execution_control.py: the
-- signal that the agent polls, the checkpoints, and the waits for a human. The event of a wait is an
-- object on a heap, which the dict of events and the waiting task share. `wait_for_human` is two steps
-- with the wait between them. The id of `uuid4` and the reading of the clock are arguments.
pub mod Waits
mod Tests
use deterministic_agent_runt.Base.{
  ℕ, ◌+◌, String, Bool, true, false, not, Option, none, some, is_some, List, [], ◌∷◌, ◌==◌, any,
  keep, if◌then◌else◌,
}
use deterministic_agent_runt.Base.Dict.{Dict, lookup, insert, erase, values}
use deterministic_agent_runt.Base.Heap.{Heap, write}
use deterministic_agent_runt.Json.{Fields}

pub data ExecutionSignal : Type 0 where
  no_signal pause_requested cancel_requested human_approval_required : ExecutionSignal

pub record Checkpoint : Type 0 where
  pub checkpoint_id : String
  pub label : String
  pub payload : Fields
  pub created_at : ℕ
  pub resumed : Bool

-- `pending_approval` is a set of ids, read by membership alone
pub record ExecutionControl : Type 0 where
  pub signal : ExecutionSignal
  pub checkpoints : Dict Checkpoint
  pub pending_approval : List String
  pub approval_events : Dict ℕ
  pub events : Heap Bool
  pub next_event : ℕ

-- what `poll_or_raise` raises, if anything
pub data Interruption : Type 0 where
  interrupted_error permission_error : Interruption

unfoldable pub poll_or_raise : ExecutionControl → Option Interruption
poll_or_raise x = elim x.signal [
  | no_signal ↦ none
  | pause_requested ↦ some interrupted_error
  | cancel_requested ↦ some interrupted_error
  | human_approval_required ↦ some permission_error
]

-- `checkpoint`
unfoldable pub checkpoint : String → ℕ → String → Fields → ExecutionControl → ExecutionControl
checkpoint fresh_id now label payload x = record x {
  checkpoints =
      insert fresh_id
        (record {
          checkpoint_id = fresh_id;
          label = label;
          payload = payload;
          created_at = now;
          resumed = false;
        })
        x.checkpoints;
}

-- `pause`, given the payload that holds the reason
unfoldable pub pause : String → ℕ → Fields → ExecutionControl → ExecutionControl
unfolding checkpoint
pause fresh_id now payload x =
    checkpoint fresh_id now "pause" payload (record x { signal = pause_requested })

-- `set.discard`
abbrev pub discard : String → List String → List String
discard id ids = keep (λ i. not (i == id)) ids

-- the last lines of `resume`: a wait on the checkpoint is released
abbrev pub release : String → Option ℕ → ExecutionControl → ExecutionControl
release id none x = x
release id (some e) x = record x {
  events = write e true x.events;
  pending_approval = discard id x.pending_approval;
}

-- `resume`; `none` is its `KeyError`
unfoldable pub resume : String → ExecutionControl → Option ExecutionControl
resume id x = elim (lookup id x.checkpoints) [
  | none ↦ none
  | some c ↦ some (
      release id (lookup id x.approval_events) (record x {
        checkpoints = insert id (record c { resumed = true }) x.checkpoints;
        signal = no_signal;
      }))
]

-- the lines of `wait_for_human` from the signal to the event
abbrev pub register_wait : String → ExecutionControl → ExecutionControl
register_wait id x = record x {
  signal = human_approval_required;
  pending_approval = id ∷ x.pending_approval;
  events = write x.next_event false x.events;
  approval_events = insert id x.next_event x.approval_events;
  next_event = x.next_event + 1;
}

-- `wait_for_human` up to its wait: the control afterwards and the event that it waits for; `none` is
-- its `KeyError`
unfoldable pub begin_human_wait : String → ExecutionControl → Option (ExecutionControl × ℕ)
begin_human_wait id x = elim (lookup id x.checkpoints) [
  | none ↦ none
  | some c ↦ some (register_wait id x, x.next_event)
]

-- What a task that waits for an event comes to: it still waits, it returns, or the `del` after its
-- wait raises a `KeyError`.
pub data Woken : Type 0 where
  still_waiting : Woken
  released : ExecutionControl → Woken
  missing_event : Woken

-- `del self._approval_events[checkpoint_id]`
abbrev pub forget_wait : String → ExecutionControl → ExecutionControl
forget_wait id x = record x { approval_events = erase id x.approval_events }

unfoldable pub end_human_wait : String → ℕ → ExecutionControl → Woken
end_human_wait id e x =
    if x.events e
    then elim (lookup id x.approval_events) [
      | none ↦ missing_event
      | some _ ↦ released (forget_wait id x)
    ]
    else still_waiting

-- `request_cancel`, `clear_signal`
unfoldable pub request_cancel : ExecutionControl → ExecutionControl
request_cancel x = record x { signal = cancel_requested }

unfoldable pub clear_signal : ExecutionControl → ExecutionControl
clear_signal x = record x { signal = no_signal }

-- `get_checkpoint`, `list_checkpoints`, `is_pending_approval`
unfoldable pub get_checkpoint : String → ExecutionControl → Option Checkpoint
get_checkpoint id x = lookup id x.checkpoints

unfoldable pub list_checkpoints : ExecutionControl → List Checkpoint
list_checkpoints x = values x.checkpoints

unfoldable pub is_pending_approval : String → ExecutionControl → Bool
is_pending_approval id x = any (λ i. i == id) x.pending_approval
