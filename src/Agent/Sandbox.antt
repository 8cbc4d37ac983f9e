-- ===== src/Agent/Sandbox.antt =====
-- `DefaultPlanAttemptSandbox` of dare_framework/agent/_internal/sandbox.py: snapshots of short-term
-- memory. The snapshot's id, cut from a `uuid4`, is an argument.
use deterministic_agent_runt.Base.{ℕ, String, Option, none, some, List, [], ◌∷◌, length}
use deterministic_agent_runt.Base.Dict.{Dict, lookup, insert, erase}
use deterministic_agent_runt.Context.Memory.{Message, Context, stm_add, stm_clear}

pub record PlanAttemptSandbox : Type 0 where
  pub snapshots : Dict (List Message)

-- `create_snapshot`
unfoldable pub create_snapshot : String → Context → PlanAttemptSandbox → PlanAttemptSandbox
create_snapshot fresh_id c s = record s {
  snapshots = insert fresh_id c.short_term_memory s.snapshots;
}

-- the loop that adds the messages of a snapshot again
unfoldable pub add_messages : List Message → Context → Context
unfolding stm_add
add_messages [] c = c
add_messages (m ∷ ms) c = add_messages ms (stm_add m c)

-- `rollback`; `none` is its `KeyError`
unfoldable pub rollback :
    Context → String → PlanAttemptSandbox → Option (Context × PlanAttemptSandbox)
unfolding stm_clear add_messages
rollback c id s = elim (lookup id s.snapshots) [
  | none ↦ none
  | some messages ↦
      some (add_messages messages (stm_clear c), record s { snapshots = erase id s.snapshots })
]

-- `commit`, `clear_all`, `snapshot_count`
unfoldable pub commit : String → PlanAttemptSandbox → PlanAttemptSandbox
commit id s = record s { snapshots = erase id s.snapshots }

unfoldable pub clear_all : PlanAttemptSandbox → PlanAttemptSandbox
clear_all s = record s { snapshots = [] }

unfoldable pub snapshot_count : PlanAttemptSandbox → ℕ
snapshot_count s = length s.snapshots
