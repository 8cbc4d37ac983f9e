-- ===== src/Context/Guidance.antt =====
-- `GuidanceQueue` of dare_framework/guidance/guidance_queue.py. Each method holds one lock, so it is a
-- step. The id of `uuid4` and the reading of the clock are arguments.
use deterministic_agent_runt.Base.{ℕ, String, List, [], ◌∷◌, ◌++◌, length, leb, if◌then◌else◌}
use deterministic_agent_runt.Base.Text.{strip, is_empty}

pub record GuidanceItem : Type 0 where
  pub id : String
  pub content : String
  pub created_at : ℕ

pub record GuidanceQueue : Type 0 where
  pub items : List GuidanceItem
  pub max_size : ℕ

-- what `enqueue` returns, or its `ValueError` or `RuntimeError`
pub data Enqueued : Type 0 where
  accepted : GuidanceItem → Enqueued
  blank_content : Enqueued
  queue_full : Enqueued

-- `enqueue`; a text that is empty is empty when stripped
unfoldable pub enqueue : String → ℕ → String → GuidanceQueue → GuidanceQueue × Enqueued
enqueue fresh_id now content q =
    if is_empty (strip content)
    then (q, blank_content)
    else if leb q.max_size (length q.items)
    then (q, queue_full)
    else let item : GuidanceItem = record { id = fresh_id; content = content; created_at = now } in
      (record q { items = q.items ++ (item ∷ []) }, accepted item)

-- `drain_all_sync`
unfoldable pub drain_all_sync : GuidanceQueue → GuidanceQueue × List GuidanceItem
drain_all_sync q = (record q { items = [] }, q.items)

-- `clear`, with the number that it returns
unfoldable pub clear : GuidanceQueue → GuidanceQueue × ℕ
clear q = (record q { items = [] }, length q.items)
