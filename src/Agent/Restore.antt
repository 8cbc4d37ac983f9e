-- ===== src/Agent/Restore.antt =====
-- A rollback undoes what has happened to short-term memory since its snapshot
-- (dare_framework/agent/_internal/sandbox.py).
use mathlib.Core.List.{append_assoc, append-nil}
use deterministic_agent_runt.Base.{
  String, none, some, List, [], ◌∷◌, ◌++◌, ◌≡◌, refl, ap, ◌∙◌, sym, arith, eq_iff,
}
use deterministic_agent_runt.Base.Dict.{lookup, insert, erase, lookup-insert, lookup-erase}
use deterministic_agent_runt.Context.Memory.{Message, Context, stm_add, stm_clear}
use deterministic_agent_runt.Agent.Sandbox.{
  PlanAttemptSandbox, create_snapshot, add_messages, rollback, commit,
}

add_messages_lem :
    (ms : List Message) (c : Context)
    → add_messages ms c ≡ record c { short_term_memory = c.short_term_memory ++ ms }
unfolding add_messages stm_add
add_messages_lem [] c =
    ap (λ (l : List Message). record c { short_term_memory = l }) (sym (append-nil _))
add_messages_lem (m ∷ ms) c =
    add_messages_lem ms (stm_add m c)
    ∙ ap (λ (l : List Message). record c { short_term_memory = l })
        (append_assoc c.short_term_memory (m ∷ []) ms)

pub rollback_lem :
    (c : Context) (id : String) (s : PlanAttemptSandbox) (ms : List Message)
    → lookup id s.snapshots ≡ some ms
    → rollback c id s
      ≡ some (record c { short_term_memory = ms }, record s { snapshots = erase id s.snapshots })
unfolding rollback stm_clear
rollback_lem c id s ms e = rw (e, rollback) (rw (add_messages_lem ms (stm_clear c)) refl)

-- the sandboxes hold the same snapshots
abbrev pub SameSnapshots : PlanAttemptSandbox → PlanAttemptSandbox → Type 0
SameSnapshots s s' = (k : String) → lookup k s'.snapshots ≡ lookup k s.snapshots

pub dropped-SameSnapshots :
    (id : String) (ms : List Message) (s : PlanAttemptSandbox)
    → lookup id s.snapshots ≡ none
    → SameSnapshots s (record s { snapshots = erase id (insert id ms s.snapshots) })
dropped-SameSnapshots id ms s fresh k = ground (
  arith,
  lookup-erase id k (insert id ms s.snapshots),
  lookup-insert id k ms s.snapshots,
  eq_iff id k,
  fresh,
)

-- A rollback to a snapshot gives short-term memory back as it was when the snapshot was made,
-- whatever the context has become since, changes nothing else of the context, and leaves the
-- snapshots that were there before, provided that the snapshot's id was not in use.
pub rollback-create_snapshot :
    (id : String) (c c' : Context) (s : PlanAttemptSandbox)
    → lookup id s.snapshots ≡ none
    → (s' : PlanAttemptSandbox) × (rollback c' id (create_snapshot id c s)
        ≡ some (record c' { short_term_memory = c.short_term_memory }, s'))
      × SameSnapshots s s'
unfolding create_snapshot
rollback-create_snapshot id c c' s fresh = (
  _,
  rollback_lem c' id (create_snapshot id c s) c.short_term_memory
      (ground (arith, lookup-insert id id c.short_term_memory s.snapshots, eq_iff id id)),
  dropped-SameSnapshots id c.short_term_memory s fresh,
)

pub commit-create_snapshot :
    (id : String) (c : Context) (s : PlanAttemptSandbox)
    → lookup id s.snapshots ≡ none
    → SameSnapshots s (commit id (create_snapshot id c s))
unfolding commit create_snapshot
commit-create_snapshot id c s fresh = dropped-SameSnapshots id c.short_term_memory s fresh
