-- ===== src/Base/Heap.antt =====
-- Mutable objects behind references. A Python reference never dangles, so a read is total; the
-- references below the allocation counter of a component are the ones in use.
use Prim.Native.Nat.{ℕ}
use deterministic_agent_runt.Base.Tests.{eqb, if◌then◌else◌}

abbrev pub Heap {ℓ} : Type ℓ → Type ℓ
Heap V = ℕ → V

module _ {ℓ} {V : Type ℓ} where
  -- an assignment to a field of the object at `r`, as a write of the whole object
  abbrev pub write : ℕ → V → Heap V → Heap V
  write r v h q = if eqb r q then v else h q
