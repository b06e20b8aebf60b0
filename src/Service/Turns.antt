-- ===== src/Service/Turns.antt =====
-- src/mcdash/service.py: how the steps of the reconciler change the pending operation.
pub mod Parts
pub mod Steps
pub mod Rounds
use k3s_minecraft.Prelude.{Text, Option, none, some, ◌≡◌, ◌≢◌}
use k3s_minecraft.Service.Exec.{Op, Kind, Step, Entry}

-- What may become of a pending operation in one step other than the teardown.
pub data Turn (op : Op) : Option Op → Type 0 where
  stays : Turn op (some op)
  fails : (t : Text) → Turn op (some (record op { error = t }))
  ends : op.step ≢ Step.drain → Turn op none
  drains :
      op.step ≡ Step.snapshot
      → op.kind ≡ Kind.restore
      → Turn op (some (record op { step = Step.drain }))
  tears_down :
      op.step ≡ Step.snapshot
      → op.kind ≡ Kind.delete
      → Turn op (some (record op { step = Step.teardown }))
  seeds :
      (job : Text)
      → op.step ≡ Step.drain
      → Turn op (some (record op { step = Step.seed; job = some job }))

-- The record is there, and its operation is a turn of this one.
abbrev pub Turned : Op → Option Entry → Type 0
Turned op none = ⊥
Turned op (some e) = Turn op e.op
