-- ===== src/Commands/Locks/Safety.antt =====
-- What the locks protect.
use dnp3_bridge.Base.{ℕ, ◌≡◌, true, arith}
use dnp3_bridge.Commands.Locks.{writing, Locked, Reach}
use dnp3_bridge.Commands.Locks.Invariant.{is_live}
use dnp3_bridge.Commands.Locks.Reachable.{Reach-Inv}

module _ {D : Type 0} where
  -- In every state that the threads can reach, a Write runs on a stream whose StreamCommands call has
  -- not released it yet, and no two Writes run at once.
  pub writing-alone :
      {s : Locked D} (t u w v : ℕ)
      → Reach s
      → s.callers t ≡ writing w
      → s.callers u ≡ writing v
      → (is_live (s.streams w) ≡ true) × (t ≡ u)
  writing-alone t u w v r e k =
      let i = Reach-Inv r in
      ground (arith, i.live w, i.fresh t, i.writer_callers t, i.writer_callers u)
