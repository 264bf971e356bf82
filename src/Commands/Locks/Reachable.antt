-- ===== src/Commands/Locks/Reachable.antt =====
-- The invariant of the dispatcher's threads in every state that they can reach.
use dnp3_bridge.Base.{refl, arith}
use dnp3_bridge.Commands.Locks.{
  Thread, Locked, new_locked, Step, step_caller, step_stream, step_answer, Reach, here, next,
}
use dnp3_bridge.Commands.Locks.Invariant.{Inv}
use dnp3_bridge.Commands.Locks.Invariant.Callers.{CallerMove-Inv}
use dnp3_bridge.Commands.Locks.Invariant.Streams.{StreamMove-Inv}
use dnp3_bridge.Commands.Locks.Invariant.Answers.{AnswerMove-Inv}

module _ {D : Type 0} where
  new_locked-Inv : Inv (new_locked {D = D})
  new_locked-Inv = record {
    writer_callers = λ t. ground arith;
    writer_streams = λ w. ground arith;
    writer_answers = λ n. ground arith;
    pending_callers = λ t. ground arith;
    pending_answers = λ n. ground arith;
    pending_streams = λ w. ground arith;
    phases = λ t. refl;
    fresh = λ t. tt;
    live = λ w h. ground arith;
    founds = λ n. tt;
    own = λ w. tt;
  }

  Step-Inv : {s s' : Locked D} {x : Thread} → Step s x s' → Inv s → Inv s'
  Step-Inv (step_caller t mv) v = CallerMove-Inv v t mv refl
  Step-Inv (step_stream w mv) v = StreamMove-Inv v w mv refl
  Step-Inv (step_answer n mv) v = AnswerMove-Inv v n mv refl

  pub Reach-Inv : {s : Locked D} → Reach s → Inv s
  Reach-Inv here = new_locked-Inv
  Reach-Inv (next r st) = Step-Inv st (Reach-Inv r)
