-- ===== src/Service/Tidy/Cancel.antt =====
-- What the service of src/qwasar_runtime/worker.py guarantees in every state that its threads reach.
use qwarz.Base.{refl, arith}
use qwarz.Service.{Serve, start}
use qwarz.Service.Tidy.{IsTidy, Reached, Waited}
use qwarz.Service.Tidy.Kept.{step-IsTidy}

start-IsTidy : {Real E : Type 0} → IsTidy {Real = Real} {E = E} start
start-IsTidy = record {
  registered = refl;
  alone = omega arith;
  room = omega arith;
  ended = λ h. cc h;
  distinct = refl;
  calm = refl;
}

module _ {Real E : Type 0} where
  -- In every state that the two threads reach, in whatever order they step, errors of `emit` and of
  -- the generation included, if the client waited: if it never asked for a generation under the id of
  -- the one before while the loop was between its terminal event and the `finally` behind it. Then at
  -- most one generation is registered or waits, the queue has at most one entry, its end stands there
  -- only when the reader is closed, and the reader never found the queue full.
  pub Reached-IsTidy : {s : Serve Real E} (before : Reached s) → Waited before → IsTidy s
  Reached-IsTidy Reached.started w = start-IsTidy
  Reached-IsTidy (Reached.next before step) w = step-IsTidy step w.1 (Reached-IsTidy before w.0)
