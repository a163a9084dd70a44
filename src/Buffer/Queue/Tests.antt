-- ===== src/Buffer/Queue/Tests.antt =====
-- The queue at concrete calls.
use unp.Base.{◌≡◌, refl, List, [], ◌∷◌, arith, length}
use unp.Buffer.Store.{empty}
use unp.Buffer.Packed.{view, contents, is_empty}
use unp.Buffer.Queue.{Call, put, put_value, get, skip, look, refused, count, bytes, run, queue_run}
use unp.Buffer.Queue.Refine.{Refines, run-Refines}

abbrev calls : List Call
calls = put (1 ∷ 2 ∷ 3 ∷ []) ∷ get 2 ∷ look 5 ∷ put_value 4 (5 ∷ []) ∷ skip 2 ∷ []

queue_runs :
    queue_run calls [] ≡ (5 ∷ [], count 3 ∷ bytes (1 ∷ 2 ∷ []) ∷ refused ∷ count 2 ∷ count 2 ∷ [])
queue_runs = refl

length-empty : length (view empty) ≡ 0
unfolding contents
length-empty = refl

run-Refines_example : Refines (run calls empty) (queue_run calls (view empty))
run-Refines_example =
    run-Refines calls empty is_empty
      (omega arith, (omega arith, (omega arith, (omega arith, (omega arith, tt)))))
      (omega (arith, length-empty))
