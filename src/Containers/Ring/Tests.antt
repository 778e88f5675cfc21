-- ===== src/Containers/Ring/Tests.antt =====
-- A ring of three cells that has gone round its end, and the theorems at it.
use feather_os.Prelude.{◌≡◌, refl, true, false, List, [], ◌∷◌, arith}
use feather_os.Containers.Ring.{
  RingBuffer, ring_enqueue, ring_dequeue, ring_peek, ring_clear, ring_is_empty, ring_is_full,
  ring_size,
}
use feather_os.Containers.Ring.Fifo.{IsValid, items}
use feather_os.Containers.Ring.Queue
use feather_os.Containers.Ring.Queue.{
  RingOp, enqueue, dequeue, peek, size, is_empty, is_full, clear, Reply, flag, item, number,
  nothing,
}
use feather_os.Containers.Ring.Refine.{run, run_refines}

-- 8, then 9, round the end
abbrev wrapped : RingBuffer
wrapped = record {
  buffer = 9 ∷ 7 ∷ 8 ∷ [];
  capacity = 3;
  head = 2;
  tail = 1;
  size = 2;
  full = false;
}

wrapped-IsValid : IsValid wrapped
wrapped-IsValid = ground arith

abbrev script : List RingOp
script =
    peek
    ∷ enqueue 5
    ∷ is_full
    ∷ enqueue 6
    ∷ dequeue
    ∷ dequeue
    ∷ size
    ∷ dequeue
    ∷ dequeue
    ∷ is_empty
    ∷ []

script_replies :
    run script wrapped
    ≡ item 8
      ∷ flag true
      ∷ flag true
      ∷ flag false
      ∷ item 8
      ∷ item 9
      ∷ number 1
      ∷ item 5
      ∷ item 0
      ∷ flag true
      ∷ []
unfolding run ring_enqueue ring_dequeue ring_peek ring_clear ring_is_empty ring_is_full ring_size
script_replies = refl

run_refines_example : run script wrapped ≡ Queue.run 3 script (items wrapped)
run_refines_example = run_refines script wrapped-IsValid
