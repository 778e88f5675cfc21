-- ===== src/Containers/Ring/Queue.antt =====
-- The contract of the ring buffer: a queue of at most `capacity` items, oldest first, and what a
-- client sees of each call.
use feather_os.Prelude.{ℕ, Bool, true, false, List, [], ◌∷◌, ◌++◌, ◌==◌, if◌then◌else◌, length}

pub data RingOp : Type 0 where
  enqueue : ℕ → RingOp
  dequeue : RingOp
  peek : RingOp
  size : RingOp
  is_empty : RingOp
  is_full : RingOp
  clear : RingOp

pub data Reply : Type 0 where
  flag : Bool → Reply
  item : ℕ → Reply
  number : ℕ → Reply
  nothing : Reply

unfoldable pub call : ℕ → RingOp → List ℕ → List ℕ × Reply
call capacity (enqueue x) q =
    if length q == capacity then (q, flag false) else (q ++ (x ∷ []), flag true)
call capacity dequeue [] = ([], item 0)
call capacity dequeue (x ∷ q) = (q, item x)
call capacity peek [] = ([], item 0)
call capacity peek (x ∷ q) = (x ∷ q, item x)
call capacity size q = (q, number (length q))
call capacity is_empty q = (q, flag (length q == 0))
call capacity is_full q = (q, flag (length q == capacity))
call capacity clear q = ([], nothing)

unfoldable pub run : ℕ → List RingOp → List ℕ → List Reply
run capacity [] q = []
run capacity (op ∷ ops) q = let (q', reply) = call capacity op q in reply ∷ run capacity ops q'
