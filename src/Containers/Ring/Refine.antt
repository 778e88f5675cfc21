-- ===== src/Containers/Ring/Refine.antt =====
-- No sequence of calls tells a valid ring buffer from the bounded queue of its items.
use native.Mathlib.Nat.{mod-eq_of_lt}
use native.Mathlib.Decide.{dec_lt}
use feather_os.Prelude.{
  get_or, false, ◌<◌, ◌≤◌, ◌∙◌, ℕ, ◌^◌, ◌≡◌, refl, List, [], ◌∷◌, arith, length,
}
use feather_os.Containers.Ring.{
  RingBuffer, ring_init, ring_enqueue, ring_dequeue, ring_peek, ring_clear, ring_is_empty,
  ring_is_full, ring_size,
}
use feather_os.Containers.Ring.Fifo.{
  IsValid, items, length-items, enqueue-pushed, pushed-IsValid, items-pushed, dequeue-popped,
  popped-IsValid, items-popped,
}
use feather_os.Containers.Ring.Queue
use feather_os.Containers.Ring.Queue.{
  RingOp, enqueue, dequeue, peek, size, is_empty, is_full, clear, Reply, flag, item, number,
  nothing,
}

pub call : RingOp → RingBuffer → RingBuffer × Reply
call (enqueue x) r = let (r', done) = ring_enqueue r x in (r', flag done)
call dequeue r = let (r', x) = ring_dequeue r in (r', item x)
call peek r = (r, item (ring_peek r))
call size r = (r, number (ring_size r))
call is_empty r = (r, flag (ring_is_empty r))
call is_full r = (r, flag (ring_is_full r))
call clear r = (ring_clear r, nothing)

unfoldable pub run : List RingOp → RingBuffer → List Reply
unfolding call
run [] r = []
run (op ∷ ops) r = let (r', reply) = call op r in reply ∷ run ops r'

-- One call: the ring answers as the queue, holds the queue's items afterwards, and is valid.
record Matches (op : RingOp) (r : RingBuffer) : Type 0 where
  same : ((items (call op r).0), (call op r).1) ≡ Queue.call r.capacity op (items r)
  valid : IsValid (call op r).0
  cap : (call op r).0.capacity ≡ r.capacity

nil_of_length : (q : List ℕ) → length q ≡ 0 → q ≡ []
nil_of_length [] h = refl
nil_of_length (x ∷ q) h = absurd (omega arith)

items_none : (r : RingBuffer) → r.size ≡ 0 → items r ≡ []
items_none r e = nil_of_length (items r) (length-items r ∙ e)

enqueue-Matches : (x : ℕ) {r : RingBuffer} → IsValid r → Matches (enqueue x) r
unfolding call Queue.call
enqueue-Matches x {r} v = elim (dec_lt r.size r.capacity) [
  | yes p ↦ record {
    same = ground (arith, enqueue-pushed x v p, items-pushed x v p, length-items r);
    valid = rw (enqueue-pushed x v p) (pushed-IsValid x v p);
    cap = rw (enqueue-pushed x v p);
  }
  | no p ↦
      let stays : ring_enqueue r x ≡ (r, false) = unfold ring_enqueue in ground arith in
      record { same = ground (arith, stays, length-items r); valid = rw stays v; cap = rw stays }
]

dequeue-Matches : {r : RingBuffer} → IsValid r → Matches dequeue r
unfolding call Queue.call
dequeue-Matches {r} v = elim (dec_lt 0 r.size) [
  | yes p ↦ record {
    same = rw (dequeue-popped v p, items-popped v p);
    valid = rw (dequeue-popped v p) (popped-IsValid v p);
    cap = rw (dequeue-popped v p);
  }
  | no p ↦
      let stays : ring_dequeue r ≡ (r, 0) = unfold ring_dequeue in ground arith in
      let none_left = items_none r (omega arith) in
      record { same = rw (stays, none_left); valid = rw stays v; cap = rw stays }
]

peek-Matches : {r : RingBuffer} → IsValid r → Matches peek r
unfolding call Queue.call
peek-Matches {r} v = elim (dec_lt 0 r.size) [
  | yes p ↦
      let top : ring_peek r ≡ get_or r.buffer r.head 0 = unfold ring_peek in ground arith in
      record { same = rw (top, items-popped v p); valid = v; cap = refl }
  | no p ↦
      let top : ring_peek r ≡ 0 = unfold ring_peek in ground arith in
      let none_left = items_none r (omega arith) in
      record { same = rw (top, none_left); valid = v; cap = refl }
]

clear-Matches : {r : RingBuffer} → IsValid r → Matches clear r
unfolding call Queue.call ring_clear
clear-Matches {r} v = record {
  same = rw (items_none (ring_clear r) refl);
  valid = ground (arith, mod-eq_of_lt v.roomy);
  cap = refl;
}

call-Matches : (op : RingOp) {r : RingBuffer} → IsValid r → Matches op r
unfolding call Queue.call
call-Matches (enqueue x) v = enqueue-Matches x v
call-Matches dequeue v = dequeue-Matches v
call-Matches peek v = peek-Matches v
call-Matches size {r} v = record {
  same = unfold ring_size in ground (arith, length-items r);
  valid = v;
  cap = refl;
}
call-Matches is_empty {r} v = record {
  same = unfold ring_is_empty in ground (arith, length-items r);
  valid = v;
  cap = refl;
}
call-Matches is_full {r} v = record {
  same = unfold ring_is_full in ground (arith, length-items r);
  valid = v;
  cap = refl;
}
call-Matches clear v = clear-Matches v

-- Over every sequence of calls a valid ring buffer gives the replies of the bounded queue that
-- starts with its items.
pub run_refines :
    (ops : List RingOp) {r : RingBuffer}
    → IsValid r
    → run ops r ≡ Queue.run r.capacity ops (items r)
unfolding run Queue.run
run_refines [] v = refl
run_refines (op ∷ ops) {r} v =
    let m = call-Matches op v in rw (← m.same) (rw (run_refines ops m.valid, m.cap))

-- ring_init on a buffer of `capacity` cells gives a valid ring with no items.
ring_init-IsValid :
    (buffer : List ℕ) (capacity : ℕ)
    → 0 < capacity
    → capacity ≤ 2 ^ 61
    → length buffer ≡ capacity
    → IsValid (ring_init buffer capacity) × (items (ring_init buffer capacity) ≡ [])
unfolding ring_init
ring_init-IsValid buffer capacity some_room small stored =
    (ground (arith, mod-eq_of_lt some_room), items_none (ring_init buffer capacity) refl)
