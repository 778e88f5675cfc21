-- ===== src/Network/Queue/Refine.antt =====
-- The two queues as the lists of their packets.
use feather_os.Prelude.{
  ℕ, ◌≡◌, refl, ap, inl, inr, true, false, List, [], ◌∷◌, ◌++◌, arith, leb, ◌==◌, if◌then◌else◌,
  Bool-cases, length,
}
use feather_os.Prelude.Int.{ℤ, pos, negsuc}
use feather_os.Network.Queue.{
  NetQueues, net_rx_queue_init, net_tx_queue_init, net_rx_enqueue, net_tx_enqueue, net_rx_dequeue,
  net_tx_dequeue, no_ends,
}
use feather_os.Network.Queue.Links.{IsNew, AllNew, first, IsQueue}
use feather_os.Network.Queue.Apart.{
  AllNew-tail, AllNew-snoc_left, AllNew-snoc_right, AllNew-sym, append-IsQueue, behead-IsQueue,
}

pub data QueueOp : Type 0 where
  receive : ℕ → QueueOp
  received : QueueOp
  send : ℕ → QueueOp
  sent : QueueOp

pub data Reply : Type 0 where
  done : ℤ → Reply
  packet : ℕ → Reply

unfoldable pub run : List QueueOp → NetQueues → List Reply
run [] q = []
run (receive skb ∷ ops) q = let r = net_rx_enqueue skb q in done r.1 ∷ run ops r.0
run (received ∷ ops) q = let r = net_rx_dequeue q in packet r.1 ∷ run ops r.0
run (send skb ∷ ops) q = let r = net_tx_enqueue skb q in done r.1 ∷ run ops r.0
run (sent ∷ ops) q = let r = net_tx_dequeue q in packet r.1 ∷ run ops r.0

-- A queue of at most 256 packets, oldest first: what it becomes and what it answers.
abbrev pub push : ℕ → List ℕ → List ℕ × ℤ
push skb xs =
    if skb == 0
    then (xs, negsuc 0)
    else if leb 256 (length xs)
    then (xs, negsuc 0)
    else (xs ++ (skb ∷ []), pos 0)

abbrev pub pop : List ℕ → List ℕ × ℕ
pop [] = ([], 0)
pop (x ∷ xs) = (xs, x)

unfoldable pub run_fifos : List QueueOp → List ℕ → List ℕ → List Reply
run_fifos [] rx tx = []
run_fifos (receive skb ∷ ops) rx tx = let r = push skb rx in done r.1 ∷ run_fifos ops r.0 tx
run_fifos (received ∷ ops) rx tx = let r = pop rx in packet r.1 ∷ run_fifos ops r.0 tx
run_fifos (send skb ∷ ops) rx tx = let r = push skb tx in done r.1 ∷ run_fifos ops rx r.0
run_fifos (sent ∷ ops) rx tx = let r = pop tx in packet r.1 ∷ run_fifos ops rx r.0

-- A packet is put into a queue only when it is in none.
abbrev pub IsLegal : List QueueOp → List ℕ → List ℕ → Type 0
IsLegal [] rx tx = Unit
IsLegal (receive skb ∷ ops) rx tx = IsNew skb rx × IsNew skb tx × IsLegal ops (push skb rx).0 tx
IsLegal (received ∷ ops) rx tx = IsLegal ops (pop rx).0 tx
IsLegal (send skb ∷ ops) rx tx = IsNew skb rx × IsNew skb tx × IsLegal ops rx (push skb tx).0
IsLegal (sent ∷ ops) rx tx = IsLegal ops rx (pop tx).0

pub record Holds (q : NetQueues) (rx tx : List ℕ) : Type 0 where
  pub rx_queue : IsQueue q.queue_next q.queue_prev q.rx rx
  pub tx_queue : IsQueue q.queue_next q.queue_prev q.tx tx
  pub apart : AllNew rx tx

-- What one call does to both queues, and what it answers.
record Keeps (q : NetQueues) (reply : Reply) (rx tx : List ℕ) (expected : Reply) : Type 0 where
  holds : Holds q rx tx
  same : reply ≡ expected

net_rx_enqueue-Keeps :
    (skb : ℕ) (q : NetQueues) (rx tx : List ℕ)
    → IsNew skb rx
    → IsNew skb tx
    → Holds q rx tx
    → Keeps
        (net_rx_enqueue skb q).0
        (done (net_rx_enqueue skb q).1)
        (push skb rx).0
        tx
        (done (push skb rx).1)
unfolding net_rx_enqueue
net_rx_enqueue-Keeps skb q rx tx new_rx new_tx h = elim (Bool-cases (skb == 0)) [
  | inl null ↦ rw null (record { holds = h; same = refl })
  | inr real ↦ elim (Bool-cases (leb 256 (length rx))) [
    | inl full ↦
        let full' : leb 256 q.rx.count ≡ true = rw h.rx_queue.counted full in
        rw (real, full', full)
          (record {
            holds = record { rx_queue = h.rx_queue; tx_queue = h.tx_queue; apart = h.apart };
            same = refl;
          })
    | inr room ↦
        let room' : leb 256 q.rx.count ≡ false = rw h.rx_queue.counted room in
        let (in_rx, in_tx) =
          append-IsQueue q.queue_next q.queue_prev q.rx q.tx tx h.tx_queue skb rx
            (ground (arith, real)) new_rx new_tx h.apart h.rx_queue in
        rw (real, room', room)
          (record {
            holds = record {
              rx_queue = in_rx;
              tx_queue = in_tx;
              apart = AllNew-snoc_left rx tx skb new_tx h.apart;
            };
            same = refl;
          })
  ]
]

net_tx_enqueue-Keeps :
    (skb : ℕ) (q : NetQueues) (rx tx : List ℕ)
    → IsNew skb rx
    → IsNew skb tx
    → Holds q rx tx
    → Keeps
        (net_tx_enqueue skb q).0
        (done (net_tx_enqueue skb q).1)
        rx
        (push skb tx).0
        (done (push skb tx).1)
unfolding net_tx_enqueue
net_tx_enqueue-Keeps skb q rx tx new_rx new_tx h = elim (Bool-cases (skb == 0)) [
  | inl null ↦ rw null (record { holds = h; same = refl })
  | inr real ↦ elim (Bool-cases (leb 256 (length tx))) [
    | inl full ↦
        let full' : leb 256 q.tx.count ≡ true = rw h.tx_queue.counted full in
        rw (real, full', full)
          (record {
            holds = record { rx_queue = h.rx_queue; tx_queue = h.tx_queue; apart = h.apart };
            same = refl;
          })
    | inr room ↦
        let room' : leb 256 q.tx.count ≡ false = rw h.tx_queue.counted room in
        let (in_tx, in_rx) =
          append-IsQueue q.queue_next q.queue_prev q.tx q.rx rx h.rx_queue skb tx
            (ground (arith, real)) new_tx new_rx (AllNew-sym rx tx h.apart) h.tx_queue in
        rw (real, room', room)
          (record {
            holds = record {
              rx_queue = in_rx;
              tx_queue = in_tx;
              apart = AllNew-snoc_right rx tx skb new_rx h.apart;
            };
            same = refl;
          })
  ]
]

net_rx_dequeue-Keeps :
    (q : NetQueues) (rx tx : List ℕ)
    → Holds q rx tx
    → Keeps (net_rx_dequeue q).0 (packet (net_rx_dequeue q).1) (pop rx).0 tx (packet (pop rx).1)
unfolding net_rx_dequeue
net_rx_dequeue-Keeps q [] tx h =
    let none_left : (q.rx.head == 0) ≡ true = ground (arith, h.rx_queue.at_head) in
    rw none_left (record { holds = h; same = refl })
net_rx_dequeue-Keeps q (x ∷ xs) tx h =
    let (nz, to, from, fresh, l) = h.rx_queue.linked in
    let more : (q.rx.head == 0) ≡ false = ground (arith, h.rx_queue.at_head, nz) in
    let second : q.queue_next q.rx.head ≡ first xs = rw h.rx_queue.at_head to in
    let (in_rx, in_tx) =
      behead-IsQueue q.queue_next q.queue_prev q.rx q.tx tx h.tx_queue x xs h.apart.1 h.rx_queue in
    rw (more, second)
      (record {
        holds = record { rx_queue = in_rx; tx_queue = in_tx; apart = h.apart.1 };
        same = ap packet h.rx_queue.at_head;
      })

net_tx_dequeue-Keeps :
    (q : NetQueues) (rx tx : List ℕ)
    → Holds q rx tx
    → Keeps (net_tx_dequeue q).0 (packet (net_tx_dequeue q).1) rx (pop tx).0 (packet (pop tx).1)
unfolding net_tx_dequeue
net_tx_dequeue-Keeps q rx [] h =
    let none_left : (q.tx.head == 0) ≡ true = ground (arith, h.tx_queue.at_head) in
    rw none_left (record { holds = h; same = refl })
net_tx_dequeue-Keeps q rx (x ∷ xs) h =
    let (nz, to, from, fresh, l) = h.tx_queue.linked in
    let more : (q.tx.head == 0) ≡ false = ground (arith, h.tx_queue.at_head, nz) in
    let second : q.queue_next q.tx.head ≡ first xs = rw h.tx_queue.at_head to in
    let apart = AllNew-tail rx x xs h.apart in
    let (in_tx, in_rx) =
      behead-IsQueue q.queue_next q.queue_prev q.tx q.rx rx h.rx_queue x xs (AllNew-sym rx xs apart)
        h.tx_queue in
    rw (more, second)
      (record {
        holds = record { rx_queue = in_rx; tx_queue = in_tx; apart = apart };
        same = ap packet h.tx_queue.at_head;
      })

net_queue-Holds :
    (ops : List QueueOp) (q : NetQueues) (rx tx : List ℕ)
    → IsLegal ops rx tx
    → Holds q rx tx
    → run ops q ≡ run_fifos ops rx tx
unfolding run run_fifos
net_queue-Holds [] q rx tx legal h = refl
net_queue-Holds (receive skb ∷ ops) q rx tx (new_rx, new_tx, legal) h =
    let k = net_rx_enqueue-Keeps skb q rx tx new_rx new_tx h in
    cc (k.same, net_queue-Holds ops (net_rx_enqueue skb q).0 (push skb rx).0 tx legal k.holds)
net_queue-Holds (received ∷ ops) q rx tx legal h =
    let k = net_rx_dequeue-Keeps q rx tx h in
    cc (k.same, net_queue-Holds ops (net_rx_dequeue q).0 (pop rx).0 tx legal k.holds)
net_queue-Holds (send skb ∷ ops) q rx tx (new_rx, new_tx, legal) h =
    let k = net_tx_enqueue-Keeps skb q rx tx new_rx new_tx h in
    cc (k.same, net_queue-Holds ops (net_tx_enqueue skb q).0 rx (push skb tx).0 legal k.holds)
net_queue-Holds (sent ∷ ops) q rx tx legal h =
    let k = net_tx_dequeue-Keeps q rx tx h in
    cc (k.same, net_queue-Holds ops (net_tx_dequeue q).0 rx (pop tx).0 legal k.holds)

-- After net_rx_queue_init and net_tx_queue_init, over every sequence of calls in which a packet is
-- put into a queue only when it is in neither, the two queues answer as two queues of at most 256
-- packets, oldest first, that do not disturb each other, although they are linked through the same
-- fields of the packets: a full queue refuses with -1, an empty one answers NULL.
pub net_queue_refines :
    (ops : List QueueOp) (q : NetQueues)
    → IsLegal ops [] []
    → run ops (net_rx_queue_init (net_tx_queue_init q)) ≡ run_fifos ops [] []
unfolding net_rx_queue_init net_tx_queue_init
net_queue_refines ops q legal =
    let empty : IsQueue q.queue_next q.queue_prev no_ends [] = record {
      linked = tt;
      at_head = refl;
      at_tail = refl;
      counted = refl;
    } in
    net_queue-Holds ops (net_rx_queue_init (net_tx_queue_init q)) [] [] legal
      (record { rx_queue = empty; tx_queue = empty; apart = tt })
