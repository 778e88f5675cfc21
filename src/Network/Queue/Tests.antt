-- ===== src/Network/Queue/Tests.antt =====
-- Three packets that go through both queues, and the theorem at them.
use feather_os.Prelude.{◌≡◌, refl, List, [], ◌∷◌, arith}
use feather_os.Prelude.Int.{pos}
use feather_os.Network.Queue.{
  NetQueues, no_ends, net_rx_queue_init, net_tx_queue_init, net_rx_enqueue, net_rx_dequeue,
  net_tx_enqueue, net_tx_dequeue,
}
use feather_os.Network.Queue.Refine.{
  QueueOp, receive, received, send, sent, done, packet, run, run_fifos, net_queue_refines,
}

-- What the memory holds before the queues are set up does not matter.
abbrev raw : NetQueues
raw = record {
  queue_next = λ x. x;
  queue_prev = λ x. 7;
  rx = record { head = 5; tail = 5; count = 9 };
  tx = no_ends;
  freed = [];
}

abbrev traffic : List QueueOp
traffic =
    receive 10 ∷ receive 20 ∷ send 30 ∷ received ∷ send 10 ∷ sent ∷ sent ∷ sent ∷ received ∷ []

traffic_replies : run traffic (net_rx_queue_init (net_tx_queue_init raw)) ≡ (
    done (pos 0)
    ∷ done (pos 0)
    ∷ done (pos 0)
    ∷ packet 10
    ∷ done (pos 0)
    ∷ packet 30
    ∷ packet 10
    ∷ packet 0
    ∷ packet 20
    ∷ [])
unfolding run net_rx_queue_init net_tx_queue_init net_rx_enqueue net_rx_dequeue net_tx_enqueue
    net_tx_dequeue
traffic_replies = refl

net_queue_refines_example :
    run traffic (net_rx_queue_init (net_tx_queue_init raw)) ≡ run_fifos traffic [] []
net_queue_refines_example = net_queue_refines traffic raw (
  tt,
  tt,
  (
    ((λ e. absurd (omega (arith, e))), tt),
    tt,
    (
      ((λ e. absurd (omega (arith, e))), ((λ e. absurd (omega (arith, e))), tt)),
      tt,
      (((λ e. absurd (omega (arith, e))), tt), ((λ e. absurd (omega (arith, e))), tt), tt),
    ),
  ),
)
