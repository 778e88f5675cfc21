-- ===== src/Network/Queue.antt =====
-- The receive and transmit queues of FeatherOS/kernel/net/network.c, doubly linked through the fields
-- queue_next and queue_prev of the packets. The spinlock around each operation is left out.
mod Links
mod Apart
pub mod Refine
mod Tests
use mathlib.Core.Path.{subst, fun_ext}
use mathlib.Core.Logic.{dite, ite}
use native.Mathlib.Nat.{
  add_comm, add_assoc, le_refl, le_trans, mod-eq_of_lt, mod-lt, mod-eq-sub-mod, mod-add-mod,
}
use native.Mathlib.Decide.{ℕ_discrete, dec_lt, dec_le}
use feather_os.Prelude.{
  ℕ, zero, suc, ◌+◌, ◌-◌, ◌*◌, ◌/◌, ◌%◌, ◌^◌, ◌≤◌, ◌<◌, min, max, ◌≡◌, refl, sym, ap, ◌∙◌, ◌≢◌, ◌↔◌,
  ◌⊎◌, inl, inr, Bool, true, false, not, ◌&&◌, ◌||◌, Option, none, some, List, [], ◌∷◌, ◌++◌, map,
  arith, ltb, leb, ◌==◌, if◌then◌else◌, ltb→lt, lt→ltb, leb→le, ==_iff, tests, Bool-cases,
  Option-cases, length, get_or, set, take, drop, replicate,
}
use feather_os.Prelude.Int.{ℤ, pos, negsuc}

-- A packet is its address, and 0 is NULL.
pub record Ends : Type 0 where
  pub head : ℕ
  pub tail : ℕ
  pub count : ℕ

-- The fields of all packets, the static variables of the two queues, and the packets that
-- skb_free was called on, the last one first.
pub record NetQueues : Type 0 where
  pub queue_next : ℕ → ℕ
  pub queue_prev : ℕ → ℕ
  pub rx : Ends
  pub tx : Ends
  pub freed : List ℕ

abbrev pub net_rx_queue_size : ℕ
net_rx_queue_size = 256

abbrev pub net_tx_queue_size : ℕ
net_tx_queue_size = 256

abbrev pub no_ends : Ends
no_ends = record { head = 0; tail = 0; count = 0 }

unfoldable pub net_rx_queue_init : NetQueues → NetQueues
net_rx_queue_init q = record q { rx = no_ends }

unfoldable pub net_tx_queue_init : NetQueues → NetQueues
net_tx_queue_init q = record q { tx = no_ends }

-- `p->field = v`
abbrev pub write : (ℕ → ℕ) → ℕ → ℕ → ℕ → ℕ
write field p v = λ x. if x == p then v else field x

-- The assignments that hang a packet behind the tail.
abbrev pub append_next : ℕ → Ends → (ℕ → ℕ) → ℕ → ℕ
append_next skb e next =
    if e.tail == 0 then write next skb 0 else write (write next skb 0) e.tail skb

abbrev pub append_ends : ℕ → Ends → Ends
append_ends skb e = record {
  head = if e.tail == 0 then skb else e.head;
  tail = skb;
  count = e.count + 1;
}

unfoldable pub net_rx_enqueue : ℕ → NetQueues → NetQueues × ℤ
net_rx_enqueue skb q =
    if skb == 0
    then (q, negsuc 0)
    else (if leb net_rx_queue_size q.rx.count
        then (record q { freed = skb ∷ q.freed }, negsuc 0)
        else (
          record q {
            queue_next = append_next skb q.rx q.queue_next;
            queue_prev = write q.queue_prev skb q.rx.tail;
            rx = append_ends skb q.rx;
          },
          pos 0,
        ))

unfoldable pub net_tx_enqueue : ℕ → NetQueues → NetQueues × ℤ
net_tx_enqueue skb q =
    if skb == 0
    then (q, negsuc 0)
    else (if leb net_tx_queue_size q.tx.count
        then (record q { freed = skb ∷ q.freed }, negsuc 0)
        else (
          record q {
            queue_next = append_next skb q.tx q.queue_next;
            queue_prev = write q.queue_prev skb q.tx.tail;
            tx = append_ends skb q.tx;
          },
          pos 0,
        ))

-- The assignments that take the head away, whose next packet is `second`.
abbrev pub behead_prev : ℕ → (ℕ → ℕ) → ℕ → ℕ
behead_prev second prev = if second == 0 then prev else write prev second 0

abbrev pub behead_ends : ℕ → Ends → Ends
behead_ends second e = record {
  head = second;
  tail = if second == 0 then 0 else e.tail;
  count = e.count - 1;
}

-- The packet answered, and 0 for NULL.
unfoldable pub net_rx_dequeue : NetQueues → NetQueues × ℕ
net_rx_dequeue q =
    if q.rx.head == 0
    then (q, 0)
    else (let second = q.queue_next q.rx.head in
        (
          record q { queue_prev = behead_prev second q.queue_prev; rx = behead_ends second q.rx },
          q.rx.head,
        ))

unfoldable pub net_tx_dequeue : NetQueues → NetQueues × ℕ
net_tx_dequeue q =
    if q.tx.head == 0
    then (q, 0)
    else (let second = q.queue_next q.tx.head in
        (
          record q { queue_prev = behead_prev second q.queue_prev; tx = behead_ends second q.tx },
          q.tx.head,
        ))
