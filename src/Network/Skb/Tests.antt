-- ===== src/Network/Skb/Tests.antt =====
-- A packet of 64 bytes, with a header, and the theorems at it.
use feather_os.Prelude.{◌+◌, ◌≤◌, ◌≡◌, some, List, [], ◌∷◌, arith}
use feather_os.Network.Skb.{SkBuff, skb_alloc}
use feather_os.Network.Skb.Room.{
  IsSound, SkbOp, pull, push, put, trim, calls, fresh, skb_alloc-calls,
}

abbrev ops : List SkbOp
ops = put 64 ∷ push 14 ∷ pull 14 ∷ trim 10 ∷ []

skb_alloc-calls_example :
    (skb_alloc 9000 4096 64 ≡ some (fresh 4096 64))
    × ((fresh 4096 64).tail + 64 ≤ (fresh 4096 64).end)
    × IsSound (calls ops (fresh 4096 64))
skb_alloc-calls_example =
    skb_alloc-calls 9000 4096 64 ops (λ e. absurd (omega (arith, e)))
      (λ e. absurd (omega (arith, e))) (omega arith) (omega arith)
      (omega arith, (omega arith, (tt, (tt, tt))))

-- The packet with 64 bytes of data.
abbrev packet : SkBuff
packet = record (fresh 4096 64) { tail = 4224; len = 64 }
