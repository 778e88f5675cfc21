-- ===== src/Network/Skb.antt =====
-- The packet buffers of FeatherOS/kernel/net/network.c.
pub mod Room
pub mod Headers
mod Tests
use mathlib.Core.Path.{subst, fun_ext}
use mathlib.Core.Logic.{dite, ite}
use native.Mathlib.Nat.{
  add_comm, add_assoc, le_refl, le_trans, mod-eq_of_lt, mod-lt, mod-eq-sub-mod, mod-add-mod,
}
use native.Mathlib.Decide.{ℕ_discrete, dec_lt, dec_le}
use feather_os.Prelude.{
  ℕ, zero, suc, ◌+◌, ◌-◌, ◌*◌, ◌/◌, ◌%◌, ◌^◌, ◌≤◌, ◌<◌, min, max, ◌≡◌, refl, sym, ap, ◌∙◌, ◌≢◌, ◌↔◌,
  ◌⊎◌, inl, inr, Bool, true, false, not, ◌&&◌, ◌||◌, Option, none, some, List, [], ◌∷◌, ◌++◌, map,
  arith, ltb, leb, ◌==◌, if◌then◌else◌, ltb→lt, lt→ltb, leb→le, ==_iff, tests, Bool-cases,
  Option-cases, length, get_or, set, take, drop, replicate,
}

-- The pointers into the buffer are addresses. The fields next and prev, which nothing reads, are
-- left out, and the queue links are those of the queues.
pub record SkBuff : Type 0 where
  pub data_at : ℕ
  pub head : ℕ
  pub tail : ℕ
  pub end : ℕ
  pub len : ℕ
  pub truesize : ℕ
  pub protocol : ℕ
  pub dev : ℕ

-- `sizeof(sk_buff_t)` on x86-64
abbrev pub sk_buff_size : ℕ
sk_buff_size = 88

-- The bytes in front of the data that skb_alloc leaves for headers.
abbrev pub header_room : ℕ
header_room = 64

-- `total_size`, a `uint32_t`
abbrev pub total_size : ℕ → ℕ
total_size size = (size + sk_buff_size + header_room) % 2 ^ 32

-- `skb` and `buf` are what the two calls of kmalloc answer, 0 for NULL.
unfoldable pub skb_alloc : ℕ → ℕ → ℕ → Option SkBuff
skb_alloc skb buf size =
    if (skb == 0) || (buf == 0)
    then none
    else some (record {
      data_at = buf + header_room;
      head = buf;
      tail = buf + header_room;
      end = buf + total_size size;
      len = 0;
      truesize = total_size size;
      protocol = 0;
      dev = 0;
    })

-- The address answered, and `none` for NULL. The packet is not NULL here and below.
unfoldable pub skb_pull : ℕ → SkBuff → SkBuff × Option ℕ
skb_pull len skb =
    if ltb skb.len len
    then (skb, none)
    else (record skb { data_at = skb.data_at + len; len = skb.len - len }, some (skb.data_at + len))

-- `skb->data - skb->head < (int)len`: an `int` from 2 ^ 31 on is negative, and the difference of the
-- pointers is not. A pointer that falls below 0 wraps around.
abbrev pub lacks_room : ℕ → SkBuff → Bool
lacks_room len skb = ltb len (2 ^ 31) && ltb (skb.data_at - skb.head) len

unfoldable pub skb_push : ℕ → SkBuff → SkBuff × Option ℕ
skb_push len skb =
    if lacks_room len skb
    then (skb, none)
    else (let front = (skb.data_at + 2 ^ 64 - len) % 2 ^ 64 in
        (record skb { data_at = front; len = (skb.len + len) % 2 ^ 32 }, some front))

-- The old tail is answered.
unfoldable pub skb_put : ℕ → SkBuff → SkBuff × ℕ
skb_put len skb = (record skb { tail = skb.tail + len; len = (skb.len + len) % 2 ^ 32 }, skb.tail)

unfoldable pub skb_trim : ℕ → SkBuff → SkBuff
skb_trim len skb =
    if ltb len skb.len then record skb { len = len; tail = skb.data_at + len } else skb

-- The clone of the packet, without the bytes that memcpy copies.
unfoldable pub skb_clone : ℕ → ℕ → SkBuff → Option SkBuff
skb_clone clone buf skb = elim (skb_alloc clone buf skb.len) [
  | none ↦ none
  | some c ↦ some (record c { len = skb.len; protocol = skb.protocol; dev = skb.dev })
]
