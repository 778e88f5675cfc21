-- ===== src/Network/Skb/Room.antt =====
-- The bytes of a packet stay inside its buffer.
use feather_os.Prelude.{
  ℕ, ◌+◌, ◌-◌, ◌%◌, ◌^◌, ◌≤◌, ◌<◌, ◌≡◌, refl, ◌≢◌, inl, inr, some, List, [], ◌∷◌, arith, ltb,
  Bool-cases,
}
use feather_os.Network.Skb.{
  SkBuff, total_size, skb_alloc, skb_pull, lacks_room, skb_push, skb_put, skb_trim,
}

-- The data ends at the tail, within the buffer, which does not reach the end of the address space.
pub record IsSound (skb : SkBuff) : Type 0 where
  pub starts : skb.head ≤ skb.data_at
  pub spans : skb.tail ≡ skb.data_at + skb.len
  pub fits : skb.tail ≤ skb.end
  pub small : skb.end < 2 ^ 64
  pub counted : skb.end < skb.head + 2 ^ 31

-- A call on a packet. A caller of skb_put sees to the room behind the tail, as the source leaves to
-- it, and one of skb_push asks for fewer than 2 ^ 31 bytes.
pub data SkbOp : Type 0 where
  pull : ℕ → SkbOp
  push : ℕ → SkbOp
  put : ℕ → SkbOp
  trim : ℕ → SkbOp

unfoldable pub call : SkbOp → SkBuff → SkBuff
call (pull len) skb = (skb_pull len skb).0
call (push len) skb = (skb_push len skb).0
call (put len) skb = (skb_put len skb).0
call (trim len) skb = skb_trim len skb

abbrev pub IsCareful : SkbOp → SkBuff → Type 0
IsCareful (push len) skb = len < 2 ^ 31
IsCareful (put len) skb = skb.tail + len ≤ skb.end
IsCareful _ skb = Unit

unfoldable pub calls : List SkbOp → SkBuff → SkBuff
calls [] skb = skb
calls (op ∷ ops) skb = calls ops (call op skb)

abbrev pub AllCareful : List SkbOp → SkBuff → Type 0
AllCareful [] skb = Unit
AllCareful (op ∷ ops) skb = IsCareful op skb × AllCareful ops (call op skb)

skb_pull-IsSound : (len : ℕ) (skb : SkBuff) → IsSound skb → IsSound (skb_pull len skb).0
unfolding skb_pull
skb_pull-IsSound len skb v = elim (Bool-cases (ltb skb.len len)) [
  | inl too_long ↦ rw (skb_pull, too_long) v
  | inr within ↦
      rw (skb_pull, within)
        (record {
          starts = omega (arith, v.starts);
          spans = ground (arith, v.spans, within);
          fits = v.fits;
          small = v.small;
          counted = v.counted;
        })
]

skb_push-IsSound :
    (len : ℕ) (skb : SkBuff) → len < 2 ^ 31 → IsSound skb → IsSound (skb_push len skb).0
unfolding skb_push
skb_push-IsSound len skb careful v = elim (Bool-cases (lacks_room len skb)) [
  | inl lacks ↦ rw (skb_push, lacks) v
  | inr room ↦
      let enough : len ≤ skb.data_at - skb.head = ground (arith, room, careful) in
      let moved : (skb.data_at + 2 ^ 64 - len) % 2 ^ 64 ≡ skb.data_at - len =
        omega (arith, enough, v.starts, v.spans, v.fits, v.small) in
      let longer : (skb.len + len) % 2 ^ 32 ≡ skb.len + len =
        omega (arith, enough, v.starts, v.spans, v.fits, v.counted) in
      rw (skb_push, room, moved, longer)
        (record {
          starts = omega (arith, enough, v.starts);
          spans = omega (arith, enough, v.starts, v.spans);
          fits = v.fits;
          small = v.small;
          counted = v.counted;
        })
]

skb_put-IsSound :
    (len : ℕ) (skb : SkBuff) → skb.tail + len ≤ skb.end → IsSound skb → IsSound (skb_put len skb).0
unfolding skb_put
skb_put-IsSound len skb careful v = record {
  starts = v.starts;
  spans = omega (arith, v.starts, v.spans, v.counted, careful);
  fits = careful;
  small = v.small;
  counted = v.counted;
}

skb_trim-IsSound : (len : ℕ) (skb : SkBuff) → IsSound skb → IsSound (skb_trim len skb)
unfolding skb_trim
skb_trim-IsSound len skb v = elim (Bool-cases (ltb len skb.len)) [
  | inl shorter ↦
      rw (skb_trim, shorter)
        (record {
          starts = v.starts;
          spans = refl;
          fits = ground (arith, v.spans, v.fits, shorter);
          small = v.small;
          counted = v.counted;
        })
  | inr longer ↦ rw (skb_trim, longer) v
]

call-IsSound : (op : SkbOp) (skb : SkBuff) → IsCareful op skb → IsSound skb → IsSound (call op skb)
unfolding call
call-IsSound (pull len) skb careful v = skb_pull-IsSound len skb v
call-IsSound (push len) skb careful v = skb_push-IsSound len skb careful v
call-IsSound (put len) skb careful v = skb_put-IsSound len skb careful v
call-IsSound (trim len) skb careful v = skb_trim-IsSound len skb v

calls-IsSound :
    (ops : List SkbOp) (skb : SkBuff) → AllCareful ops skb → IsSound skb → IsSound (calls ops skb)
unfolding calls
calls-IsSound [] skb careful v = v
calls-IsSound (op ∷ ops) skb (careful, rest) v =
    calls-IsSound ops (call op skb) rest (call-IsSound op skb careful v)

-- What skb_alloc makes, where both calls of kmalloc give memory.
abbrev pub fresh : ℕ → ℕ → SkBuff
fresh buf size = record {
  data_at = buf + 64;
  head = buf;
  tail = buf + 64;
  end = buf + total_size size;
  len = 0;
  truesize = total_size size;
  protocol = 0;
  dev = 0;
}

pub skb_alloc_lem :
    (skb buf size : ℕ) → skb ≢ 0 → buf ≢ 0 → skb_alloc skb buf size ≡ some (fresh buf size)
unfolding skb_alloc
skb_alloc_lem skb buf size s b = ground (arith, s, b)

pub fresh-IsSound :
    (buf size : ℕ) → size < 2 ^ 31 - 152 → buf + 2 ^ 31 ≤ 2 ^ 64 → IsSound (fresh buf size)
fresh-IsSound buf size small low = record {
  starts = omega arith;
  spans = omega arith;
  fits = omega (arith, small);
  small = omega (arith, small, low);
  counted = omega (arith, small);
}

-- For sizes that with the two headers stay below 2 ^ 31, what skb_alloc makes holds `size` bytes
-- behind its data, and over every sequence of skb_pull, skb_push, skb_put and skb_trim, where
-- skb_put is asked only for bytes that there is room for and skb_push for fewer than 2 ^ 31, the data
-- begins in the buffer, ends at the tail, `len` bytes later, and the tail is in the buffer.
pub skb_alloc-calls :
    (skb buf size : ℕ) (ops : List SkbOp)
    → skb ≢ 0
    → buf ≢ 0
    → size < 2 ^ 31 - 152
    → buf + 2 ^ 31 ≤ 2 ^ 64
    → AllCareful ops (fresh buf size)
    → (skb_alloc skb buf size ≡ some (fresh buf size))
      × ((fresh buf size).tail + size ≤ (fresh buf size).end)
      × IsSound (calls ops (fresh buf size))
skb_alloc-calls skb buf size ops s b small low careful = (
  skb_alloc_lem skb buf size s b,
  omega (arith, small),
  calls-IsSound ops (fresh buf size) careful (fresh-IsSound buf size small low),
)
