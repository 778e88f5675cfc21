-- ===== src/Network/Skb/Headers.antt =====
-- Headers that are put in front of a packet and taken off again, and what a clone leaves out.
use native.Mathlib.Decide.{dec_lt}
use feather_os.Prelude.{
  ℕ, ◌+◌, ◌-◌, ◌%◌, ◌^◌, ◌≤◌, ◌<◌, ◌≡◌, refl, ap, ◌∙◌, ◌≢◌, ◌⊎◌, inl, inr, false, some, arith, ltb,
}
use feather_os.Network.Skb.{SkBuff, skb_pull, lacks_room, skb_push, skb_put, skb_clone}
use feather_os.Network.Skb.Room.{IsSound, fresh, skb_alloc_lem}

-- On a sound packet, skb_pull of the bytes that skb_push has put in front, where it has room for
-- them, answers where the data began and restores the packet.
skb_pull-push :
    (len : ℕ) (skb : SkBuff)
    → IsSound skb
    → len ≤ skb.data_at - skb.head
    → ((skb_push len skb).1 ≡ some (skb.data_at - len))
      × (skb_pull len (skb_push len skb).0 ≡ (skb, some skb.data_at))
unfolding skb_push skb_pull
skb_pull-push len skb v enough =
    let room : lacks_room len skb ≡ false = ground (arith, enough) in
    let moved : (skb.data_at + 2 ^ 64 - len) % 2 ^ 64 ≡ skb.data_at - len =
      omega (arith, enough, v.starts, v.spans, v.fits, v.small) in
    let longer : (skb.len + len) % 2 ^ 32 ≡ skb.len + len =
      omega (arith, enough, v.starts, v.spans, v.fits, v.counted) in
    let pushed : skb_push len skb ≡ (
      record skb { data_at = skb.data_at - len; len = skb.len + len },
      some (skb.data_at - len),
    ) =
      rw (skb_push, room, moved, longer) refl in
    let fits : ltb (skb.len + len) len ≡ false = ground arith in
    let back : skb.data_at - len + len ≡ skb.data_at = omega (arith, enough) in
    let shorter : skb.len + len - len ≡ skb.len = omega arith in
    (ap (λ r. r.1) pushed, ap (λ r. skb_pull len r.0) pushed ∙ rw (fits, back, shorter) refl)

-- From 2 ^ 31 bytes on skb_push does not refuse, whatever room there is: the data of a sound packet
-- goes below the buffer, or round the end of the address space.
skb_push_wraps :
    (len : ℕ) (skb : SkBuff)
    → IsSound skb
    → 2 ^ 31 ≤ len
    → len < 2 ^ 32
    → ((skb_push len skb).1 ≡ some ((skb_push len skb).0.data_at))
      × (((skb_push len skb).0.data_at < skb.head) ⊎ (skb.end ≤ (skb_push len skb).0.data_at))
unfolding skb_push
skb_push_wraps len skb v long short =
    let room : lacks_room len skb ≡ false = ground (arith, long) in
    rw room (
      refl,
      elim (dec_lt skb.data_at len) [
        | no less ↦ inl (omega (arith, less, long, v.starts, v.spans, v.fits, v.small, v.counted))
        | yes more ↦ inr (omega (arith, more, short, v.starts, v.spans, v.fits, v.small, v.counted))
      ],
    )

-- The clone of a packet that has data has its tail at the start of its data, not at the end: skb_put
-- on the clone answers the place of the copied data.
skb_put-clone :
    (clone buf len : ℕ) (skb : SkBuff)
    → clone ≢ 0
    → buf ≢ 0
    → (c : SkBuff) × (skb_clone clone buf skb ≡ some c)
      × (c.len ≡ skb.len)
      × ((skb_put len c).1 ≡ c.data_at)
unfolding skb_clone skb_put
skb_put-clone clone buf len skb cz bz = (
  record (fresh buf skb.len) { len = skb.len; protocol = skb.protocol; dev = skb.dev },
  rw (skb_clone, skb_alloc_lem clone buf skb.len cz bz) refl,
  refl,
  refl,
)
