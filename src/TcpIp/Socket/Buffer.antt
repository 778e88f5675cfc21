-- ===== src/TcpIp/Socket/Buffer.antt =====
-- The received bytes of a socket as a queue.
use native.Mathlib.Nat.{zero-add}
use feather_os.Prelude.{
  ℕ, zero, suc, ◌+◌, ◌-◌, ◌/◌, ◌%◌, ◌^◌, ◌≤◌, ◌<◌, ◌≡◌, refl, sym, ap, ◌∙◌, inl, inr, true, false,
  ◌&&◌, List, [], ◌∷◌, ◌++◌, arith, ltb, leb, ◌==◌, if◌then◌else◌, Bool-cases, length,
}
use mathlib.Core.List.{append-nil, append_assoc}
use feather_os.TcpIp.Socket.{
  Socket, tcp_buf_size, copy_in, copy_out, shift_down, tcp_recv, Segment, data_len, payload,
  tcp_segment,
}

copy_in-below : (bytes : List ℕ) (buf : ℕ → ℕ) (at x : ℕ) → x < at → copy_in buf at bytes x ≡ buf x
unfolding copy_in
copy_in-below [] buf at x lt = refl
copy_in-below (b ∷ bytes) buf at x lt =
    copy_in-below bytes (λ y. if y == at then b else buf y) (at + 1) x (omega arith) ∙ ground arith

-- Two buffers that agree from `i` on over `n` bytes.
copy_out-same :
    (buf buf' : ℕ → ℕ) (i n : ℕ)
    → ((x : ℕ) → i ≤ x → x < i + n → buf x ≡ buf' x)
    → copy_out buf i n ≡ copy_out buf' i n
unfolding copy_out
copy_out-same buf buf' i zero same = refl
copy_out-same buf buf' i (suc n) same = cc (
  same i (omega arith) (omega arith),
  copy_out-same buf buf' (i + 1) n (λ x lo hi. same x (omega arith) (omega arith)),
)

copy_out-add :
    (buf : ℕ → ℕ) (i m n : ℕ) → copy_out buf i (m + n) ≡ copy_out buf i m ++ copy_out buf (i + m) n
unfolding copy_out
copy_out-add buf i zero n =
    ap (copy_out buf i) (omega arith) ∙ ap (λ k. copy_out buf k n) (omega arith)
copy_out-add buf i (suc m) n =
    let e : suc m + n ≡ suc (m + n) = omega arith in
    ap (copy_out buf i) e
    ∙ ap (λ l. buf i ∷ l)
        (copy_out-add buf (i + 1) m n
          ∙ ap (λ k. copy_out buf (i + 1) m ++ copy_out buf k n) (omega arith))

copy_out-copy_in :
    (bytes : List ℕ) (buf : ℕ → ℕ) (at : ℕ)
    → copy_out (copy_in buf at bytes) at (length bytes) ≡ bytes
unfolding copy_in copy_out
copy_out-copy_in [] buf at = refl
copy_out-copy_in (b ∷ bytes) buf at =
    let buf' : ℕ → ℕ = λ y. if y == at then b else buf y in
    let stays : copy_in buf' (at + 1) bytes at ≡ b =
      copy_in-below bytes buf' (at + 1) at (omega arith) ∙ ground arith in
    cc (stays, copy_out-copy_in bytes buf' (at + 1))

-- The bytes that wait in the receive buffer.
abbrev pub waiting : Socket → List ℕ
waiting s = copy_out s.recv_buf 0 s.recv_len

-- A buffer that is written behind its first `n` bytes.
copy_out-behind :
    (buf : ℕ → ℕ) (n : ℕ) (bytes : List ℕ)
    → copy_out (copy_in buf n bytes) 0 (n + length bytes) ≡ copy_out buf 0 n ++ bytes
copy_out-behind buf n bytes =
    copy_out-add (copy_in buf n bytes) 0 n (length bytes)
    ∙ cc (
      copy_out-same (copy_in buf n bytes) buf 0 n
          (λ x lo hi. copy_in-below bytes buf n x (omega arith)),
      ap (λ k. copy_out (copy_in buf n bytes) k (length bytes)) (zero-add n),
      copy_out-copy_in bytes buf n,
    )

-- A buffer whose first `m` bytes are taken away.
copy_out-shift :
    (buf : ℕ → ℕ) (i m n k : ℕ)
    → i + k ≤ n
    → copy_out (shift_down m n buf) i k ≡ copy_out buf (i + m) k
unfolding copy_out
copy_out-shift buf i m n zero fits = refl
copy_out-shift buf i m n (suc k) fits =
    let head : shift_down m n buf i ≡ buf (i + m) = ground arith in
    let next : (i + 1) + m ≡ (i + m) + 1 = omega arith in
    cc (head, copy_out-shift buf (i + 1) m n k (omega arith), ap (λ j. copy_out buf j k) next)

copy_out-taken :
    (buf : ℕ → ℕ) (m n : ℕ)
    → m ≤ n
    → copy_out buf 0 m ++ copy_out (shift_down m (n - m) buf) 0 (n - m) ≡ copy_out buf 0 n
copy_out-taken buf m n le =
    ap (λ l. copy_out buf 0 m ++ l) (copy_out-shift buf 0 m (n - m) (n - m) (omega arith))
    ∙ sym (copy_out-add buf 0 m (n - m))
    ∙ ap (copy_out buf 0) (omega (arith, le))

tcp_recv-waiting :
    (s : Socket) (len : ℕ) → (tcp_recv s len).1 ++ waiting (tcp_recv s len).0 ≡ waiting s
unfolding tcp_recv
tcp_recv-waiting s len = elim (Bool-cases (s.recv_len == 0)) [
  | inl empty ↦ rw (tcp_recv, empty) refl
  | inr some_bytes ↦
      rw (tcp_recv, some_bytes)
        (copy_out-taken s.recv_buf (if ltb s.recv_len len then s.recv_len else len) s.recv_len
          (ground arith))
]

-- A segment whose header lies within it, and which is not as long as 2 ^ 31.
pub record IsWhole (seg : Segment) : Type 0 where
  pub header_fits : seg.data_offset / 4 ≤ seg.len
  pub small : seg.len < 2 ^ 31

length-copy_out : (buf : ℕ → ℕ) (i n : ℕ) → length (copy_out buf i n) ≡ n
unfolding copy_out
length-copy_out buf i zero = refl
length-copy_out buf i (suc n) = ap suc (length-copy_out buf (i + 1) n)

length-payload : (seg : Segment) → length (payload seg) ≡ data_len seg
length-payload seg = length-copy_out seg.bytes (seg.data_offset / 4) (data_len seg)

-- The bytes of a segment that a socket keeps.
abbrev pub kept : Segment → Socket → List ℕ
kept seg s =
    if seg.rst
    then []
    else if ltb 0 (data_len seg) && seg.psh && leb (s.recv_len + data_len seg) tcp_buf_size
    then payload seg
    else []

-- A segment that is kept.
keeps :
    (s : Socket) (seg : Segment)
    → IsWhole seg
    → s.recv_len ≤ tcp_buf_size
    → copy_out
        (copy_in s.recv_buf s.recv_len (payload seg))
        0
        ((s.recv_len + data_len seg) % 2 ^ 32)
      ≡ waiting s ++ payload seg
keeps s seg v fits =
    ap (copy_out (copy_in s.recv_buf s.recv_len (payload seg)) 0)
      (omega (arith, length-payload seg, v.header_fits, v.small))
    ∙ copy_out-behind s.recv_buf s.recv_len (payload seg)

tcp_segment-waiting :
    (s : Socket) (seg : Segment)
    → IsWhole seg
    → s.recv_len ≤ tcp_buf_size
    → waiting (tcp_segment seg s).0 ≡ waiting s ++ kept seg s
unfolding tcp_segment
tcp_segment-waiting s seg v fits =
    ground (arith, keeps s seg v fits, v.header_fits, v.small, append-nil (waiting s))

-- What happens to a socket: a segment arrives for it, or its owner reads so many bytes.
pub data StreamEvent : Type 0 where
  arrives : Segment → StreamEvent
  reads : ℕ → StreamEvent

abbrev pub AllWhole : List StreamEvent → Type 0
AllWhole [] = Unit
AllWhole (arrives seg ∷ es) = IsWhole seg × AllWhole es
AllWhole (reads len ∷ es) = AllWhole es

-- The socket afterwards, the bytes kept of the segments, and the bytes read.
unfoldable pub stream : List StreamEvent → Socket → Socket × List ℕ × List ℕ
stream [] s = (s, [], [])
stream (arrives seg ∷ es) s =
    let rest = stream es (tcp_segment seg s).0 in (rest.0, kept seg s ++ rest.1, rest.2)
stream (reads len ∷ es) s =
    let rest = stream es (tcp_recv s len).0 in (rest.0, rest.1, (tcp_recv s len).1 ++ rest.2)

segment-fits :
    (s : Socket) (seg : Segment)
    → s.recv_len ≤ tcp_buf_size
    → (tcp_segment seg s).0.recv_len ≤ tcp_buf_size
unfolding tcp_segment
segment-fits s seg fits = ground arith

recv-fits :
    (s : Socket) (len : ℕ) → s.recv_len ≤ tcp_buf_size → (tcp_recv s len).0.recv_len ≤ tcp_buf_size
unfolding tcp_recv
recv-fits s len fits = ground arith

-- From at most 64 KB that wait, over every sequence of reads and of segments that are whole, their
-- header within them and themselves shorter than 2 ^ 31, the bytes read and those that still wait
-- are, in order, those that waited at first and those kept of the segments: none is lost, doubled or
-- out of order. A segment is kept whole, if it pushes data and the data fits, or not at all.
pub tcp_recv-stream :
    (es : List StreamEvent) (s : Socket)
    → AllWhole es
    → s.recv_len ≤ tcp_buf_size
    → (stream es s).2 ++ waiting (stream es s).0 ≡ waiting s ++ (stream es s).1
unfolding stream
tcp_recv-stream [] s whole fits = sym (append-nil (waiting s))
tcp_recv-stream (arrives seg ∷ es) s (v, whole) fits =
    tcp_recv-stream es (tcp_segment seg s).0 whole (segment-fits s seg fits)
    ∙ ap (λ l. l ++ (stream es (tcp_segment seg s).0).1) (tcp_segment-waiting s seg v fits)
    ∙ append_assoc (waiting s) (kept seg s) _
tcp_recv-stream (reads len ∷ es) s whole fits =
    append_assoc (tcp_recv s len).1 _ _
    ∙ ap (λ l. (tcp_recv s len).1 ++ l)
        (tcp_recv-stream es (tcp_recv s len).0 whole (recv-fits s len fits))
    ∙ sym (append_assoc (tcp_recv s len).1 (waiting (tcp_recv s len).0) _)
    ∙ ap (λ l. l ++ (stream es (tcp_recv s len).0).1) (tcp_recv-waiting s len)

-- Where the header of a segment claims `k` bytes more than the segment has, and at least `k` bytes
-- wait, a pushing segment passes the test for room although it has no data, and the number of
-- bytes that wait falls by `k`.
tcp_segment_underflow :
    (s : Socket) (seg : Segment) (k : ℕ)
    → seg.data_offset / 4 ≡ seg.len + k
    → seg.len + k < 64
    → 0 < k
    → k ≤ s.recv_len
    → s.recv_len ≤ tcp_buf_size
    → seg.psh ≡ true
    → seg.rst ≡ false
    → (tcp_segment seg s).0.recv_len + k ≡ s.recv_len
unfolding tcp_segment
tcp_segment_underflow s seg k claim small pos enough fits push no_reset = ground arith
