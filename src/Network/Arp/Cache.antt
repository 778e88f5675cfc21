-- ===== src/Network/Arp/Cache.antt =====
-- The ARP cache as a map from addresses.
use feather_os.Prelude.{
  ℕ, zero, suc, ◌+◌, ◌<◌, ◌≡◌, refl, sym, ap, ◌∙◌, ◌⊎◌, inl, inr, Bool, true, false, not, ◌&&◌,
  ◌||◌, Option, none, some, List, [], ◌∷◌, arith, if◌then◌else◌, Bool-cases, length, get_or, set,
  take,
}
use feather_os.TcpIp.Address.{IpAddr, ip_addr_equal}
use feather_os.Network.Arp.{
  MacAddr, ArpCacheEntry, zero_entry, ArpCache, is_for, note_slot, lookup_entries, arp_lookup,
  find_slot, arp_add, count_lookup, new_entry, write_entry,
}

-- An entry for the address is among the entries.
abbrev pub has_entry : IpAddr → List ArpCacheEntry → Bool
has_entry ip [] = false
has_entry ip (e ∷ es) = is_for ip e || has_entry ip es

abbrev pub has_free : List ArpCacheEntry → Bool
has_free [] = false
has_free (e ∷ es) = not e.valid || has_free es

-- The entry `k` may be written for the address, and none before it is for the address.
record IsSlot (ip : IpAddr) (es : List ArpCacheEntry) (k : ℕ) : Type 0 where
  below : k < length es
  clear : has_entry ip (take k es) ≡ false
  usable : (is_for ip (get_or es k zero_entry) ≡ true) ⊎ ((get_or es k zero_entry).valid ≡ false)

IsSlot-head :
    (ip : IpAddr) (e : ArpCacheEntry) (es : List ArpCacheEntry)
    → (is_for ip e ≡ true) ⊎ (e.valid ≡ false)
    → IsSlot ip (e ∷ es) 0
IsSlot-head ip e es u = record { below = omega arith; clear = refl; usable = u }

IsSlot-tail :
    (ip : IpAddr) (e : ArpCacheEntry) (es : List ArpCacheEntry) (k : ℕ)
    → is_for ip e ≡ false
    → IsSlot ip es k
    → IsSlot ip (e ∷ es) (suc k)
IsSlot-tail ip e es k miss s = record {
  below = omega (arith, s.below);
  clear = rw (miss, s.clear);
  usable = s.usable;
}

find_slot-entry :
    (ip : IpAddr) (es : List ArpCacheEntry) (i : ℕ)
    → has_entry ip es ≡ true
    → (k : ℕ) × IsSlot ip es k
      × ((free_slot : Option ℕ) → find_slot ip es i free_slot ≡ some (i + k))
unfolding find_slot
find_slot-entry ip [] i e = absurd (cc e)
find_slot-entry ip (e ∷ es) i has = elim (Bool-cases (is_for ip e)) [
  | inl here ↦ (0, IsSlot-head ip e es (inl here), λ f. rw here (ap some (omega arith)))
  | inr miss ↦
      let (k, s, found) = find_slot-entry ip es (i + 1) (ground (arith, has, miss)) in
      (
        suc k,
        IsSlot-tail ip e es k miss s,
        λ f. rw (miss, found (note_slot e i f)) (ap some (omega arith)),
      )
]

find_slot-noted :
    (ip : IpAddr) (es : List ArpCacheEntry) (i slot : ℕ)
    → has_entry ip es ≡ false
    → find_slot ip es i (some slot) ≡ some slot
unfolding find_slot
find_slot-noted ip [] i slot has = refl
find_slot-noted ip (e ∷ es) i slot has =
    let miss : is_for ip e ≡ false = ground (arith, has) in
    rw miss (find_slot-noted ip es (i + 1) slot (ground (arith, has)))

find_slot-free :
    (ip : IpAddr) (es : List ArpCacheEntry) (i : ℕ)
    → has_entry ip es ≡ false
    → has_free es ≡ true
    → (k : ℕ) × IsSlot ip es k × (find_slot ip es i none ≡ some (i + k))
unfolding find_slot
find_slot-free ip [] i has free = absurd (cc free)
find_slot-free ip (e ∷ es) i has free =
    let miss : is_for ip e ≡ false = ground (arith, has) in
    let rest : has_entry ip es ≡ false = ground (arith, has) in
    elim (Bool-cases e.valid) [
      | inl valid ↦
          let (k, s, found) = find_slot-free ip es (i + 1) rest (ground (arith, free, valid)) in
          (suc k, IsSlot-tail ip e es k miss s, rw (miss, valid, found) (ap some (omega arith)))
      | inr unused ↦ (
        0,
        IsSlot-head ip e es (inr unused),
        rw (miss, unused, find_slot-noted ip es (i + 1) i rest) (ap some (omega arith)),
      )
    ]

find_slot-full :
    (ip : IpAddr) (es : List ArpCacheEntry) (i : ℕ)
    → has_entry ip es ≡ false
    → has_free es ≡ false
    → find_slot ip es i none ≡ none
unfolding find_slot
find_slot-full ip [] i has free = refl
find_slot-full ip (e ∷ es) i has free =
    let miss : is_for ip e ≡ false = ground (arith, has) in
    let valid : e.valid ≡ true = ground (arith, free) in
    rw (miss, valid) (find_slot-full ip es (i + 1) (ground (arith, has)) (ground (arith, free)))

-- What the loops find in entries of which the slot `k` is written.
lookup_entries-written :
    (ip : IpAddr) (new : ArpCacheEntry) (es : List ArpCacheEntry) (k : ℕ)
    → k < length es
    → has_entry ip (take k es) ≡ false
    → is_for ip new ≡ true
    → lookup_entries ip (set es k new) ≡ some new.mac_addr
unfolding lookup_entries
lookup_entries-written ip new [] k lt clear hit = absurd (omega (arith, lt))
lookup_entries-written ip new (e ∷ es) zero lt clear hit = rw hit refl
lookup_entries-written ip new (e ∷ es) (suc k) lt clear hit =
    let miss : is_for ip e ≡ false = ground (arith, clear) in
    rw miss (lookup_entries-written ip new es k (omega (arith, lt)) (ground (arith, clear)) hit)

lookup_entries-others :
    (ip : IpAddr) (new : ArpCacheEntry) (es : List ArpCacheEntry) (k : ℕ)
    → is_for ip (get_or es k zero_entry) ≡ false
    → is_for ip new ≡ false
    → lookup_entries ip (set es k new) ≡ lookup_entries ip es
unfolding lookup_entries
lookup_entries-others ip new [] k old miss = refl
lookup_entries-others ip new (e ∷ es) zero old miss = rw (old, miss) refl
lookup_entries-others ip new (e ∷ es) (suc k) old miss =
    rw (lookup_entries-others ip new es k old miss) refl

-- The address that arp_lookup answers.
abbrev pub answer : IpAddr → ArpCache → Option MacAddr
answer ip c = (arp_lookup (some ip) c).1

pub answer_lem : (ip : IpAddr) (c : ArpCache) → answer ip c ≡ lookup_entries ip c.entries
unfolding arp_lookup
answer_lem ip c = go (lookup_entries ip c.entries)
  where
    go : (r : Option MacAddr) → (count_lookup r c).1 ≡ r
    go none = refl
    go (some mac) = refl

-- A slot that may be written for the address is not read for any other.
IsSlot-other :
    (ip ip' : IpAddr) (es : List ArpCacheEntry) (k : ℕ)
    → IsSlot ip es k
    → ip_addr_equal (some ip) (some ip') ≡ false
    → is_for ip' (get_or es k zero_entry) ≡ false
unfolding ip_addr_equal
IsSlot-other ip ip' es k s other = elim s.usable [
  | inl own ↦ ground (arith, own, other)
  | inr unused ↦ rw unused refl
]

ip_addr_equal-path : (a b : IpAddr) → ip_addr_equal (some a) (some b) ≡ true → a ≡ b
unfolding ip_addr_equal
ip_addr_equal-path a b e =
    let e0 : a.b0 ≡ b.b0 = ground (arith, e) in
    let e1 : a.b1 ≡ b.b1 = ground (arith, e) in
    let e2 : a.b2 ≡ b.b2 = ground (arith, e) in
    let e3 : a.b3 ≡ b.b3 = ground (arith, e) in cc (e0, e1, e2, e3)

-- The slot that is written gives the new answer, and only for its address.
answer-written :
    (ip ip' : IpAddr) (mac : MacAddr) (now : ℕ) (c : ArpCache) (k : ℕ)
    → IsSlot ip c.entries k
    → answer ip' (write_entry (some k) (new_entry ip mac now) c)
      ≡ (if ip_addr_equal (some ip) (some ip') then some mac else answer ip' c)
answer-written ip ip' mac now c k s =
    answer_lem ip' (write_entry (some k) (new_entry ip mac now) c)
    ∙ elim (Bool-cases (ip_addr_equal (some ip) (some ip'))) [
      | inl same ↦ rw same (
          lookup_entries-written ip' (new_entry ip mac now) c.entries k s.below
            (rw⁻¹ (ip_addr_equal-path ip ip' same) s.clear) same)
      | inr other ↦ rw other (
          lookup_entries-others ip' (new_entry ip mac now) c.entries k
            (IsSlot-other ip ip' c.entries k s other) other
          ∙ sym (answer_lem ip' c))
    ]

-- An entry of the cache may be written for the address.
abbrev pub has_room : IpAddr → ArpCache → Bool
has_room ip c = has_entry ip c.entries || has_free c.entries

arp_add-written :
    (ip ip' : IpAddr) (mac : MacAddr) (now : ℕ) (c : ArpCache) (k : ℕ)
    → IsSlot ip c.entries k
    → find_slot ip c.entries 0 none ≡ some (0 + k)
    → answer ip' (arp_add (some ip) (some mac) now c)
      ≡ (if ip_addr_equal (some ip) (some ip') then some mac else answer ip' c)
unfolding arp_add
arp_add-written ip ip' mac now c k s found = rw found (
    ap (λ j. answer ip' (write_entry (some j) (new_entry ip mac now) c)) (omega arith)
    ∙ answer-written ip ip' mac now c k s)

-- After arp_add for an address that has an entry, or where an entry is unused, arp_lookup answers the
-- new hardware address for it and for every other address what it answered before. Where all entries
-- are in use for other addresses, arp_add changes no answer.
pub arp_lookup-add :
    (ip ip' : IpAddr) (mac : MacAddr) (now : ℕ) (c : ArpCache)
    → (arp_lookup (some ip') (arp_add (some ip) (some mac) now c)).1 ≡ (
        if has_room ip c && ip_addr_equal (some ip) (some ip')
        then some mac
        else (arp_lookup (some ip') c).1)
arp_lookup-add ip ip' mac now c = elim (Bool-cases (has_entry ip c.entries)) [
  | inl has ↦
      let (k, s, found) = find_slot-entry ip c.entries 0 has in
      rw has (arp_add-written ip ip' mac now c k s (found none))
  | inr missing ↦ elim (Bool-cases (has_free c.entries)) [
    | inl free ↦
        let (k, s, found) = find_slot-free ip c.entries 0 missing free in
        rw (missing, free) (arp_add-written ip ip' mac now c k s found)
    | inr full ↦
        rw (missing, full) (unfold arp_add in rw (find_slot-full ip c.entries 0 missing full) refl)
  ]
]
