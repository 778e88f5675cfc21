-- ===== src/Memory/Pages/Reserve.antt =====
-- physical_reserve and physical_unreserve.
use mathlib.Core.Path.{subst}
use feather_os.Prelude.{
  ℕ, zero, suc, ◌+◌, ◌^◌, ◌≤◌, ◌≡◌, refl, sym, ◌∙◌, inl, inr, true, ◌&&◌, none, some, [], arith,
  ltb, leb, if◌then◌else◌, ltb→lt, Bool-cases,
}
use feather_os.Bitmap.{Bitmap}
use feather_os.Bitmap.Laws.{test-set}
use feather_os.Memory.Pages.{
  reserve, reserve_from, unreserve, unreserve_from, physical_reserve, physical_unreserve, Global,
  MemoryManager, bitmap_test, add64, inc64, addr_to_page, ltb, some, claim,
}
use feather_os.Memory.Pages.Alloc.{guarded_valid}
use feather_os.Memory.Pages.Valid.{IsValid, IsCounted, claim-IsValid, claim-IsCounted}

-- `mm'` has the pages below `max_pages` among `page … page + count - 1` taken and is otherwise
-- `mm`, bit by bit.
pub record Reserves (mm : MemoryManager) (page count : ℕ) (mm' : MemoryManager) : Type 0 where
  pub bits :
      (j : ℕ)
      → bitmap_test mm'.bitmap j ≡ (
          if leb page j && ltb j (page + count) && ltb j mm.max_pages
          then true
          else bitmap_test mm.bitmap j)
  pub same_max : mm'.max_pages ≡ mm.max_pages
  pub valid : IsValid mm'
  pub keeps_count : (k : ℕ) → IsCounted k mm → IsCounted k mm'

-- The two cases of the body, with `claim` shut.
tally : MemoryManager → MemoryManager
tally mm = record mm {
  stats = record (mm.stats) { reserved_pages = inc64 mm.stats.reserved_pages };
}

reserve-Reserves : (p : ℕ) {mm : MemoryManager} → IsValid mm → Reserves mm p 1 (reserve p mm)
unfolding reserve
reserve-Reserves p {mm} v = elim (Bool-cases (ltb p mm.max_pages)) [
  | inr out ↦
      rw (out, reserve)
        (record { bits = λ j. ground arith; same_max = refl; valid = v; keeps_count = λ k c. c })
  | inl below ↦ elim (Bool-cases (bitmap_test mm.bitmap p)) [
    | inl e ↦
        rw (below, e, reserve)
          (record {
            bits = λ j. ground arith;
            same_max = refl;
            valid = ground arith;
            keeps_count = λ k c. ground arith;
          })
    | inr e ↦
        rw (below, e, reserve)
          (record {
            bits = λ j. unfold claim in ground (arith, test-set mm.bitmap p j, v.covered);
            same_max = unfold claim in refl;
            valid = ground (arith, claim-IsValid p {mm = mm} (ltb→lt _ _ below) v);
            keeps_count =
                λ k c. ground (arith, claim-IsCounted k p {mm = mm} (ltb→lt _ _ below) e v c);
          })
  ]
]

Reserves-cons :
    (p n : ℕ) {mm mm' mm'' : MemoryManager}
    → Reserves mm p 1 mm'
    → Reserves mm' (p + 1) n mm''
    → Reserves mm p (suc n) mm''
Reserves-cons p n t u = record {
  bits = λ j. ground (arith, t.bits j, u.bits j, t.same_max);
  same_max = u.same_max ∙ t.same_max;
  valid = u.valid;
  keeps_count = λ k c. u.keeps_count k (t.keeps_count k c);
}

reserve_from-Reserves :
    (start i n : ℕ) {mm : MemoryManager}
    → IsValid mm
    → start + i + n ≤ 2 ^ 64
    → Reserves mm (start + i) n (reserve_from start i n mm)
unfolding reserve_from
reserve_from-Reserves start i zero {mm} v h = record {
  bits = λ j. ground arith;
  same_max = refl;
  valid = v;
  keeps_count = λ k c. c;
}
reserve_from-Reserves start i (suc n) {mm} v h =
    let p = start + i in
    let here : add64 start i ≡ start + i = omega arith in
    let shift : start + i + 1 ≡ start + (i + 1) = omega arith in
    let one = reserve-Reserves p v in
    rw here (
      Reserves-cons p n one (
        subst (λ x. Reserves (reserve p mm) x n (reserve_from start (i + 1) n (reserve p mm)))
          (sym shift) (reserve_from-Reserves start (i + 1) n one.valid (omega arith))))

-- On a valid manager, physical_reserve takes exactly the pages below `max_pages` among the `count`
-- from that of `addr` on, and keeps the invariants.
pub physical_reserve_lem :
    (addr count : ℕ) {mm : MemoryManager}
    → IsValid mm
    → addr_to_page addr + count ≤ 2 ^ 64
    → (mm' : MemoryManager) × (physical_reserve addr count (some mm) ≡ (some mm', tt))
      × Reserves mm (addr_to_page addr) count mm'
unfolding physical_reserve
physical_reserve_lem addr count {mm} v h =
    let same : addr_to_page addr + 0 ≡ addr_to_page addr = omega arith in
    (
      reserve_from (addr_to_page addr) 0 count mm,
      guarded_valid tt (λ m. (reserve_from (addr_to_page addr) 0 count m, tt)) v,
      subst (λ x. Reserves mm x count (reserve_from (addr_to_page addr) 0 count mm)) same
          (reserve_from-Reserves (addr_to_page addr) 0 count v (omega arith)),
    )

unreserve_from-bitmap :
    (start i n : ℕ) (mm m : MemoryManager)
    → mm.bitmap ≡ m.bitmap
    → mm.max_pages ≡ m.max_pages
    → (unreserve_from start i n mm).bitmap ≡ (reserve_from start i n m).bitmap
unfolding unreserve_from reserve_from
unreserve_from-bitmap start i zero mm m e f = e
unreserve_from-bitmap start i (suc n) mm m e f =
    unreserve_from-bitmap start (i + 1) n (unreserve (add64 start i) mm) (reserve (add64 start i) m)
      (unfold unreserve reserve in ground arith) (unfold unreserve reserve in ground arith)

abbrev pub bitmap_of : Global → Bitmap
bitmap_of none = []
bitmap_of (some mm) = mm.bitmap

-- physical_unreserve leaves the very bitmap that physical_reserve leaves, in every state: it takes
-- the free pages of the range, and frees none.
physical_unreserve-bitmap :
    (addr count : ℕ) (g : Global)
    → bitmap_of (physical_unreserve addr count g).0 ≡ bitmap_of (physical_reserve addr count g).0
unfolding physical_unreserve physical_reserve
physical_unreserve-bitmap addr count none = refl
physical_unreserve-bitmap addr count (some mm) =
    ground (arith, unreserve_from-bitmap (addr_to_page addr) 0 count mm mm refl refl)
