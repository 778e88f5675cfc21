-- ===== src/Memory/Pages/Free.antt =====
-- What physical_free_page and physical_free_pages do to the bits and to the count of free pages.
use mathlib.Core.Path.{subst}
use feather_os.Prelude.{
  ℕ, zero, suc, ◌+◌, ◌^◌, ◌≤◌, ◌≡◌, inl, inr, refl, sym, ◌∙◌, false, arith, ltb, leb, if◌then◌else◌,
  ◌&&◌, Bool-cases, ◌<◌,
}
use feather_os.Bitmap.{bitmap_test, add64}
use feather_os.Bitmap.Laws.{test-clr}
use feather_os.Memory.State.{MemoryManager}
use feather_os.Memory.Pages.{
  release, free_from, free_step, physical_free_page, physical_free_pages, addr_to_page, some,
}
use feather_os.Memory.Pages.Alloc.{guarded_valid}
use feather_os.Memory.Pages.Valid.{IsValid, IsCounted, release-IsValid, release-IsCounted}

-- `mm'` has the pages below `max_pages` among `page … page + count - 1` free and is otherwise
-- `mm`, bit by bit.
pub record Frees (mm : MemoryManager) (page count : ℕ) (mm' : MemoryManager) : Type 0 where
  pub bits :
      (j : ℕ)
      → bitmap_test mm'.bitmap j ≡ (
          if leb page j && ltb j (page + count) && ltb j mm.max_pages
          then false
          else bitmap_test mm.bitmap j)
  pub same_max : mm'.max_pages ≡ mm.max_pages
  pub valid : IsValid mm'
  pub keeps_count : (k : ℕ) → IsCounted k mm → IsCounted k mm'

free_step-Frees : (p : ℕ) {mm : MemoryManager} → IsValid mm → Frees mm p 1 (free_step p mm)
unfolding free_step
free_step-Frees p {mm} v = elim (Bool-cases (ltb p mm.max_pages && bitmap_test mm.bitmap p)) [
  | inl e ↦
      rw (e, free_step)
        (record {
          bits = λ j. unfold release in ground (arith, test-clr mm.bitmap p j, v.covered);
          same_max = unfold release in refl;
          valid = release-IsValid p (ground arith) v;
          keeps_count = λ k c. release-IsCounted k p (ground arith) (ground arith) v c;
        })
  | inr e ↦
      rw (e, free_step)
        (record { bits = λ j. ground arith; same_max = refl; valid = v; keeps_count = λ k c. c })
]

Frees-cons :
    (p n : ℕ) {mm mm' mm'' : MemoryManager}
    → Frees mm p 1 mm'
    → Frees mm' (p + 1) n mm''
    → Frees mm p (suc n) mm''
Frees-cons p n t u = record {
  bits = λ j. ground (arith, t.bits j, u.bits j, t.same_max);
  same_max = u.same_max ∙ t.same_max;
  valid = u.valid;
  keeps_count = λ k c. u.keeps_count k (t.keeps_count k c);
}

free_from-Frees :
    (start i n : ℕ) {mm : MemoryManager}
    → IsValid mm
    → start + i + n ≤ 2 ^ 64
    → Frees mm (start + i) n (free_from start i n mm)
unfolding free_from
free_from-Frees start i zero {mm} v h = record {
  bits = λ j. ground arith;
  same_max = refl;
  valid = v;
  keeps_count = λ k c. c;
}
free_from-Frees start i (suc n) {mm} v h =
    let p = start + i in
    let here : add64 start i ≡ start + i = omega arith in
    let shift : start + i + 1 ≡ start + (i + 1) = omega arith in
    let one = free_step-Frees p v in
    rw here (
      Frees-cons p n one (
        subst (λ x. Frees (free_step p mm) x n (free_from start (i + 1) n (free_step p mm)))
          (sym shift) (free_from-Frees start (i + 1) n one.valid (omega arith))))

-- On a valid manager, physical_free_pages frees exactly the pages below `max_pages` among the
-- `count` from that of `addr` on, and keeps the invariants.
pub physical_free_pages_lem :
    (addr count : ℕ) {mm : MemoryManager}
    → IsValid mm
    → addr_to_page addr + count ≤ 2 ^ 64
    → (mm' : MemoryManager) × (physical_free_pages addr count (some mm) ≡ (some mm', tt))
      × Frees mm (addr_to_page addr) count mm'
unfolding physical_free_pages
physical_free_pages_lem addr count {mm} v h =
    let same : addr_to_page addr + 0 ≡ addr_to_page addr = omega arith in
    (
      free_from (addr_to_page addr) 0 count mm,
      guarded_valid tt (λ m. (free_from (addr_to_page addr) 0 count m, tt)) v,
      subst (λ x. Frees mm x count (free_from (addr_to_page addr) 0 count mm)) same
          (free_from-Frees (addr_to_page addr) 0 count v (omega arith)),
    )

-- On a valid manager, physical_free_page does what physical_free_pages does for one page.
pub physical_free_page-eq-pages :
    (addr : ℕ) {mm : MemoryManager}
    → addr < 2 ^ 64
    → IsValid mm
    → physical_free_page addr (some mm) ≡ physical_free_pages addr 1 (some mm)
unfolding physical_free_page physical_free_pages
physical_free_page-eq-pages addr {mm} h v =
    let same : add64 (addr_to_page addr) 0 ≡ addr_to_page addr = omega arith in
    rw same (ground arith)
