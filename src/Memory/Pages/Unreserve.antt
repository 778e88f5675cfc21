-- ===== src/Memory/Pages/Unreserve.antt =====
-- physical_unreserve and the statistic `free_pages`.
use mathlib.Core.Path.{subst}
use feather_os.Prelude.{
  ℕ, zero, suc, ◌+◌, ◌*◌, ◌<◌, ◌≡◌, refl, ◌∙◌, inl, inr, some, arith, ltb, ltb→lt, Bool-cases,
}
use feather_os.Bitmap.{bitmap_test}
use feather_os.Bitmap.Laws.{test-set, length-bitmap_set}
use feather_os.Bitmap.Count.{free_count, free_count-set}
use feather_os.Memory.State.{MemoryManager, addr_to_page}
use feather_os.Memory.Pages.{unreserve, unreserve_from, physical_unreserve, add64}
use feather_os.Memory.Pages.Alloc.{guarded_valid}
use feather_os.Memory.Pages.Valid.{IsValid, IsCounted}

-- `mm'` is `mm` after physical_unreserve: it has taken some free pages and counts each of them as a
-- free page more, so that `free_pages` exceeds their number by two for each.
pub record Unreserves (mm mm' : MemoryManager) : Type 0 where
  pub taken : ℕ
  pub fewer : free_count mm'.bitmap mm'.max_pages + taken ≡ free_count mm.bitmap mm.max_pages
  pub same_max : mm'.max_pages ≡ mm.max_pages
  pub valid : IsValid mm'
  pub miscounts : (k : ℕ) → IsCounted k mm → IsCounted (k + 2 * taken) mm'

unreserve-Unreserves : (p : ℕ) {mm : MemoryManager} → IsValid mm → Unreserves mm (unreserve p mm)
unfolding unreserve
unreserve-Unreserves p {mm} v = elim (Bool-cases (ltb p mm.max_pages)) [
  | inr out ↦
      rw (out, unreserve)
        (record {
          taken = 0;
          fewer = omega arith;
          same_max = refl;
          valid = v;
          miscounts = λ k c. record { counted = omega (arith, c.counted) };
        })
  | inl below ↦ elim (Bool-cases (bitmap_test mm.bitmap p)) [
    | inl e ↦
        rw (below, e, unreserve)
          (record {
            taken = 0;
            fewer = omega arith;
            same_max = refl;
            valid = ground arith;
            miscounts = λ k c. record { counted = omega (arith, c.counted) };
          })
    | inr e ↦
        let lt : p < mm.max_pages = ltb→lt _ _ below in
        let one = free_count-set mm.bitmap p mm.max_pages (omega (arith, v.covered)) lt e in
        rw (below, e, unreserve)
          (record {
            taken = 1;
            fewer = one;
            same_max = refl;
            valid = ground (
              arith,
              test-set mm.bitmap p mm.max_pages,
              length-bitmap_set mm.bitmap p,
              v.tagged,
              v.small,
              v.covered,
              v.stopped,
            );
            miscounts = λ k c. record { counted = omega (arith, c.counted, one) };
          })
  ]
]

Unreserves-cons :
    {mm mm' mm'' : MemoryManager} → Unreserves mm mm' → Unreserves mm' mm'' → Unreserves mm mm''
Unreserves-cons {mm} {mm'} {mm''} t u = record {
  taken = t.taken + u.taken;
  fewer = omega (arith, t.fewer, u.fewer);
  same_max = u.same_max ∙ t.same_max;
  valid = u.valid;
  miscounts = λ k c.
      subst (λ n. IsCounted n mm'') (omega arith) (u.miscounts (k + 2 * t.taken) (t.miscounts k c));
}

unreserve_from-Unreserves :
    (start i n : ℕ) {mm : MemoryManager} → IsValid mm → Unreserves mm (unreserve_from start i n mm)
unfolding unreserve_from
unreserve_from-Unreserves start i zero {mm} v = record {
  taken = 0;
  fewer = omega arith;
  same_max = refl;
  valid = v;
  miscounts = λ k c. record { counted = omega (arith, c.counted) };
}
unreserve_from-Unreserves start i (suc n) {mm} v =
    let one = unreserve-Unreserves (add64 start i) v in
    Unreserves-cons one (unreserve_from-Unreserves start (i + 1) n one.valid)

-- On a valid manager, physical_unreserve keeps the manager valid, and raises the excess of
-- `free_pages` by two for every page that it takes.
pub physical_unreserve_lem :
    (addr count : ℕ) {mm : MemoryManager}
    → IsValid mm
    → (mm' : MemoryManager) × (physical_unreserve addr count (some mm) ≡ (some mm', tt))
      × Unreserves mm mm'
unfolding physical_unreserve
physical_unreserve_lem addr count {mm} v = (
  unreserve_from (addr_to_page addr) 0 count mm,
  guarded_valid tt (λ m. (unreserve_from (addr_to_page addr) 0 count m, tt)) v,
  unreserve_from-Unreserves (addr_to_page addr) 0 count v,
)
