-- ===== src/Memory/Pages/Trace.antt =====
-- Sequences of page operations, and what a caller may conclude from the answer 0.
use mathlib.Core.Path.{subst}
use native.Mathlib.Decide.{dec_lt}
use feather_os.Prelude.{
  ℕ, ◌+◌, ◌-◌, ◌*◌, ◌^◌, ◌≤◌, ◌<◌, ◌≡◌, refl, sym, ap, ◌∙◌, ◌≢◌, ◌↔◌, inl, inr, Bool, true, false,
  none, some, List, [], ◌∷◌, arith, Bool-cases,
}
use feather_os.Bitmap.{Bitmap, bitmap_test}
use feather_os.Bitmap.Search.{IsFreeRun}
use feather_os.Memory.State.{MemoryManager, Global, addr_to_page}
use feather_os.Memory.Pages.{
  physical_alloc_page, physical_alloc_pages, physical_free_page, physical_free_pages,
  physical_reserve, physical_unreserve,
}
use feather_os.Memory.Pages.Valid.{IsValid, IsCounted}
use feather_os.Memory.Pages.Alloc.{
  Allocates, Takes, physical_alloc_pages_lem, physical_alloc_page-eq-pages,
}
use feather_os.Memory.Pages.Free.{physical_free_pages_lem, physical_free_page-eq-pages}
use feather_os.Memory.Pages.Reserve.{physical_reserve_lem}
use feather_os.Memory.Pages.Unreserve.{Unreserves, physical_unreserve_lem}
use feather_os.Bitmap.Count.{free_count}

-- The calls of a client, with their arguments.
pub data PageOp : Type 0 where
  alloc_one : PageOp
  alloc_many : ℕ → PageOp
  free_one : ℕ → PageOp
  free_many : ℕ → ℕ → PageOp
  reserve_many : ℕ → ℕ → PageOp
  unreserve_many : ℕ → ℕ → PageOp

-- Addresses are 64-bit numbers, and no range of pages runs past the last of them.
abbrev pub IsFit : PageOp → Type 0
IsFit alloc_one = Unit
IsFit (alloc_many count) = count ≤ 2 ^ 63
IsFit (free_one addr) = addr < 2 ^ 64
IsFit (free_many addr count) = (addr < 2 ^ 64) × (count ≤ 2 ^ 63)
IsFit (reserve_many addr count) = (addr < 2 ^ 64) × (count ≤ 2 ^ 63)
IsFit (unreserve_many addr count) = (addr < 2 ^ 64) × (count ≤ 2 ^ 63)

abbrev pub AllFit : List PageOp → Type 0
AllFit [] = Unit
AllFit (op ∷ ops) = IsFit op × AllFit ops

pub step : PageOp → Global → Global
step alloc_one g = (physical_alloc_page g).0
step (alloc_many count) g = (physical_alloc_pages count g).0
step (free_one addr) g = (physical_free_page addr g).0
step (free_many addr count) g = (physical_free_pages addr count g).0
step (reserve_many addr count) g = (physical_reserve addr count g).0
step (unreserve_many addr count) g = (physical_unreserve addr count g).0

pub run : List PageOp → Global → Global
unfolding step
run [] g = g
run (op ∷ ops) g = run ops (step op g)

-- The number of free pages.
abbrev pub free_of : Global → ℕ
free_of none = 0
free_of (some mm) = free_count mm.bitmap mm.max_pages

-- By how much `free_pages` exceeds the number of free pages after a call, if by `k` before it:
-- physical_unreserve adds two for each free page that it takes, no other call adds any.
abbrev pub excess_after : ℕ → PageOp → Global → ℕ
excess_after k alloc_one g = k
excess_after k (alloc_many count) g = k
excess_after k (free_one addr) g = k
excess_after k (free_many addr count) g = k
excess_after k (reserve_many addr count) g = k
excess_after k (unreserve_many addr count) g =
    k + 2 * (free_of g - free_of (physical_unreserve addr count g).0)

unfoldable pub excess : ℕ → List PageOp → Global → ℕ
excess k [] g = k
excess k (op ∷ ops) g = excess (excess_after k op g) ops (step op g)

-- The global pointer holds a manager that satisfies both invariants, with excess `k` and the
-- given number of pages.
pub record Sound (k pages : ℕ) (g : Global) : Type 0 where
  pub manager : MemoryManager
  pub held : g ≡ some manager
  pub valid : IsValid manager
  pub counted : IsCounted k manager
  pub sized : manager.max_pages ≡ pages

Allocates-Sound :
    (k count : ℕ) {mm : MemoryManager} (r : Global × ℕ)
    → IsValid mm
    → IsCounted k mm
    → Allocates mm count r
    → Sound k mm.max_pages r.0
Allocates-Sound k count {mm} r v c (Allocates.exhausted _ e) = record {
  manager = mm;
  held = ap (λ x. x.0) e;
  valid = v;
  counted = c;
  sized = refl;
}
Allocates-Sound k count r v c (Allocates.placed page mm' _ _ _ t e) = record {
  manager = mm';
  held = ap (λ x. x.0) e;
  valid = t.valid;
  counted = t.keeps_count k c;
  sized = t.same_max;
}

Frees-Sound :
    (k addr count : ℕ) {mm : MemoryManager}
    → addr_to_page addr + count ≤ 2 ^ 64
    → IsValid mm
    → IsCounted k mm
    → Sound k mm.max_pages (physical_free_pages addr count (some mm)).0
Frees-Sound k addr count h v c =
    let (mm', e, t) = physical_free_pages_lem addr count v h in
    record {
      manager = mm';
      held = ap (λ x. x.0) e;
      valid = t.valid;
      counted = t.keeps_count k c;
      sized = t.same_max;
    }

Unreserves-Sound :
    (k : ℕ) {mm : MemoryManager} (g : Global) (mm' : MemoryManager)
    → g ≡ some mm'
    → Unreserves mm mm'
    → IsCounted k mm
    → Sound (k + 2 * (free_count mm.bitmap mm.max_pages - free_of g)) mm.max_pages g
Unreserves-Sound k {mm} g mm' e t c = rw e (record {
  manager = mm';
  held = refl;
  valid = t.valid;
  counted = subst (λ n. IsCounted n mm') (omega (arith, t.fewer)) (t.miscounts k c);
  sized = t.same_max;
})

step-Sound :
    (k : ℕ) (op : PageOp) {mm : MemoryManager}
    → IsFit op
    → IsValid mm
    → IsCounted k mm
    → Sound (excess_after k op (some mm)) mm.max_pages (step op (some mm))
unfolding step
step-Sound k alloc_one fit v c =
    rw (physical_alloc_page-eq-pages v, step)
      (Allocates-Sound k 1 _ v c (physical_alloc_pages_lem 1 v (omega (arith, v.small))))
step-Sound k (alloc_many count) fit v c =
    Allocates-Sound k count _ v c (physical_alloc_pages_lem count v (omega (arith, v.small)))
step-Sound k (free_one addr) fit v c =
    rw (physical_free_page-eq-pages addr fit v, step) (Frees-Sound k addr 1 (omega arith) v c)
step-Sound k (free_many addr count) fit v c = Frees-Sound k addr count (omega arith) v c
step-Sound k (reserve_many addr count) fit v c =
    let (mm', e, t) = physical_reserve_lem addr count v (omega arith) in
    record {
      manager = mm';
      held = ap (λ x. x.0) e;
      valid = t.valid;
      counted = t.keeps_count k c;
      sized = t.same_max;
    }
step-Sound k (unreserve_many addr count) fit v c =
    let (mm', e, t) = physical_unreserve_lem addr count v in
    Unreserves-Sound k _ mm' (ap (λ x. x.0) e) t c

-- Every sequence of the page operations, physical_unreserve among them, keeps the manager valid and
-- its number of pages. The statistic `free_pages` stays, modulo 2 ^ 64, the number of free pages and
-- the excess over it that it started with; only physical_unreserve raises the excess, by two for
-- every free page that it takes.
pub run-Sound :
    (k : ℕ) (ops : List PageOp) {mm : MemoryManager}
    → AllFit ops
    → IsValid mm
    → IsCounted k mm
    → Sound (excess k ops (some mm)) mm.max_pages (run ops (some mm))
unfolding run excess
run-Sound k [] {mm} fits v c = record {
  manager = mm;
  held = refl;
  valid = v;
  counted = c;
  sized = refl;
}
run-Sound k (op ∷ ops) {mm} fits v c =
    let s = step-Sound k op fits.0 v c in
    let k' = excess_after k op (some mm) in
    let rest = run-Sound k' ops fits.1 s.valid s.counted in
    subst (λ n. Sound (excess k' ops (step op (some mm))) n (run ops (step op (some mm)))) s.sized
      (subst (λ g. Sound (excess k' ops g) s.manager.max_pages (run ops g)) (sym s.held) rest)

abbrev pub bit_of : Global → ℕ → Bool
bit_of none j = true
bit_of (some mm) j = bitmap_test mm.bitmap j

-- Pages that an allocation handed out at an address other than 0 are given back by freeing the same
-- address and count: every bit is then as before the allocation.
pub alloc_free_restores :
    (count addr j : ℕ) (g : Global) {mm : MemoryManager}
    → IsValid mm
    → count ≤ 2 ^ 63
    → physical_alloc_pages count (some mm) ≡ (g, addr)
    → addr ≢ 0
    → bit_of (physical_free_pages addr count g).0 j ≡ bitmap_test mm.bitmap j
alloc_free_restores count addr j g {mm} v h e ne =
    restores (physical_alloc_pages_lem count v (omega (arith, v.small)))
  where
    restores :
        Allocates mm count (physical_alloc_pages count (some mm))
        → bit_of (physical_free_pages addr count g).0 j ≡ bitmap_test mm.bitmap j
    restores (Allocates.exhausted _ e') = absurd (ne (ap (λ x. x.1) (sym e ∙ e')))
    restores (Allocates.placed page mm' fits free _ t e') =
        let at : addr ≡ page * 4096 = ap (λ x. x.1) (sym e ∙ e') in
        let held : g ≡ some mm' = ap (λ x. x.0) (sym e ∙ e') in
        let (mm'', f, u) =
          physical_free_pages_lem (page * 4096) count t.valid (omega (arith, v.small)) in
        let same : addr_to_page (page * 4096) ≡ page = omega arith in
        rw (at, held, f) (ground (arith, t.bits j, u.bits j, same, t.same_max, free (j - page)))

single_run : (bm : Bitmap) (p : ℕ) → bitmap_test bm p ≡ false → IsFreeRun bm p 1
single_run bm p e j lt =
    let same : p ≡ p + j = omega arith in subst (λ x. bitmap_test bm x ≡ false) same e

free_head : (bm : Bitmap) (p : ℕ) → IsFreeRun bm p 1 → bitmap_test bm p ≡ false
free_head bm p run =
    let same : p + 0 ≡ p = omega arith in
    subst (λ x. bitmap_test bm x ≡ false) same (run 0 (omega arith))

page_zero :
    {mm : MemoryManager} (r : Global × ℕ)
    → 0 < mm.max_pages
    → bitmap_test mm.bitmap 0 ≡ false
    → Allocates mm 1 r
    → (mm' : MemoryManager) × (r ≡ (some mm', 0)) × Takes mm 0 1 mm'
page_zero {mm} r h e (Allocates.exhausted full _) = absurd (full 0 h (single_run mm.bitmap 0 e))
page_zero {mm} r h e (Allocates.placed page mm' _ _ first t eq) = elim (dec_lt 0 page) [
  | yes p ↦ absurd (first 0 p (single_run mm.bitmap 0 e))
  | no p ↦
      let z : page ≡ 0 = omega arith in
      (mm', eq ∙ ap (λ x. (some mm', x * 4096)) z, subst (λ x. Takes mm x 1 mm') z t)
]

zero_iff :
    {mm : MemoryManager} (r : Global × ℕ)
    → bitmap_test mm.bitmap 0 ≡ true
    → Allocates mm 1 r
    → (r.1 ≡ 0) ↔ ((p : ℕ) → p < mm.max_pages → bitmap_test mm.bitmap p ≡ true)
zero_iff {mm} r e (Allocates.exhausted full eq) = (
  λ _ p h. elim (Bool-cases (bitmap_test mm.bitmap p)) [
    | inl on ↦ on
    | inr off ↦ absurd (full p h (single_run mm.bitmap p off))
  ],
  λ _. ap (λ x. x.1) eq,
)
zero_iff {mm} r e (Allocates.placed page mm' fits free _ _ eq) = (
  λ z.
      let zero_page : page ≡ 0 = omega (arith, ap (λ x. x.1) eq) in
      cc
        (e, subst (λ x. bitmap_test mm.bitmap x ≡ false) zero_page (free_head mm.bitmap page free)),
  λ all. cc (all page (omega arith), free_head mm.bitmap page free),
)

-- With page 0 free, physical_alloc_page takes page 0 and answers 0, the value that stands for
-- exhaustion.
alloc_page_zero :
    {mm : MemoryManager}
    → IsValid mm
    → 0 < mm.max_pages
    → bitmap_test mm.bitmap 0 ≡ false
    → (mm' : MemoryManager) × (physical_alloc_page (some mm) ≡ (some mm', 0)) × Takes mm 0 1 mm'
alloc_page_zero {mm} v h e =
    subst (λ r. (mm' : MemoryManager) × (r ≡ (some mm', 0)) × Takes mm 0 1 mm')
      (sym (physical_alloc_page-eq-pages v))
      (page_zero _ h e (physical_alloc_pages_lem 1 v (omega (arith, v.small))))

-- With page 0 in use, physical_alloc_page answers 0 exactly where no page is free.
pub alloc_page-zero_iff :
    {mm : MemoryManager}
    → IsValid mm
    → bitmap_test mm.bitmap 0 ≡ true
    → ((physical_alloc_page (some mm)).1 ≡ 0)
      ↔ ((p : ℕ) → p < mm.max_pages → bitmap_test mm.bitmap p ≡ true)
alloc_page-zero_iff {mm} v e =
    rw (physical_alloc_page-eq-pages v)
      (zero_iff _ e (physical_alloc_pages_lem 1 v (omega (arith, v.small))))
