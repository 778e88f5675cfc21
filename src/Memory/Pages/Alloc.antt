-- ===== src/Memory/Pages/Alloc.antt =====
-- What physical_alloc_page and physical_alloc_pages hand out.
use mathlib.Core.Path.{subst}
use feather_os.Prelude.{
  ℕ, zero, suc, ◌+◌, ◌-◌, ◌*◌, ◌^◌, ◌≤◌, ◌<◌, ◌≡◌, inl, inr, refl, sym, ap, true, false, arith, ltb,
  leb, if◌then◌else◌, ◌&&◌, some, Bool-cases, leb→le,
}
use feather_os.Prelude.Int.{ℤ, pos, negsuc}
use feather_os.Bitmap.{bitmap_test, find_first_free, add64}
use feather_os.Bitmap.Laws.{test-set}
use feather_os.Bitmap.Search.{IsFreeRun, Finds, find_first_free-Finds}
use feather_os.Memory.State.{MemoryManager, Global, page_to_addr}
use feather_os.Memory.Pages.{
  claim, claim_from, settle, guarded, alloc_page, alloc_pages, physical_alloc_page,
  physical_alloc_pages,
}
use feather_os.Memory.Pages.Valid.{
  IsValid, IsCounted, claim-IsValid, claim-IsCounted, settle-IsValid, settle-IsCounted,
}

-- The `count` pages from `page` on are taken out of `mm` in `mm'`, and no other bit is touched.
pub record Takes (mm : MemoryManager) (page count : ℕ) (mm' : MemoryManager) : Type 0 where
  pub bits :
      (j : ℕ)
      → bitmap_test mm'.bitmap j
        ≡ (if leb page j && ltb j (page + count) then true else bitmap_test mm.bitmap j)
  pub same_max : mm'.max_pages ≡ mm.max_pages
  pub valid : IsValid mm'
  pub keeps_count : (k : ℕ) → IsCounted k mm → IsCounted k mm'

-- A free run below the stop bit ends before it.
run_in_range :
    (page count : ℕ) {mm : MemoryManager}
    → IsValid mm
    → page < mm.max_pages
    → IsFreeRun mm.bitmap page count
    → page + count ≤ mm.max_pages
run_in_range page count {mm} v below run = elim (Bool-cases (leb (page + count) mm.max_pages)) [
  | inl e ↦ leb→le _ _ e
  | inr e ↦ absurd (clash (ground arith))
]
  where
    clash : mm.max_pages < page + count → ⊥
    clash over =
        let at : page + (mm.max_pages - page) ≡ mm.max_pages = omega arith in
        let off : bitmap_test mm.bitmap mm.max_pages ≡ false =
          subst (λ x. bitmap_test mm.bitmap x ≡ false) at
            (run (mm.max_pages - page) (omega arith)) in
        cc (v.stopped)

-- Taking one page and then the `n` behind it takes `n + 1` pages.
Takes-cons :
    (p n : ℕ) {mm mm' : MemoryManager}
    → IsValid mm
    → p < mm.max_pages
    → bitmap_test mm.bitmap p ≡ false
    → Takes (claim p mm) (p + 1) n mm'
    → Takes mm p (suc n) mm'
unfolding claim
Takes-cons p n {mm} v h e t = record {
  bits = λ j. ground (arith, t.bits j, test-set mm.bitmap p j, v.covered);
  same_max = t.same_max;
  valid = t.valid;
  keeps_count = λ k c. t.keeps_count k (claim-IsCounted k p h e v c);
}

-- The rest of a run stays free when its first page is taken.
IsFreeRun-claim :
    (p n : ℕ) {mm : MemoryManager}
    → IsValid mm
    → p < mm.max_pages
    → IsFreeRun mm.bitmap p (suc n)
    → IsFreeRun (claim p mm).bitmap (p + 1) n
unfolding claim
IsFreeRun-claim p n {mm} v h run k lt =
    ground (arith, test-set mm.bitmap p (p + 1 + k), v.covered, run (suc k))

claim_from-Takes :
    (page i n : ℕ) {mm : MemoryManager}
    → IsValid mm
    → page + i + n ≤ mm.max_pages
    → IsFreeRun mm.bitmap (page + i) n
    → Takes mm (page + i) n (claim_from page i n mm)
unfolding claim_from claim
claim_from-Takes page i zero {mm} v h run = record {
  bits = λ j. ground arith;
  same_max = refl;
  valid = v;
  keeps_count = λ k c. c;
}
claim_from-Takes page i (suc n) {mm} v h run =
    let p = page + i in
    let here : add64 page i ≡ page + i = omega (arith, v.small) in
    let below : page + i < mm.max_pages = omega arith in
    let first : bitmap_test mm.bitmap (page + i) ≡ false =
      subst (λ x. bitmap_test mm.bitmap x ≡ false) (omega arith) (run 0 (omega arith)) in
    let shift : page + i + 1 ≡ page + (i + 1) = omega arith in
    let rest : IsFreeRun (claim p mm).bitmap (page + (i + 1)) n =
      subst (λ x. IsFreeRun (claim p mm).bitmap x n) shift (IsFreeRun-claim p n v below run) in
    rw here (
      Takes-cons p n v below first (
        subst (λ x. Takes (claim p mm) x n (claim_from page (i + 1) n (claim p mm))) (sym shift)
          (claim_from-Takes page (i + 1) n (claim-IsValid p below v) (omega arith) rest)))

settle-Takes : (c p n : ℕ) {mm mm' : MemoryManager} → Takes mm p n mm' → Takes mm p n (settle c mm')
unfolding settle
settle-Takes c p n t = record {
  bits = t.bits;
  same_max = t.same_max;
  valid = settle-IsValid c t.valid;
  keeps_count = λ k h. settle-IsCounted k c (t.keeps_count k h);
}

-- What an allocation of `count` pages answers: 0 and no change where no run of `count` pages is
-- free, else the address of the first such run, whose pages are taken.
pub data Allocates (mm : MemoryManager) (count : ℕ) (r : Global × ℕ) : Type 0 where
  exhausted :
      ((p : ℕ) → p < mm.max_pages → ¬ IsFreeRun mm.bitmap p count)
      → r ≡ (some mm, 0)
      → Allocates mm count r
  placed :
      (page : ℕ) (mm' : MemoryManager)
      → page + count ≤ mm.max_pages
      → IsFreeRun mm.bitmap page count
      → ((p : ℕ) → p < page → ¬ IsFreeRun mm.bitmap p count)
      → Takes mm page count mm'
      → r ≡ (some mm', page * 4096)
      → Allocates mm count r

pub guarded_valid :
    {A : Type 0} (d : A) (body : MemoryManager → MemoryManager × A) {mm : MemoryManager}
    → IsValid mm
    → guarded d body (some mm) ≡ (some (body mm).0, (body mm).1)
guarded_valid d body v = ground arith

alloc_pages-Allocates :
    (count : ℕ) {mm : MemoryManager} (r : ℤ)
    → IsValid mm
    → find_first_free mm.bitmap mm.max_pages count ≡ r
    → Finds mm.bitmap count 0 mm.max_pages r
    → Allocates mm count (some (alloc_pages count mm).0, (alloc_pages count mm).1)
unfolding alloc_pages
alloc_pages-Allocates count (negsuc k) v e f =
    Allocates.exhausted (λ p h. f.1 p (omega arith) h) (rw (e, alloc_pages))
alloc_pages-Allocates count {mm} (pos page) v e f =
    let fits = run_in_range page count v f.1 f.2 in
    let addr : page_to_addr page ≡ page * 4096 = omega (arith, v.small, f.1) in
    let same : page + 0 ≡ page = omega arith in
    let took : Takes mm page count (claim_from page 0 count mm) =
      subst (λ x. Takes mm x count (claim_from page 0 count mm)) same
        (claim_from-Takes page 0 count v (omega arith)
          (subst (λ x. IsFreeRun mm.bitmap x count) (sym same) f.2)) in
    Allocates.placed page (settle count (claim_from page 0 count mm)) fits f.2
      (λ p h. f.3 p (omega arith) h) (settle-Takes count page count took)
      (rw (e, alloc_pages) (λ i. (some (settle count (claim_from page 0 count mm)), addr i)))

-- On a valid manager, physical_alloc_pages answers the address of the first run of `count` free
-- pages, which lies below `max_pages`, and takes exactly those pages; where there is no such run it
-- answers 0 and changes nothing. The invariants hold afterwards.
pub physical_alloc_pages_lem :
    (count : ℕ) {mm : MemoryManager}
    → IsValid mm
    → mm.max_pages + count ≤ 2 ^ 64
    → Allocates mm count (physical_alloc_pages count (some mm))
unfolding physical_alloc_pages
physical_alloc_pages_lem count {mm} v h = rw (guarded_valid 0 (alloc_pages count) v) (
    alloc_pages-Allocates count (find_first_free mm.bitmap mm.max_pages count) v refl
      (find_first_free-Finds mm.bitmap mm.max_pages count v.small h))

alloc_page-eq-alloc_pages :
    {mm : MemoryManager} (r : ℤ)
    → find_first_free mm.bitmap mm.max_pages 1 ≡ r
    → Finds mm.bitmap 1 0 mm.max_pages r
    → IsValid mm
    → alloc_page mm ≡ alloc_pages 1 mm
unfolding alloc_page alloc_pages claim claim_from
alloc_page-eq-alloc_pages (negsuc k) e f v = rw (e, alloc_page, alloc_pages)
alloc_page-eq-alloc_pages {mm} (pos page) e f v =
    let same : page ≡ add64 page 0 = omega (arith, v.small, f.1) in
    rw (e, alloc_page, alloc_pages) (λ i. (settle 1 (claim (same i) mm), page_to_addr page))

-- On a valid manager, physical_alloc_page does what physical_alloc_pages does for one page.
pub physical_alloc_page-eq-pages :
    {mm : MemoryManager}
    → IsValid mm
    → physical_alloc_page (some mm) ≡ physical_alloc_pages 1 (some mm)
unfolding physical_alloc_page physical_alloc_pages
physical_alloc_page-eq-pages {mm} v =
    rw (guarded_valid 0 alloc_page v, guarded_valid 0 (alloc_pages 1) v)
      (ap (λ r. (some r.0, r.1))
        (alloc_page-eq-alloc_pages _ refl
          (find_first_free-Finds mm.bitmap mm.max_pages 1 v.small (omega (arith, v.small))) v))
