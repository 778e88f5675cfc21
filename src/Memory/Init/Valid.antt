-- ===== src/Memory/Init/Valid.antt =====
-- The manager that memory_manager_init installs satisfies the invariant of the page operations.
use native.Mathlib.Nat.{le_refl}
use feather_os.Prelude.{
  ℕ, zero, suc, ◌+◌, ◌*◌, ◌/◌, ◌%◌, ◌^◌, ◌≤◌, ◌<◌, ◌≡◌, refl, ◌∙◌, ◌≢◌, inl, inr, true, false, ◌&&◌,
  some, List, [], ◌∷◌, arith, ltb, leb, ◌==◌, ltb→lt, Bool-cases, length, take, replicate,
}
use feather_os.Bitmap.{Bitmap, bitmap_test, bitmap_clr}
use feather_os.Bitmap.Laws.{test-clr, length-bitmap_clr, test_ones}
use feather_os.Memory.State.{MemoryManager, bytes_to_pages}
use feather_os.Memory.Init.{
  E820Entry, mark_pages, mark_entries, manager_of, memory_manager_init, e820_type_free, total_free,
  memory_detect_e820, e820_max_entries,
}
use feather_os.Memory.Pages.Valid.{IsValid}
use feather_os.Prelude.Arrays.{length-replicate}

module _ (max_pages lo hi : ℕ) where
  -- The loops clear pages below `max_pages` outside the bitmap's own, and nothing else.
  record Marks (bm bm' : Bitmap) : Type 0 where
    same_length : length bm' ≡ length bm
    above : (j : ℕ) → max_pages ≤ j → bitmap_test bm' j ≡ bitmap_test bm j
    own : (j : ℕ) → lo ≤ j → j < hi → bitmap_test bm' j ≡ bitmap_test bm j

  Marks-trans : {a b c : Bitmap} → Marks a b → Marks b c → Marks a c
  Marks-trans m n = record {
    same_length = n.same_length ∙ m.same_length;
    above = λ j h. n.above j h ∙ m.above j h;
    own = λ j h k. n.own j h k ∙ m.own j h k;
  }

  Marks-refl : (a : Bitmap) → Marks a a
  Marks-refl a = record { same_length = refl; above = λ j h. refl; own = λ j h k. refl }

  Marks-clr :
      (bm : Bitmap) (p : ℕ)
      → max_pages ≤ 32 * length bm
      → p < max_pages
      → (leb lo p && ltb p hi) ≡ false
      → Marks bm (bitmap_clr bm p)
  Marks-clr bm p covered below out = record {
    same_length = length-bitmap_clr bm p;
    above = λ j h. ground (arith, test-clr bm p j);
    own = λ j h k. ground (arith, test-clr bm p j);
  }

  mark_pages-Marks :
      (start p n : ℕ) (bm : Bitmap)
      → max_pages ≤ 32 * length bm
      → Marks bm (mark_pages max_pages lo hi start p n bm)
  unfolding mark_pages
  mark_pages-Marks start p zero bm covered = Marks-refl bm
  mark_pages-Marks start p (suc n) bm covered =
      elim (Bool-cases (ltb ((start + p) % 2 ^ 64) max_pages)) [
        | inr e ↦ rw (e, mark_pages) (Marks-refl bm)
        | inl e ↦
            elim (Bool-cases (leb lo ((start + p) % 2 ^ 64) && ltb ((start + p) % 2 ^ 64) hi)) [
              | inl own ↦ rw (e, own, mark_pages) (mark_pages-Marks start (p + 1) n bm covered)
              | inr other ↦
                  let m = Marks-clr bm ((start + p) % 2 ^ 64) covered (ltb→lt _ _ e) other in
                  rw (e, other, mark_pages)
                    (Marks-trans m (
                      mark_pages-Marks start (p + 1) n (bitmap_clr bm ((start + p) % 2 ^ 64))
                        (omega (arith, m.same_length))))
            ]
      ]

  mark_entries-Marks :
      (es : List E820Entry) (bm : Bitmap)
      → max_pages ≤ 32 * length bm
      → Marks bm (mark_entries max_pages lo hi es bm)
  unfolding mark_entries
  mark_entries-Marks [] bm covered = Marks-refl bm
  mark_entries-Marks (e ∷ es) bm covered = elim (Bool-cases (e.type == e820_type_free)) [
    | inl free ↦
        let m = mark_pages-Marks (bytes_to_pages e.base) 0 (bytes_to_pages e.length) bm covered in
        rw (free, mark_entries)
          (Marks-trans m (mark_entries-Marks es _ (omega (arith, m.same_length))))
    | inr kept ↦ rw (kept, mark_entries) (mark_entries-Marks es bm covered)
  ]

-- The pages that the map is found to have.
abbrev pub pages_of : List E820Entry → ℕ → ℕ
pages_of entries count = bytes_to_pages (total_free 0 (take count entries))

-- The words of the bitmap of `m` pages, and the bitmap that the map leaves.
abbrev words_of : ℕ → ℕ
words_of m = bytes_to_pages ((m + 7) % 2 ^ 64 / 8) * 4096 % 2 ^ 64 / 4

words_of-covers :
    (m : ℕ) → m ≤ 2 ^ 31 → (m ≤ 32 * words_of m) × (m % 32768 ≢ 0 → m < 32 * words_of m)
words_of-covers m h = omega arith

manager_of-Marks :
    (entries : List E820Entry) (count : ℕ)
    → pages_of entries count ≤ 2 ^ 31
    → Marks
        (pages_of entries count)
        512
        (512 + (manager_of entries count).bitmap_pages)
        (replicate (words_of (pages_of entries count)) 0xFFFF_FFFF)
        (manager_of entries count).bitmap
unfolding manager_of
manager_of-Marks entries count h =
    mark_entries-Marks (pages_of entries count) 512 _ (take count entries) _ (
      omega (
        arith,
        words_of-covers (pages_of entries count) h,
        length-replicate {A = ℕ} (words_of (pages_of entries count)) 0xFFFF_FFFF,
      ))

-- Built from any map whose number of pages is no multiple of 32768 (of 128 MB), the manager is
-- valid: the rounding of the bitmap up to whole pages leaves a bit that stays set.
pub manager_of-IsValid :
    (entries : List E820Entry) (count : ℕ)
    → pages_of entries count ≤ 2 ^ 31
    → pages_of entries count % 32768 ≢ 0
    → IsValid (manager_of entries count)
unfolding manager_of
manager_of-IsValid entries count h odd =
    let m = pages_of entries count in
    let marks = manager_of-Marks entries count h in
    let covers = (words_of-covers m h).1 odd in
    record {
      tagged = refl;
      small = h;
      covered = omega (arith, marks.same_length, length-replicate {A = ℕ} (words_of m) 0xFFFF_FFFF);
      stopped = marks.above m (le_refl m) ∙ test_ones (words_of m) m covers;
    }

-- The pages that hold the bitmap itself, from 2 MB on, are in use from the start.
manager_of-own_pages :
    (entries : List E820Entry) (count j : ℕ)
    → pages_of entries count ≤ 2 ^ 31
    → j < (manager_of entries count).bitmap_pages
    → 512 + j < pages_of entries count
    → bitmap_test (manager_of entries count).bitmap (512 + j) ≡ true
manager_of-own_pages entries count j h own below =
    let m = pages_of entries count in
    (manager_of-Marks entries count h).own (512 + j) (omega arith) (omega arith)
    ∙ test_ones (words_of m) (512 + j) (omega (arith, (words_of-covers m h).0))

-- memory_manager_init succeeds, and the manager it installs is valid.
pub memory_manager_init_lem :
    (mm : MemoryManager) × (memory_manager_init ≡ (some mm, 0))
    × IsValid mm
    × (mm.max_pages ≡ 130975)
    × (mm.bitmap_pages ≡ 4)
    × (mm.bitmap_phys_addr ≡ 0x200000)
unfolding memory_manager_init manager_of
memory_manager_init_lem =
    let (entries, count) = memory_detect_e820 e820_max_entries in
    (
      manager_of entries count,
      refl,
      manager_of-IsValid entries count (omega arith) (omega arith),
      refl,
      refl,
      refl,
    )
