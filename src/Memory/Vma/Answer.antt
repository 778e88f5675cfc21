-- ===== src/Memory/Vma/Answer.antt =====
-- What vma_mmap answers and what vma_find answers after it.
use mathlib.Core.Path.{subst}
use feather_os.Prelude.{
  ℕ, ◌+◌, ◌-◌, ◌%◌, ◌^◌, ◌≤◌, ◌<◌, ◌≡◌, refl, sym, ◌∙◌, true, false, some, arith, leb,
  if◌then◌else◌,
}
use feather_os.Memory.State.{page_align_up}
use feather_os.Memory.Vma.{Vma, Color, RbTree, node, contains}
use feather_os.Memory.Vma.Listing.{areas}
use feather_os.Memory.Vma.Find.{IsApart}
use feather_os.Memory.Vma.Apart.{IsFree, IsFree-room, vma_rb_insert-Inserted}
use feather_os.Memory.Vma.Manager.{
  VmaManager, user_virt_end, new_area, vma_insert, vma_find, find_region, mmap_flags, chosen_start,
  no_space, vma_mmap,
}

-- The area that vma_mmap makes.
abbrev pub mapped_area : VmaManager → ℕ → ℕ → ℕ → ℕ → ℕ → Vma
mapped_area m addr len prot flags name =
    let aligned_len = page_align_up len in
    let start = chosen_start m addr aligned_len flags in
    new_area start ((start + aligned_len) % 2 ^ 64) (mmap_flags prot flags) name m

-- Where the area chosen overlaps no other and the memory suffices, vma_mmap answers its address, and a
-- look-up finds it at its addresses and what it found before at the others.
pub vma_find-vma_mmap :
    (pages : ℕ → ℕ) (m : VmaManager) (addr len prot flags name : ℕ)
    → IsApart (areas m.root)
    → IsFree (mapped_area m addr len prot flags name) (areas m.root)
    → no_space (chosen_start m addr (page_align_up len) flags) (page_align_up len) ≡ false
    → ((vma_mmap true true pages m addr len prot flags name).answer
        ≡ chosen_start m addr (page_align_up len) flags)
      × ((a : ℕ)
          → vma_find ((vma_mmap true true pages m addr len prot flags name).manager) a ≡ (
              if contains (mapped_area m addr len prot flags name) a
              then some (mapped_area m addr len prot flags name)
              else vma_find m a))
unfolding vma_mmap vma_insert
vma_find-vma_mmap pages m addr len prot flags name apart free fits =
    let placed =
      vma_rb_insert-Inserted (mapped_area m addr len prot flags name) m.root apart free in
    rw (fits, placed.answered) (refl, placed.found)

far_enough :
    (len start : ℕ)
    → len ≤ start
    → start < user_virt_end
    → leb len ((start + 2 ^ 64 - 0) % 2 ^ 64) ≡ true
far_enough len start h h' = ground arith

space_at_zero : (len : ℕ) → len < user_virt_end → no_space 0 len ≡ false
space_at_zero len h = ground arith

contains-zero : (v : Vma) → v.start ≡ 0 → v.start < v.end → contains v 0 ≡ true
contains-zero v e h = ground arith

-- The search begins and ends at 0 where the root's area leaves that much in front of it.
find_region-zero :
    (root : RbTree) (len : ℕ) (c : Color) (l r : RbTree) (v : Vma)
    → root ≡ node c l v r
    → len ≤ v.start
    → v.start < user_virt_end
    → find_region root 0 len ≡ 0
unfolding find_region
find_region-zero root len c l r v e room below = rw (e, far_enough len v.start room below) refl

-- Without a hint, where the root's area begins below the end of user space and leaves room for the
-- area in front of it, no areas overlap and the place at 0 is free, and where memory suffices, the
-- area goes to address 0, which is also the NULL of a failure, and is found there.
vma_mmap-null :
    (pages : ℕ → ℕ) (m : VmaManager) (len prot flags name : ℕ) (c : Color) (l r : RbTree) (v : Vma)
    → m.root ≡ node c l v r
    → page_align_up len ≤ v.start
    → v.start < user_virt_end
    → IsApart (areas m.root)
    → IsFree (mapped_area m 0 len prot flags name) (areas m.root)
    → ((vma_mmap true true pages m 0 len prot flags name).answer ≡ 0)
      × (vma_find ((vma_mmap true true pages m 0 len prot flags name).manager) 0
          ≡ some (mapped_area m 0 len prot flags name))
vma_mmap-null pages m len prot flags name c l r v root room below apart free =
    let start = find_region-zero m.root (page_align_up len) c l r v root room below in
    let short : page_align_up len < user_virt_end = omega arith in
    let (answer, found) = vma_find-vma_mmap pages m 0 len prot flags name apart free (
      subst (λ k. no_space k (page_align_up len) ≡ false) (sym start)
        (space_at_zero (page_align_up len) short)) in
    let hit =
      contains-zero (mapped_area m 0 len prot flags name) start
        (IsFree-room (mapped_area m 0 len prot flags name) (areas m.root) free) in
    (answer ∙ start, found 0 ∙ rw hit refl)
