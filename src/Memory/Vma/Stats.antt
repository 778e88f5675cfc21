-- ===== src/Memory/Vma/Stats.antt =====
-- The statistics of the areas: count_vma_stats_recurse and vma_get_stats of FeatherOS/kernel/mm/vma.c.
use feather_os.Prelude.{ℕ, ◌+◌, ◌%◌, ◌^◌, ◌<◌, ◌≡◌, ◌∙◌, List, [], ◌∷◌, ◌++◌, arith, if◌then◌else◌}
use feather_os.Prelude.Words.{inc32, sub64}
use feather_os.Bitmap.{add64}
use feather_os.Memory.Vma.{Vma, RbTree, leaf, node}
use feather_os.Memory.Vma.Listing.{areas}
use feather_os.Memory.Vma.Manager.{VmaManager, has_flag, vma_anonymous, vma_stack, vma_heap}

pub record VmaStats : Type 0 where
  pub total_vmas : ℕ
  pub anon_vmas : ℕ
  pub file_vmas : ℕ
  pub stack_vmas : ℕ
  pub heap_vmas : ℕ
  pub total_size : ℕ

-- `if (vma->flags & f) stats->n++;`
abbrev count_if : ℕ → ℕ → ℕ → ℕ
count_if flags f n = if has_flag flags f then inc32 n else n

abbrev pub count_area : Vma → VmaStats → VmaStats
count_area v stats = record stats {
  total_size = add64 stats.total_size (sub64 v.end v.start);
  anon_vmas = count_if v.flags vma_anonymous stats.anon_vmas;
  stack_vmas = count_if v.flags vma_stack stats.stack_vmas;
  heap_vmas = count_if v.flags vma_heap stats.heap_vmas;
}

abbrev pub count_vma_stats_recurse : RbTree → VmaStats → VmaStats
count_vma_stats_recurse leaf stats = stats
count_vma_stats_recurse (node c l v r) stats =
    count_area v (count_vma_stats_recurse r (count_vma_stats_recurse l stats))

unfoldable pub vma_get_stats : VmaManager → VmaStats
vma_get_stats m = count_vma_stats_recurse m.root (record {
  total_vmas = m.count;
  anon_vmas = 0;
  file_vmas = 0;
  stack_vmas = 0;
  heap_vmas = 0;
  total_size = 0;
})

-- The sizes of the areas of a list, summed.
abbrev sizes : List Vma → ℕ
sizes [] = 0
sizes (v ∷ vs) = sub64 v.end v.start + sizes vs

sizes-append : (xs ys : List Vma) → sizes (xs ++ ys) ≡ sizes xs + sizes ys
sizes-append [] ys = omega arith
sizes-append (x ∷ xs) ys = let rest = sizes-append xs ys in omega arith

total_size-areas :
    (t : RbTree) (stats : VmaStats)
    → stats.total_size < 2 ^ 64
    → (count_vma_stats_recurse t stats).total_size ≡ (stats.total_size + sizes (areas t)) % 2 ^ 64
total_size-areas leaf stats h = omega arith
total_size-areas (node c l v r) stats h =
    let left = total_size-areas l stats h in
    let small : (count_vma_stats_recurse l stats).total_size < 2 ^ 64 = omega arith in
    let right = total_size-areas r (count_vma_stats_recurse l stats) small in
    rw (sizes-append (areas l) (v ∷ areas r)) (omega arith)

-- The total size is the sum of the sizes of the areas, modulo 2 ^ 64.
vma_get_stats-total_size :
    (m : VmaManager) → (vma_get_stats m).total_size ≡ sizes (areas m.root) % 2 ^ 64
unfolding vma_get_stats
vma_get_stats-total_size m = total_size-areas m.root _ (omega arith) ∙ omega arith
