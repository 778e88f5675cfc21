-- ===== src/Memory/Vma/Insert.antt =====
-- Inserting into the tree of areas, against insertion into a sorted list.
use mathlib.Core.Path.{subst}
use feather_os.Prelude.{
  ◌≡◌, refl, sym, ap, ◌∙◌, inl, inr, Option, none, some, List, [], ◌∷◌, ◌++◌, arith, ltb, ltb→lt,
  Bool-cases,
}
use mathlib.Core.Option
use mathlib.Core.List.{append-nil, append_assoc}
use feather_os.Memory.Vma.{
  Vma, red, RbTree, leaf, node, Frame, left_of, right_of, rebuild, descend, add_at, vma_rb_insert,
}
use feather_os.Memory.Vma.Listing.{areas, before, behind, areas-rebuild, areas-fixup}
use feather_os.Memory.Vma.Balance.{IsRedBlack}
use feather_os.Memory.Vma.Rebalance.{IsRedBlackEach, vma_rb_insert-IsRedBlack}
use feather_os.Memory.Vma.Sorted.{
  insert_area, IsSorted, IsSorted-split, SortedEach, insert_area-SortedEach, insert_area-left,
  insert_area-right, insert_area-taken, map-two,
}

-- The areas of the tree with the new node at its place.
descend-areas :
    (v : Vma) (t : RbTree) (fs : List Frame)
    → IsSorted (areas t)
    → Option.map (λ gs. areas (rebuild (node red leaf v leaf) gs)) (descend v t fs)
      ≡ Option.map (λ vs. before fs ++ (vs ++ behind fs)) (insert_area v (areas t))
unfolding descend insert_area
descend-areas v leaf fs s = ap some (areas-rebuild (node red leaf v leaf) fs)
descend-areas v (node c l w r) fs s =
    let (below, l_sorted, above, r_sorted) = IsSorted-split w (areas l) (areas r) s in
    elim (Bool-cases (ltb v.start w.start)) [
      | inl lower ↦
          rw (lower, insert_area-left v w (areas l) (areas r) (ltb→lt v.start w.start lower))
            (descend-areas v l (left_of c w r ∷ fs) l_sorted
              ∙ map-two (λ vs. before fs ++ (vs ++ behind fs)) (λ vs. vs ++ (w ∷ areas r))
                  (λ vs. before fs ++ (vs ++ (w ∷ (areas r ++ behind fs))))
                  (λ vs. simp append_assoc) (insert_area v (areas l)))
      | inr e ↦ elim (Bool-cases (ltb w.start v.start)) [
        | inl higher ↦
            rw
              (
                e,
                higher,
                insert_area-right v w (areas l) (areas r) below (ltb→lt w.start v.start higher),
              )
              (descend-areas v r (right_of c l w ∷ fs) r_sorted
                ∙ map-two (λ vs. before fs ++ (vs ++ behind fs)) (λ vs. areas l ++ (w ∷ vs))
                    (λ vs. (before fs ++ (areas l ++ (w ∷ []))) ++ (vs ++ behind fs))
                    (λ vs. simp append_assoc) (insert_area v (areas r)))
        | inr e' ↦
            let taken : w.start ≡ v.start = ground arith in
            rw (e, e', insert_area-taken v w (areas l) (areas r) below taken) refl
      ]
    ]

add_at-areas :
    (v : Vma) (at : Option (List Frame))
    → Option.map areas (add_at v at)
      ≡ Option.map (λ gs. areas (rebuild (node red leaf v leaf) gs)) at
add_at-areas v none = refl
add_at-areas v (some fs) = ap some (areas-fixup (node red leaf v leaf) fs)

map-same : (x : Option (List Vma)) → Option.map (λ vs. [] ++ (vs ++ [])) x ≡ x
map-same none = refl
map-same (some xs) = ap some (append-nil xs)

-- Where the areas of the tree rise, those after an insertion are the ones that insertion into a
-- sorted list answers, and it fails on the same areas.
pub areas-vma_rb_insert :
    (v : Vma) (t : RbTree)
    → IsSorted (areas t)
    → Option.map areas (vma_rb_insert v t) ≡ insert_area v (areas t)
unfolding vma_rb_insert rebuild
areas-vma_rb_insert v t s =
    add_at-areas v (descend v t []) ∙ (descend-areas v t [] s ∙ map-same (insert_area v (areas t)))

-- The tree of areas is a red-black tree and a search tree.
abbrev pub IsAreaTree : RbTree → Type 0
IsAreaTree t = IsRedBlack t × IsSorted (areas t)

abbrev pub IsAreaTreeEach : Option RbTree → Type 0
IsAreaTreeEach none = Unit
IsAreaTreeEach (some t) = IsAreaTree t

both_each :
    (x : Option RbTree) → IsRedBlackEach x → SortedEach (Option.map areas x) → IsAreaTreeEach x
both_each none b s = tt
both_each (some t) b s = (b, s)

-- Inserting an area into a red-black tree with rising start addresses answers such a tree, or fails.
pub vma_rb_insert-IsAreaTree :
    (v : Vma) (t : RbTree) → IsAreaTree t → IsAreaTreeEach (vma_rb_insert v t)
vma_rb_insert-IsAreaTree v t (rb, s) =
    both_each (vma_rb_insert v t) (vma_rb_insert-IsRedBlack v t rb)
      (subst SortedEach (sym (areas-vma_rb_insert v t s)) (insert_area-SortedEach v (areas t) s))
