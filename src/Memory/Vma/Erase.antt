-- ===== src/Memory/Vma/Erase.antt =====
-- vma_rb_erase of FeatherOS/kernel/mm/vma.c, at a node below its frames.
use feather_os.Prelude.{
  ◌≡◌, refl, sym, ap, ◌∙◌, Bool, true, false, Option, none, some, List, ◌∷◌, ◌++◌, if◌then◌else◌,
}
use mathlib.Core.Option
use mathlib.Core.List.{append-nil}
use feather_os.Memory.Vma.{Vma, Color, black, RbTree, leaf, node, Frame, rebuild, set_color}
use feather_os.Memory.Vma.Listing.{areas, before, behind, areas-rebuild, areas-set_color}

-- The lowest area of a tree that is not empty, and the tree without its node, whose right child goes
-- to its place.
abbrev pub take_min : Color → RbTree → Vma → RbTree → Vma × RbTree
take_min c leaf v r = (v, r)
take_min c (node d a x b) v r = let lower = take_min d a x b in (lower.0, node c (lower.1) v r)

-- What comes to the place of the node. `none` where the successor is the right child itself: then it
-- becomes its own right child.
abbrev pub erase_node : Color → RbTree → Vma → RbTree → Option RbTree
erase_node c leaf v r = some (set_color black r)
erase_node c (node d a x b) v leaf = some (set_color black (node d a x b))
erase_node c (node d a x b) v (node e leaf y g) = none
erase_node c (node d a x b) v (node e (node h i z j) y g) =
    let successor = take_min e (node h i z j) y g in
    some (node c (node d a x b) (successor.0) (successor.1))

-- The whole tree afterwards; `none` where what is left is no tree.
unfoldable pub vma_rb_erase : Color → RbTree → Vma → RbTree → List Frame → Option RbTree
unfolding rebuild
vma_rb_erase c l v r fs = Option.map (λ t. rebuild t fs) (erase_node c l v r)

-- Both children are there, and the right one has no left child.
abbrev pub closes_loop : RbTree → RbTree → Bool
closes_loop (node d a x b) (node e leaf y g) = true
closes_loop _ _ = false

areas-take_min :
    (c : Color) (l : RbTree) (v : Vma) (r : RbTree)
    → (take_min c l v r).0 ∷ areas ((take_min c l v r).1) ≡ areas (node c l v r)
areas-take_min c leaf v r = refl
areas-take_min c (node d a x b) v r = ap (λ l. l ++ (v ∷ areas r)) (areas-take_min d a x b)

areas-erase_node :
    (c : Color) (l : RbTree) (v : Vma) (r : RbTree)
    → Option.map areas (erase_node c l v r)
      ≡ (if closes_loop l r then none else some (areas l ++ areas r))
areas-erase_node c leaf v r = ap some (areas-set_color black r)
areas-erase_node c (node d a x b) v leaf = ap some (sym (append-nil (areas (node d a x b))))
areas-erase_node c (node d a x b) v (node e leaf y g) = refl
areas-erase_node c (node d a x b) v (node e (node h i z j) y g) =
    ap (λ l. some (areas (node d a x b) ++ l)) (areas-take_min e (node h i z j) y g)

rebuilt :
    (fs : List Frame) (x : Option RbTree)
    → Option.map areas (Option.map (λ t. rebuild t fs) x)
      ≡ Option.map (λ vs. before fs ++ (vs ++ behind fs)) (Option.map areas x)
rebuilt fs none = refl
rebuilt fs (some t) = ap some (areas-rebuild t fs)

if-map :
    (b : Bool) (f : List Vma → List Vma) (vs : List Vma)
    → Option.map f (if b then none else some vs) ≡ (if b then none else some (f vs))
if-map true f vs = refl
if-map false f vs = refl

-- Erasing a node leaves the areas of all the others in their order, except where it has both children
-- and its successor is the right one: then what is left is no tree.
pub areas-vma_rb_erase :
    (c : Color) (l : RbTree) (v : Vma) (r : RbTree) (fs : List Frame)
    → Option.map areas (vma_rb_erase c l v r fs)
      ≡ (if closes_loop l r then none else some (before fs ++ ((areas l ++ areas r) ++ behind fs)))
unfolding vma_rb_erase
areas-vma_rb_erase c l v r fs =
    rebuilt fs (erase_node c l v r)
    ∙ (ap (Option.map (λ vs. before fs ++ (vs ++ behind fs))) (areas-erase_node c l v r)
        ∙ if-map (closes_loop l r) (λ vs. before fs ++ (vs ++ behind fs)) (areas l ++ areas r))
