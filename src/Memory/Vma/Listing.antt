-- ===== src/Memory/Vma/Listing.antt =====
-- The areas of a tree from the lowest to the highest.
use feather_os.Prelude.{◌≡◌, refl, sym, ap, ◌∙◌, inl, inr, List, [], ◌∷◌, ◌++◌, Bool-cases}
use mathlib.Core.List.{append-nil, append_assoc}
use feather_os.Memory.Vma.{
  Vma, Color, red, black, RbTree, leaf, node, Frame, left_of, right_of, plug, rebuild, is_red,
  set_color, vma_rb_rotate_left, vma_rb_rotate_right, parent_is_red, uncle, recolor, turn_left,
  turn_right, turn_up, vma_rb_insert_fixup,
}

abbrev pub areas : RbTree → List Vma
areas leaf = []
areas (node c l v r) = areas l ++ (v ∷ areas r)

-- The areas before and behind those of the tree that the frames go down to.
abbrev pub before : List Frame → List Vma
before [] = []
before (left_of c v r ∷ fs) = before fs
before (right_of c l v ∷ fs) = before fs ++ (areas l ++ (v ∷ []))

abbrev pub behind : List Frame → List Vma
behind [] = []
behind (left_of c v r ∷ fs) = v ∷ (areas r ++ behind fs)
behind (right_of c l v ∷ fs) = behind fs

pub areas-rebuild :
    (t : RbTree) (fs : List Frame) → areas (rebuild t fs) ≡ before fs ++ (areas t ++ behind fs)
unfolding rebuild
areas-rebuild t [] = sym (append-nil (areas t))
areas-rebuild t (left_of c v r ∷ fs) = areas-rebuild (node c t v r) fs ∙ simp append_assoc
areas-rebuild t (right_of c l v ∷ fs) = areas-rebuild (node c l v t) fs ∙ simp append_assoc

pub areas-set_color : (c : Color) (t : RbTree) → areas (set_color c t) ≡ areas t
areas-set_color c leaf = refl
areas-set_color c (node d l v r) = refl

areas-rotate_left : (t : RbTree) → areas (vma_rb_rotate_left t) ≡ areas t
unfolding vma_rb_rotate_left
areas-rotate_left leaf = refl
areas-rotate_left (node c a x leaf) = refl
areas-rotate_left (node c a x (node d b y e)) = simp append_assoc

areas-rotate_right : (t : RbTree) → areas (vma_rb_rotate_right t) ≡ areas t
unfolding vma_rb_rotate_right
areas-rotate_right leaf = refl
areas-rotate_right (node c leaf y e) = refl
areas-rotate_right (node c (node d a x b) y e) = simp append_assoc

areas-turn_left : (t : RbTree) (f : Frame) → areas (turn_left t f) ≡ areas (plug t f)
areas-turn_left t (left_of c v r) = refl
areas-turn_left t (right_of c l v) = areas-rotate_left (node c l v t)

areas-turn_right : (t : RbTree) (f : Frame) → areas (turn_right t f) ≡ areas (plug t f)
areas-turn_right t (left_of c v r) = areas-rotate_right (node c t v r)
areas-turn_right t (right_of c l v) = refl

areas-turn_up : (t : RbTree) (f g : Frame) → areas (turn_up t f g) ≡ areas (plug (plug t f) g)
unfolding turn_up
areas-turn_up t f (left_of c v u) =
    areas-rotate_right (node red (set_color black (turn_left t f)) v u)
    ∙ ap (λ l. l ++ (v ∷ areas u)) (areas-set_color black (turn_left t f) ∙ areas-turn_left t f)
areas-turn_up t f (right_of c u v) =
    areas-rotate_left (node red u v (set_color black (turn_right t f)))
    ∙ ap (λ l. areas u ++ (v ∷ l)) (areas-set_color black (turn_right t f) ∙ areas-turn_right t f)

areas-recolor : (t : RbTree) (f g : Frame) → areas (recolor t f g) ≡ areas (plug (plug t f) g)
areas-recolor t f (left_of c v u) =
    rw (areas-set_color black (plug t f), areas-set_color black u) refl
areas-recolor t f (right_of c u v) =
    rw (areas-set_color black (plug t f), areas-set_color black u) refl

-- Trees with the same areas stay so in the same place.
areas-swap :
    (t t' : RbTree) (fs : List Frame)
    → areas t ≡ areas t'
    → areas (rebuild t fs) ≡ areas (rebuild t' fs)
areas-swap t t' fs e =
    areas-rebuild t fs ∙ ap (λ l. before fs ++ (l ++ behind fs)) e ∙ sym (areas-rebuild t' fs)

-- The loop of vma_rb_insert_fixup moves no area.
pub areas-fixup :
    (t : RbTree) (fs : List Frame) → areas (vma_rb_insert_fixup t fs) ≡ areas (rebuild t fs)
unfolding vma_rb_insert_fixup rebuild
areas-fixup t [] = areas-set_color black t
areas-fixup t (f ∷ []) = areas-set_color black (plug t f)
areas-fixup t (f ∷ g ∷ fs) = elim (Bool-cases (parent_is_red f)) [
  | inr no_clash ↦ rw no_clash (areas-set_color black (rebuild (plug (plug t f) g) fs))
  | inl clash ↦ elim (Bool-cases (is_red (uncle g))) [
    | inl red_uncle ↦
        rw (clash, red_uncle)
          (areas-fixup (recolor t f g) fs
            ∙ areas-swap (recolor t f g) (plug (plug t f) g) fs (areas-recolor t f g))
    | inr other ↦
        rw (clash, other)
          (areas-set_color black (rebuild (turn_up t f g) fs)
            ∙ areas-swap (turn_up t f g) (plug (plug t f) g) fs (areas-turn_up t f g))
  ]
]
