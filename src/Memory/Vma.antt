-- ===== src/Memory/Vma.antt =====
-- The virtual memory areas of FeatherOS/kernel/mm/vma.c: the red-black tree that holds them. A node is
-- a constructor, and the way from the root down to a node, which the source keeps in the `parent`
-- pointers, is a list of frames, the nearest one first.
pub mod Listing
pub mod Balance
pub mod Rebalance
pub mod Sorted
pub mod Insert
pub mod Find
pub mod Apart
pub mod Manager
pub mod Start
pub mod Mapping
pub mod Answer
pub mod Erase
pub mod Stats
mod Tests
use mathlib.Core.Path.{subst, fun_ext}
use mathlib.Core.Logic.{dite, ite}
use native.Mathlib.Nat.{
  add_comm, add_assoc, le_refl, le_trans, mod-eq_of_lt, mod-lt, mod-eq-sub-mod, mod-add-mod,
}
use native.Mathlib.Decide.{ℕ_discrete, dec_lt, dec_le}
use feather_os.Prelude.{
  ℕ, zero, suc, ◌+◌, ◌-◌, ◌*◌, ◌/◌, ◌%◌, ◌^◌, ◌≤◌, ◌<◌, min, max, ◌≡◌, refl, sym, ap, ◌∙◌, ◌≢◌, ◌↔◌,
  ◌⊎◌, inl, inr, Bool, true, false, not, ◌&&◌, ◌||◌, Option, none, some, List, [], ◌∷◌, ◌++◌, map,
  arith, ltb, leb, ◌==◌, if◌then◌else◌, ltb→lt, lt→ltb, leb→le, ==_iff, tests, Bool-cases,
  Option-cases, length, get_or, set, take, drop, replicate,
}
use feather_os.Prelude.Int.{ℤ, pos, negsuc}

-- `vma_t`; the field `next`, which nothing uses, is left out, and `name` is a pointer.
pub record Vma : Type 0 where
  pub start : ℕ
  pub end : ℕ
  pub offset : ℕ
  pub flags : ℕ
  pub id : ℕ
  pub ref_count : ℕ
  pub inode : ℕ
  pub name : ℕ

pub data Color : Type 0 where
  red black : Color

pub data RbTree : Type 0 where
  leaf : RbTree
  node : Color → RbTree → Vma → RbTree → RbTree

-- A node above the one looked at: its color, its area and its other child, the right one where the
-- node looked at is the left child.
pub data Frame : Type 0 where
  left_of : Color → Vma → RbTree → Frame
  right_of : Color → RbTree → Vma → Frame

-- The parent with the node looked at put in.
abbrev pub plug : RbTree → Frame → RbTree
plug t (left_of c v r) = node c t v r
plug t (right_of c l v) = node c l v t

-- The whole tree.
unfoldable pub rebuild : RbTree → List Frame → RbTree
rebuild t [] = t
rebuild t (f ∷ fs) = rebuild (plug t f) fs

abbrev pub is_red : RbTree → Bool
is_red (node red l v r) = true
is_red _ = false

abbrev pub set_color : Color → RbTree → RbTree
set_color c leaf = leaf
set_color c (node d l v r) = node c l v r

-- The rotations are asked for only where the child that comes up is there.
unfoldable pub vma_rb_rotate_left : RbTree → RbTree
vma_rb_rotate_left (node c a x (node d b y e)) = node d (node c a x b) y e
vma_rb_rotate_left t = t

unfoldable pub vma_rb_rotate_right : RbTree → RbTree
vma_rb_rotate_right (node c (node d a x b) y e) = node d a x (node c b y e)
vma_rb_rotate_right t = t

-- `parent->color == RB_RED`
abbrev pub parent_is_red : Frame → Bool
parent_is_red (left_of red v r) = true
parent_is_red (right_of red l v) = true
parent_is_red _ = false

abbrev pub uncle : Frame → RbTree
uncle (left_of c v r) = r
uncle (right_of c l v) = l

-- Parent and uncle become black, the grandparent red.
abbrev pub recolor : RbTree → Frame → Frame → RbTree
recolor t f (left_of c v u) = node red (set_color black (plug t f)) v (set_color black u)
recolor t f (right_of c u v) = node red (set_color black u) v (set_color black (plug t f))

-- The parent, below which the node is turned to the outer side.
abbrev pub turn_left : RbTree → Frame → RbTree
turn_left t (left_of c v r) = plug t (left_of c v r)
turn_left t (right_of c l v) = vma_rb_rotate_left (plug t (right_of c l v))

abbrev pub turn_right : RbTree → Frame → RbTree
turn_right t (right_of c l v) = plug t (right_of c l v)
turn_right t (left_of c v r) = vma_rb_rotate_right (plug t (left_of c v r))

-- The parent becomes black, the grandparent red, and the grandparent is turned.
unfoldable pub turn_up : RbTree → Frame → Frame → RbTree
unfolding vma_rb_rotate_left vma_rb_rotate_right
turn_up t f (left_of c v u) = vma_rb_rotate_right (node red (set_color black (turn_left t f)) v u)
turn_up t f (right_of c u v) = vma_rb_rotate_left (node red u v (set_color black (turn_right t f)))

-- The loop goes on two nodes further up, or ends. A red root, whose parent the source would read,
-- does not occur in a tree whose root is black.
unfoldable pub vma_rb_insert_fixup : RbTree → List Frame → RbTree
unfolding rebuild turn_up
vma_rb_insert_fixup t [] = set_color black t
vma_rb_insert_fixup t (f ∷ []) = set_color black (plug t f)
vma_rb_insert_fixup t (f ∷ g ∷ fs) =
    let above = vma_rb_insert_fixup (recolor t f g) fs in
    if not (parent_is_red f)
    then set_color black (rebuild t (f ∷ g ∷ fs))
    else if is_red (uncle g)
    then above
    else set_color black (rebuild (turn_up t f g) fs)

-- The way down to the place of a new node, and `none` where an area begins at the same address.
unfoldable pub descend : Vma → RbTree → List Frame → Option (List Frame)
descend v leaf fs = some fs
descend v (node c l w r) fs =
    let in_left = descend v l (left_of c w r ∷ fs) in
    let in_right = descend v r (right_of c l w ∷ fs) in
    if ltb v.start w.start then in_left else if ltb w.start v.start then in_right else none

abbrev pub add_at : Vma → Option (List Frame) → Option RbTree
add_at v none = none
add_at v (some fs) = some (vma_rb_insert_fixup (node red leaf v leaf) fs)

-- The tree afterwards, and `none` where the result is -1.
unfoldable pub vma_rb_insert : Vma → RbTree → Option RbTree
unfolding descend vma_rb_insert_fixup
vma_rb_insert v t = add_at v (descend v t [])

abbrev pub contains : Vma → ℕ → Bool
contains v addr = leb v.start addr && ltb addr v.end

-- The loop of vma_rb_find at a node, with what it has found.
unfoldable pub find_area_from : RbTree → ℕ → Option Vma → Option Vma
find_area_from leaf addr found = found
find_area_from (node c l v r) addr found =
    let match = find_area_from l addr (some v) in
    let in_left = find_area_from l addr found in
    let in_right = find_area_from r addr found in
    if contains v addr then match else if ltb addr v.start then in_left else in_right

unfoldable pub vma_rb_find : RbTree → ℕ → Option Vma
unfolding find_area_from
vma_rb_find root addr = find_area_from root addr none
