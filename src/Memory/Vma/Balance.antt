-- ===== src/Memory/Vma/Balance.antt =====
-- The red-black balance of the tree of areas.
use feather_os.Prelude.{ℕ, suc, ◌≡◌, refl, ◌⊎◌, inl, inr, true, false, List, [], ◌∷◌}
use feather_os.Memory.Vma.{
  Vma, red, black, RbTree, leaf, node, Frame, left_of, right_of, rebuild, is_red, set_color,
  vma_rb_rotate_left, vma_rb_rotate_right, parent_is_red, uncle, turn_up,
}

-- No red node has a red child, and every way down to a leaf passes `h` black nodes.
abbrev pub IsBalanced : ℕ → RbTree → Type 0
IsBalanced h leaf = h ≡ 0
IsBalanced h (node red l v r) =
    (is_red l ≡ false) × (is_red r ≡ false) × IsBalanced h l × IsBalanced h r
IsBalanced h (node black l v r) = (k : ℕ) × (h ≡ suc k) × IsBalanced k l × IsBalanced k r

-- The nearest node above is there and is black.
abbrev pub HangsOnBlack : List Frame → Type 0
HangsOnBlack [] = ⊥
HangsOnBlack (f ∷ fs) = parent_is_red f ≡ false

-- Frames that make a balanced tree of a tree with `h` black nodes on each way, but for the two
-- colors where they meet.
abbrev pub Fits : ℕ → List Frame → Type 0
Fits h [] = Unit
Fits h (left_of red v r ∷ fs) = (is_red r ≡ false) × IsBalanced h r × HangsOnBlack fs × Fits h fs
Fits h (right_of red l v ∷ fs) = (is_red l ≡ false) × IsBalanced h l × HangsOnBlack fs × Fits h fs
Fits h (left_of black v r ∷ fs) = IsBalanced h r × Fits (suc h) fs
Fits h (right_of black l v ∷ fs) = IsBalanced h l × Fits (suc h) fs

-- The tree is balanced and its root is black.
pub record IsRedBlack (t : RbTree) : Type 0 where
  pub height : ℕ
  pub balanced : IsBalanced height t
  pub black_root : is_red t ≡ false

pub blacken-IsRedBlack : (h : ℕ) (t : RbTree) → IsBalanced h t → IsRedBlack (set_color black t)
blacken-IsRedBlack h leaf b = record { height = h; balanced = b; black_root = refl }
blacken-IsRedBlack h (node red l v r) (bl, br, l_ok, r_ok) = record {
  height = suc h;
  balanced = (h, refl, l_ok, r_ok);
  black_root = refl;
}
blacken-IsRedBlack h (node black l v r) b = record { height = h; balanced = b; black_root = refl }

-- The tree meets its frames without two red nodes.
abbrev pub Meets : RbTree → List Frame → Type 0
Meets t [] = Unit
Meets t (f ∷ fs) = (is_red t ≡ false) ⊎ (parent_is_red f ≡ false)

pub Meets-black : (l r : RbTree) (v : Vma) (fs : List Frame) → Meets (node black l v r) fs
Meets-black l r v [] = tt
Meets-black l r v (f ∷ fs) = inl refl

pub Meets-hanging : (t : RbTree) (fs : List Frame) → HangsOnBlack fs → Meets t fs
Meets-hanging t [] h = tt
Meets-hanging t (f ∷ fs) h = inr h

pub Meets-top : (t : RbTree) (fs : List Frame) → is_red t ≡ false → Meets t fs
Meets-top t [] e = tt
Meets-top t (f ∷ fs) e = inl e

-- Below a red node.
pub below_red : (t : RbTree) → (is_red t ≡ false) ⊎ (true ≡ false) → is_red t ≡ false
below_red t (inl b) = b
below_red t (inr e) = absurd (cc e)

pub rebuild-IsRedBlack :
    (h : ℕ) (t : RbTree) (fs : List Frame)
    → IsBalanced h t
    → Fits h fs
    → Meets t fs
    → IsRedBlack (set_color black (rebuild t fs))
unfolding rebuild
rebuild-IsRedBlack h t [] b f m = blacken-IsRedBlack h t b
rebuild-IsRedBlack h t (left_of black v r ∷ fs) b (r_ok, f) m =
    rebuild-IsRedBlack (suc h) (node black t v r) fs (h, refl, b, r_ok) f (Meets-black t r v fs)
rebuild-IsRedBlack h t (right_of black l v ∷ fs) b (l_ok, f) m =
    rebuild-IsRedBlack (suc h) (node black l v t) fs (h, refl, l_ok, b) f (Meets-black l t v fs)
rebuild-IsRedBlack h t (left_of red v r ∷ fs) b (br, r_ok, hangs, f) m =
    rebuild-IsRedBlack h (node red t v r) fs (below_red t m, br, b, r_ok) f
      (Meets-hanging (node red t v r) fs hangs)
rebuild-IsRedBlack h t (right_of red l v ∷ fs) b (bl, l_ok, hangs, f) m =
    rebuild-IsRedBlack h (node red l v t) fs (bl, below_red t m, l_ok, b) f
      (Meets-hanging (node red l v t) fs hangs)

-- Where a black node is at the place of the grandparent, the frames above it meet it.
module _ (h : ℕ) (l : RbTree) (v : Vma) (r : RbTree) where
  -- The new red node below a red parent that hangs on a black grandparent with a black uncle.
  pub turn_up-IsBalanced :
      (f g : Frame) (fs : List Frame)
      → IsBalanced h (node red l v r)
      → parent_is_red f ≡ true
      → is_red (uncle g) ≡ false
      → Fits h (f ∷ g ∷ fs)
      → IsBalanced (suc h) (turn_up (node red l v r) f g)
        × (is_red (turn_up (node red l v r) f g) ≡ false)
  unfolding turn_up vma_rb_rotate_left vma_rb_rotate_right
  turn_up-IsBalanced (left_of red w s) (left_of black x u) fs (bl, br, lo, ro) e black_uncle
        (bs, so, hangs, (uo, f)) =
      ((h, refl, (bl, br, lo, ro), (bs, black_uncle, so, uo)), refl)
  turn_up-IsBalanced (left_of red w s) (right_of black u x) fs (bl, br, lo, ro) e black_uncle
        (bs, so, hangs, (uo, f)) =
      ((h, refl, (black_uncle, bl, uo, lo), (br, bs, ro, so)), refl)
  turn_up-IsBalanced (right_of red s w) (left_of black x u) fs (bl, br, lo, ro) e black_uncle
        (bs, so, hangs, (uo, f)) =
      ((h, refl, (bs, bl, so, lo), (br, black_uncle, ro, uo)), refl)
  turn_up-IsBalanced (right_of red s w) (right_of black u x) fs (bl, br, lo, ro) e black_uncle
        (bs, so, hangs, (uo, f)) =
      ((h, refl, (black_uncle, bs, uo, so), (bl, br, lo, ro)), refl)
  turn_up-IsBalanced (left_of red w s) (left_of red x u) fs b e black_uncle (bs, so, hangs, rest) =
      absurd (cc hangs)
  turn_up-IsBalanced (left_of red w s) (right_of red u x) fs b e black_uncle (bs, so, hangs, rest) =
      absurd (cc hangs)
  turn_up-IsBalanced (right_of red s w) (left_of red x u) fs b e black_uncle (bs, so, hangs, rest) =
      absurd (cc hangs)
  turn_up-IsBalanced (right_of red s w) (right_of red u x) fs b e black_uncle
        (bs, so, hangs, rest) =
      absurd (cc hangs)
  turn_up-IsBalanced (left_of black w s) g fs b e black_uncle fits = absurd (cc e)
  turn_up-IsBalanced (right_of black s w) g fs b e black_uncle fits = absurd (cc e)
