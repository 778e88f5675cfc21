-- ===== src/Memory/Vma/Rebalance.antt =====
-- vma_rb_insert_fixup and vma_rb_insert keep the balance.
use mathlib.Core.Path.{subst}
use feather_os.Prelude.{
  ℕ, suc, ◌≡◌, refl, ◌⊎◌, inl, inr, Bool, true, false, Option, none, some, List, [], ◌∷◌, ltb,
  if◌then◌else◌, Bool-cases,
}
use feather_os.Memory.Vma.{
  Vma, red, black, RbTree, leaf, node, Frame, left_of, right_of, plug, is_red, set_color,
  parent_is_red, uncle, recolor, turn_up, vma_rb_insert_fixup, descend, add_at, vma_rb_insert,
}
use feather_os.Memory.Vma.Balance.{
  IsBalanced, HangsOnBlack, Fits, IsRedBlack, blacken-IsRedBlack, Meets-top, rebuild-IsRedBlack,
  turn_up-IsBalanced,
}

blacken_red :
    (h : ℕ) (u : RbTree) → is_red u ≡ true → IsBalanced h u → IsBalanced (suc h) (set_color black u)
blacken_red h leaf e b = absurd (cc e)
blacken_red h (node red l v r) e (bl, br, lo, ro) = (h, refl, lo, ro)
blacken_red h (node black l v r) e b = absurd (cc e)

is_red-blacken : (t : RbTree) → is_red (set_color black t) ≡ false
is_red-blacken leaf = refl
is_red-blacken (node c l v r) = refl

-- The parent of a red node, made black.
parent-IsBalanced :
    (h : ℕ) (t : RbTree) (f : Frame) (fs : List Frame)
    → IsBalanced h t
    → parent_is_red f ≡ true
    → Fits h (f ∷ fs)
    → IsBalanced (suc h) (set_color black (plug t f))
parent-IsBalanced h t (left_of red w s) fs b e (bs, so, hangs, rest) = (h, refl, b, so)
parent-IsBalanced h t (right_of red s w) fs b e (bs, so, hangs, rest) = (h, refl, so, b)
parent-IsBalanced h t (left_of black w s) fs b e fits = absurd (cc e)
parent-IsBalanced h t (right_of black s w) fs b e fits = absurd (cc e)

-- The grandparent of a red node with a red parent is black, and what it asks for.
grandparent :
    (h : ℕ) (f g : Frame) (fs : List Frame)
    → parent_is_red f ≡ true
    → Fits h (f ∷ g ∷ fs)
    → (parent_is_red g ≡ false) × IsBalanced h (uncle g) × Fits (suc h) fs
grandparent h (left_of red w s) (left_of black x u) fs e (bs, so, hangs, (uo, f)) = (refl, uo, f)
grandparent h (left_of red w s) (right_of black u x) fs e (bs, so, hangs, (uo, f)) = (refl, uo, f)
grandparent h (right_of red s w) (left_of black x u) fs e (bs, so, hangs, (uo, f)) = (refl, uo, f)
grandparent h (right_of red s w) (right_of black u x) fs e (bs, so, hangs, (uo, f)) = (refl, uo, f)
grandparent h (left_of red w s) (left_of red x u) fs e (bs, so, hangs, rest) = absurd (cc hangs)
grandparent h (left_of red w s) (right_of red u x) fs e (bs, so, hangs, rest) = absurd (cc hangs)
grandparent h (right_of red s w) (left_of red x u) fs e (bs, so, hangs, rest) = absurd (cc hangs)
grandparent h (right_of red s w) (right_of red u x) fs e (bs, so, hangs, rest) = absurd (cc hangs)
grandparent h (left_of black w s) g fs e fits = absurd (cc e)
grandparent h (right_of black s w) g fs e fits = absurd (cc e)

-- What holds of the loop at a red node with one more black node on each way holds at the recolored
-- grandparent.
recolor-IsRedBlack :
    (h : ℕ) (t : RbTree) (f g : Frame) (fs : List Frame)
    → IsBalanced h t
    → parent_is_red f ≡ true
    → is_red (uncle g) ≡ true
    → Fits h (f ∷ g ∷ fs)
    → ((l : RbTree) (v : Vma) (r : RbTree)
        → IsBalanced (suc h) (node red l v r)
        → IsRedBlack (vma_rb_insert_fixup (node red l v r) fs))
    → IsRedBlack (vma_rb_insert_fixup (recolor t f g) fs)
recolor-IsRedBlack h t f (left_of c x u) fs b clash red_uncle fits again =
    let (black_g, u_ok, above) = grandparent h f (left_of c x u) fs clash fits in
    again (set_color black (plug t f)) x (set_color black u) (
      is_red-blacken (plug t f),
      is_red-blacken u,
      parent-IsBalanced h t f (left_of c x u ∷ fs) b clash fits,
      blacken_red h u red_uncle u_ok,
    )
recolor-IsRedBlack h t f (right_of c u x) fs b clash red_uncle fits again =
    let (black_g, u_ok, above) = grandparent h f (right_of c u x) fs clash fits in
    again (set_color black u) x (set_color black (plug t f)) (
      is_red-blacken u,
      is_red-blacken (plug t f),
      blacken_red h u red_uncle u_ok,
      parent-IsBalanced h t f (right_of c u x ∷ fs) b clash fits,
    )

-- The loop of vma_rb_insert_fixup at a red node.
fixup-IsRedBlack :
    (h : ℕ) (l : RbTree) (v : Vma) (r : RbTree) (fs : List Frame)
    → IsBalanced h (node red l v r)
    → Fits h fs
    → IsRedBlack (vma_rb_insert_fixup (node red l v r) fs)
unfolding vma_rb_insert_fixup
fixup-IsRedBlack h l v r [] b fits = blacken-IsRedBlack h (node red l v r) b
fixup-IsRedBlack h l v r (left_of red w s ∷ []) b (bs, so, hangs, rest) = absurd hangs
fixup-IsRedBlack h l v r (right_of red s w ∷ []) b (bs, so, hangs, rest) = absurd hangs
fixup-IsRedBlack h l v r (left_of black w s ∷ []) b (so, rest) = record {
  height = suc h;
  balanced = (h, refl, b, so);
  black_root = refl;
}
fixup-IsRedBlack h l v r (right_of black s w ∷ []) b (so, rest) = record {
  height = suc h;
  balanced = (h, refl, so, b);
  black_root = refl;
}
fixup-IsRedBlack h l v r (f ∷ g ∷ fs) b fits = elim (Bool-cases (parent_is_red f)) [
  | inr no_clash ↦
      rw no_clash (rebuild-IsRedBlack h (node red l v r) (f ∷ g ∷ fs) b fits (inr no_clash))
  | inl clash ↦ elim (Bool-cases (is_red (uncle g))) [
    | inr black_uncle ↦
        let (turned, black_top) = turn_up-IsBalanced h l v r f g fs b clash black_uncle fits in
        let (black_g, u_ok, above) = grandparent h f g fs clash fits in
        rw (clash, black_uncle)
          (rebuild-IsRedBlack (suc h) (turn_up (node red l v r) f g) fs turned above
            (Meets-top (turn_up (node red l v r) f g) fs black_top))
    | inl red_uncle ↦
        let (black_g, u_ok, above) = grandparent h f g fs clash fits in
        rw (clash, red_uncle)
          (recolor-IsRedBlack h (node red l v r) f g fs b clash red_uncle fits
            (λ l' x r' b'. fixup-IsRedBlack (suc h) l' x r' fs b' above))
  ]
]

-- A red tree hangs on a black node.
abbrev Hangs : RbTree → List Frame → Type 0
Hangs t fs = (is_red t ≡ false) ⊎ HangsOnBlack fs

abbrev FitsEach : Option (List Frame) → Type 0
FitsEach none = Unit
FitsEach (some fs) = Fits 0 fs

if-FitsEach :
    (b c : Bool) (x y : Option (List Frame))
    → FitsEach x
    → FitsEach y
    → FitsEach (if b then x else if c then y else none)
if-FitsEach true c x y fx fy = fx
if-FitsEach false true x y fx fy = fy
if-FitsEach false false x y fx fy = tt

descend-Fits :
    (v : Vma) (h : ℕ) (t : RbTree) (fs : List Frame)
    → IsBalanced h t
    → Fits h fs
    → Hangs t fs
    → FitsEach (descend v t fs)
unfolding descend
descend-Fits v h leaf fs b f hangs = subst (λ k. Fits k fs) b f
descend-Fits v h (node red l w r) fs (bl, br, lo, ro) f (inl e) = absurd (cc e)
descend-Fits v h (node red l w r) fs (bl, br, lo, ro) f (inr hangs) =
    let in_left = descend-Fits v h l (left_of red w r ∷ fs) lo (br, ro, hangs, f) (inl bl) in
    let in_right = descend-Fits v h r (right_of red l w ∷ fs) ro (bl, lo, hangs, f) (inl br) in
    if-FitsEach (ltb v.start w.start) (ltb w.start v.start) (descend v l (left_of red w r ∷ fs))
      (descend v r (right_of red l w ∷ fs)) in_left in_right
descend-Fits v h (node black l w r) fs (k, e, lo, ro) f hangs =
    let f' = subst (λ n. Fits n fs) e f in
    let in_left = descend-Fits v k l (left_of black w r ∷ fs) lo (ro, f') (inr refl) in
    let in_right = descend-Fits v k r (right_of black l w ∷ fs) ro (lo, f') (inr refl) in
    if-FitsEach (ltb v.start w.start) (ltb w.start v.start) (descend v l (left_of black w r ∷ fs))
      (descend v r (right_of black l w ∷ fs)) in_left in_right

-- The tree after an insertion, where there is one.
abbrev pub IsRedBlackEach : Option RbTree → Type 0
IsRedBlackEach none = Unit
IsRedBlackEach (some t) = IsRedBlack t

add_at-IsRedBlack :
    (v : Vma) (at : Option (List Frame)) → FitsEach at → IsRedBlackEach (add_at v at)
add_at-IsRedBlack v none f = tt
add_at-IsRedBlack v (some fs) f = fixup-IsRedBlack 0 leaf v leaf fs (refl, refl, refl, refl) f

-- Inserting an area into a balanced tree with a black root answers such a tree, or that an area
-- begins at the same address.
pub vma_rb_insert-IsRedBlack :
    (v : Vma) (t : RbTree) → IsRedBlack t → IsRedBlackEach (vma_rb_insert v t)
unfolding vma_rb_insert
vma_rb_insert-IsRedBlack v t ok =
    add_at-IsRedBlack v (descend v t [])
      (descend-Fits v ok.height t [] ok.balanced tt (inl ok.black_root))
