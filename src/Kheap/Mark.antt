-- ===== src/Kheap/Mark.antt =====
-- The flags of one block of kernel/kheap.c written, on a heap that its blocks fill.
use f_rat_os.Base.{
  ==_self, Bool-cases, List, arith, if◌then◌else◌, inl, inr, ne→==, refl, ℕ, ◌%◌, ◌++◌, ◌+◌, ◌<◌,
  ◌==◌, ◌∙◌, ◌∷◌, ◌≡◌, ◌≢◌,
}
use f_rat_os.Kheap.{BlockHeader}
use f_rat_os.Kheap.Tiles.{
  Alike, Alike-of_eq, Front-used, SameUse, Tail, Tail-parts, used-SameUse, used-append, used_blocks,
}
use f_rat_os.Task.{update}

abbrev pub mark : (ℕ → BlockHeader) → (b v : ℕ) → ℕ → BlockHeader
mark f b v = update f b (record (f b) { flags = v })

pub mark-Alike : (f : ℕ → BlockHeader) (b v : ℕ) → v < 2 → (x : ℕ) → Alike (f x) (mark f b v x)
mark-Alike f b v low x = elim (Bool-cases (x == b)) [
  | inl same ↦ record {
    same_size = ground (arith, same);
    same_next = ground (arith, same);
    same_prev = ground (arith, same);
    same_magic = ground (arith, same);
    flag_kept = λ kept. ground (arith, same);
  }
  | inr other ↦ Alike-of_eq (f x) (mark f b v x) (simp other refl)
]

mark-SameUse : (f : ℕ → BlockHeader) (b v x : ℕ) → x ≢ b → SameUse (f x) (mark f b v x)
mark-SameUse f b v x other = simp (ne→== x b other) (refl, refl)

-- Only the block itself can be another one in use.
pub mark-used :
    (f : ℕ → BlockHeader) (b v prev link a : ℕ) (xs ys : List ℕ) (e : ℕ)
    → Tail f prev link a (xs ++ (b ∷ ys)) e
    → used_blocks (mark f b v) (xs ++ (b ∷ ys))
      ≡ used_blocks f xs
        ++ (if v % 2 == 1 then (b, (f b).size) ∷ used_blocks f ys else used_blocks f ys)
mark-used f b v prev link a xs ys e t =
    let (p, l, c, front, (_, here, q, rest)) = Tail-parts f prev link a xs (b ∷ ys) e t in
    let size = q.some_size in
    let g = mark f b v in
    let before =
      Front-used f g prev link a xs p l c (λ x low. mark-SameUse f b v x (omega arith)) front in
    let after =
      used-SameUse f g c (f c).next (c + 36 + (f c).size) ys e
        (λ x low. mark-SameUse f b v x (omega arith)) rest in
    used-append g xs (b ∷ ys) ∙ rw (before, after, ==_self b) refl
