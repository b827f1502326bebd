-- ===== src/Kheap/Free.antt =====
-- `kheap_coalesce` and `kfree` of kernel/kheap.c on a heap that its blocks fill.
use f_rat_os.Base.{
  List, [], ap, arith, false, length, refl, some, suc, sym, true, zero, ℕ, ◌++◌, ◌+◌, ◌<◌, ◌==◌,
  ◌^◌, ◌∙◌, ◌∷◌, ◌≡◌, ◌≤◌,
}
use f_rat_os.Kheap.{
  Heap, block_to_ptr, coalesce, coalesce_from, is_used, kfree, ptr_to_block, release_block,
  validate_block,
}
use f_rat_os.Kheap.Tiles.{
  Front-le, IsHeap, Tail, Tail-Alike, Tail-at, Tail-le, Tail-parts, heap_word, used_blocks,
}
use f_rat_os.Kheap.Coalesce.{
  IsBlock-valid, Keeps, Keeps-refl, Separated, coalesce_from-Merged, stop_here,
}
use f_rat_os.Kheap.Mark.{mark-Alike, mark-used}

-- The same blocks in a heap with the same bounds
pub IsHeap-Keeps :
    (h h' : Heap) (bs bs' : List ℕ)
    → Keeps h h'
    → Tail h'.header 0 h'.first_block h'.heap_start bs' h'.heap_end
    → IsHeap h bs
    → IsHeap h' bs'
IsHeap-Keeps h h' bs bs' k t v = record {
  tiles = t;
  start_set = rw (k.same_start) v.start_set;
  start_low = rw (k.same_start) v.start_low;
  span = k.same_end ∙ v.span ∙ (rw (k.same_start, k.same_size) refl);
  limit = rw (k.same_size) v.limit;
}

-- What a call on the blocks leaves
pub record Settled (h h' : Heap) (bs bs' : List ℕ) : Type 0 where
  pub heap : IsHeap h' bs'
  pub keeps : Keeps h h'
  pub fewer : length bs' ≤ length bs
  pub separated : Separated h'.header bs'
  pub used_kept : used_blocks h'.header bs' ≡ used_blocks h.header bs

pub coalesce-IsHeap :
    (fuel : ℕ) (h : Heap) (bs : List ℕ)
    → IsHeap h bs
    → length bs < fuel
    → (h' : Heap) × (bs' : List ℕ) × (coalesce fuel h ≡ some h') × Settled h h' bs bs'
unfolding coalesce
coalesce-IsHeap zero h bs v room = absurd (omega arith)
coalesce-IsHeap (suc n) h [] v room =
    let (none_left, _) = v.tiles in
    (
      h,
      [],
      stop_here n h.first_block h none_left,
      record {
        heap = v;
        keeps = Keeps-refl h;
        fewer = omega arith;
        separated = tt;
        used_kept = refl;
      },
    )
coalesce-IsHeap (suc n) h (b ∷ ys) v room =
    let (first, here, q, rest) = v.tiles in
    let at_start : h.first_block ≡ b = first ∙ sym here in
    let t : Tail h.header 0 b b (b ∷ ys) h.heap_end = (refl, refl, rw here q, rw here rest) in
    let low : 0 < b = rw here v.start_set in
    let (h', bs', runs, m) =
      coalesce_from-Merged (suc n) h 0 b ys h.heap_end low (heap_word h (b ∷ ys) v) (omega arith)
        t in
    let k = m.keeps in
    (
      h',
      bs',
      ap (λ x. coalesce_from (suc n) x h) at_start ∙ runs,
      record {
        heap =
            IsHeap-Keeps h h' (b ∷ ys) bs' k
              (Tail-at h'.header 0 b h'.first_block b h'.heap_start bs' h.heap_end h'.heap_end
                (k.same_first ∙ at_start) (k.same_start ∙ sym here) k.same_end m.tail)
              v;
        keeps = k;
        fewer = m.fewer;
        separated = m.separated;
        used_kept = m.used_kept;
      },
    )

-- `kfree` marks the block free.
release-IsHeap : (b : ℕ) (h : Heap) (bs : List ℕ) → IsHeap h bs → IsHeap (release_block b h) bs
unfolding release_block
release-IsHeap b h bs v = record {
  tiles =
      Tail-Alike h.header (release_block b h).header 0 h.first_block h.heap_start bs h.heap_end
        (λ x low high. mark-Alike h.header b 0 (omega arith) x) v.tiles;
  start_set = v.start_set;
  start_low = v.start_low;
  span = v.span;
  limit = v.limit;
}

release-Keeps : (b : ℕ) (h : Heap) → Keeps h (release_block b h)
unfolding release_block
release-Keeps b h = record {
  same_start = refl;
  same_end = refl;
  same_first = refl;
  same_size = refl;
  same_initialized = refl;
}

-- A block of the list has a header that is sound, and its data lies below 2 ^ 64.
pub member_sound :
    (h : Heap) (xs : List ℕ) (b : ℕ) (ys : List ℕ)
    → IsHeap h (xs ++ (b ∷ ys))
    → (0 < b) × (b + 36 < 2 ^ 64) × (validate_block b h ≡ true)
member_sound h xs b ys v =
    let (p, l, a, front, (link, here, q, rest)) =
      Tail-parts h.header 0 h.first_block h.heap_start xs (b ∷ ys) h.heap_end v.tiles in
    let word = heap_word h (xs ++ (b ∷ ys)) v in
    let start = v.start_set in
    let behind =
      Tail-le h.header a (h.header a).next (a + 36 + (h.header a).size) ys h.heap_end rest in
    let before = Front-le h.header 0 h.first_block h.heap_start xs p l a front in
    let size = q.some_size in
    let low : 0 < b = omega arith in (low, omega arith, IsBlock-valid b p h low (rw here q))

-- The released block leaves the blocks in use.
release-used :
    (b : ℕ) (h : Heap) (xs ys : List ℕ)
    → IsHeap h (xs ++ (b ∷ ys))
    → used_blocks (release_block b h).header (xs ++ (b ∷ ys))
      ≡ used_blocks h.header xs ++ used_blocks h.header ys
unfolding release_block
release-used b h xs ys v =
    mark-used h.header b 0 0 h.first_block h.heap_start xs ys h.heap_end v.tiles

-- `kfree` of the data of a block in use, on an initialised heap that its blocks fill, with more fuel
-- than there are blocks: it comes back, the blocks fill the heap as before, no two neighbours are
-- free, and the blocks in use are those of before, at their places and with their sizes, without
-- the one that was freed.
pub kfree-IsHeap :
    (fuel : ℕ) (xs : List ℕ) (b : ℕ) (ys : List ℕ) (h : Heap)
    → IsHeap h (xs ++ (b ∷ ys))
    → h.initialized ≡ true
    → is_used (h.header b) ≡ true
    → length (xs ++ (b ∷ ys)) < fuel
    → (h' : Heap) × (bs : List ℕ) × (kfree fuel (block_to_ptr b) h ≡ some h')
      × IsHeap h' bs
      × Separated h'.header bs
      × (h'.heap_end ≡ h.heap_end)
      × (used_blocks h'.header bs ≡ used_blocks h.header xs ++ used_blocks h.header ys)
unfolding kfree
kfree-IsHeap fuel xs b ys h v on used room =
    let (low, high, valid) = member_sound h xs b ys v in
    let back : ptr_to_block (block_to_ptr b) ≡ b = omega arith in
    let given : (block_to_ptr b == 0) ≡ false = ground arith in
    let (h', bs, runs, s) =
      coalesce-IsHeap fuel (release_block b h) (xs ++ (b ∷ ys))
        (release-IsHeap b h (xs ++ (b ∷ ys)) v) room in
    (
      h',
      bs,
      simp (given, on, back, valid, used) runs,
      s.heap,
      s.separated,
      s.keeps.same_end ∙ (release-Keeps b h).same_end,
      s.used_kept ∙ release-used b h xs ys v,
    )
