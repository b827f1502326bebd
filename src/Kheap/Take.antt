-- ===== src/Kheap/Take.antt =====
-- `kmalloc` of kernel/kheap.c on a block that was found, on a heap that its blocks fill.
use f_rat_os.Base.{
  Bool-cases, List, arith, false, inl, inr, leb, refl, sym, true, ℕ, ◌++◌, ◌+◌, ◌<◌, ◌^◌, ◌∙◌, ◌∷◌,
  ◌≡◌, ◌≤◌,
}
use f_rat_os.Kheap.{Heap, block_to_ptr, is_used, split_block, take_block}
use f_rat_os.Kheap.Tiles.{
  Alike-of_eq, Front-Alike, Front-Tail, Front-le, Front-used, IsHeap, SameUse-of_eq, Tail,
  Tail-Alike, Tail-at, Tail-le, Tail-parts, heap_word, used-append, used_blocks,
}
use f_rat_os.Kheap.Search.{fits}
use f_rat_os.Kheap.Split.{CanSplit}
use f_rat_os.Kheap.Coalesce.{split_block-Keeps}
use f_rat_os.Kheap.Free.{IsHeap-Keeps, member_sound}
use f_rat_os.Kheap.Cut.{split-Tail, split-below, split-size, split-used}
use f_rat_os.Kheap.Mark.{mark, mark-Alike, mark-used}

-- A block too small to be split stays whole.
split_small : (b n : ℕ) (h : Heap) → (h.header b).size < n + 52 → n < 2 ^ 63 → split_block b n h ≡ h
unfolding split_block
split_small b n h small word = ground arith

split_fits :
    (n : ℕ) (h : Heap) (xs : List ℕ) (b : ℕ) (ys : List ℕ)
    → IsHeap h (xs ++ (b ∷ ys))
    → 1 ≤ n
    → CanSplit b n h
    → IsHeap (split_block b n h) (xs ++ (b ∷ (b + 36 + n) ∷ ys))
      × (used_blocks (split_block b n h).header xs ≡ used_blocks h.header xs)
      × (used_blocks (split_block b n h).header ((b + 36 + n) ∷ ys) ≡ used_blocks h.header ys)
      × (((split_block b n h).header b).size ≡ n)
split_fits n h xs b ys v least big =
    let (p, l, a, front, (link, here, q, rest)) =
      Tail-parts h.header 0 h.first_block h.heap_start xs (b ∷ ys) h.heap_end v.tiles in
    let (low, _, _) = member_sound h xs b ys v in
    let word = heap_word h (xs ++ (b ∷ ys)) v in
    let t : Tail h.header p b b (b ∷ ys) h.heap_end = (refl, refl, rw here q, rw here rest) in
    let s = split_block b n h in
    let k = split_block-Keeps b n h in
    let below = split-below h p b ys h.heap_end t low word n least big in
    let kept =
      Front-Alike h.header s.header 0 h.first_block h.heap_start xs p l a
        (λ x from under. Alike-of_eq (h.header x) (s.header x) (below x (rw here under))) front in
    let tail = split-Tail h p b ys h.heap_end t low word n least big in
    let there : l ≡ b = link ∙ sym here in
    let xs_used =
      Front-used h.header s.header 0 h.first_block h.heap_start xs p l a
        (λ x under. SameUse-of_eq (h.header x) (s.header x) (below x (rw here under))) front in
    (
      IsHeap-Keeps h s (xs ++ (b ∷ ys)) (xs ++ (b ∷ (b + 36 + n) ∷ ys)) k
          (Tail-at s.header 0 h.first_block s.first_block h.heap_start s.heap_start
            (xs ++ (b ∷ (b + 36 + n) ∷ ys)) h.heap_end s.heap_end k.same_first k.same_start
            k.same_end
            (Front-Tail s.header 0 h.first_block h.heap_start xs (b ∷ (b + 36 + n) ∷ ys) p l a
              h.heap_end kept (rw (there, ← here) tail)))
          v,
      xs_used,
      split-used h p b ys h.heap_end t low word n least big,
      split-size h p b ys h.heap_end t low word n least big,
    )

-- What `split_block` of a block with room for `n` bytes leaves, split or not
record Cut (n : ℕ) (h : Heap) (xs : List ℕ) (b : ℕ) (ys zs : List ℕ) : Type 0 where
  heap : IsHeap (split_block b n h) (xs ++ (b ∷ zs))
  before : used_blocks (split_block b n h).header xs ≡ used_blocks h.header xs
  after : used_blocks (split_block b n h).header zs ≡ used_blocks h.header ys
  enough : n ≤ ((split_block b n h).header b).size

block_small :
    (h : Heap) (xs : List ℕ) (b : ℕ) (ys : List ℕ)
    → IsHeap h (xs ++ (b ∷ ys))
    → (h.header b).size < 2 ^ 62
block_small h xs b ys v =
    let (p, l, a, front, (_, here, q, rest)) =
      Tail-parts h.header 0 h.first_block h.heap_start xs (b ∷ ys) h.heap_end v.tiles in
    let behind =
      Tail-le h.header a (h.header a).next (a + 36 + (h.header a).size) ys h.heap_end rest in
    let before = Front-le h.header 0 h.first_block h.heap_start xs p l a front in
    let span = v.span in let limit = v.limit in rw here (omega arith)

split_block-Cut :
    (n : ℕ) (h : Heap) (xs : List ℕ) (b : ℕ) (ys : List ℕ)
    → IsHeap h (xs ++ (b ∷ ys))
    → 1 ≤ n
    → n ≤ (h.header b).size
    → (zs : List ℕ) × Cut n h xs b ys zs
split_block-Cut n h xs b ys v least room = elim (Bool-cases (leb (n + 52) (h.header b).size)) [
  | inl large ↦ (
    (b + 36 + n) ∷ ys,
    let (heap, before, after, size) = split_fits n h xs b ys v least (ground (arith, large)) in
        record { heap = heap; before = before; after = after; enough = rw size (omega arith) },
  )
  | inr small ↦ (
    ys,
    let same : split_block b n h ≡ h =
          split_small b n h (ground (arith, small)) (omega (arith, block_small h xs b ys v)) in
        record {
          heap = rw same v;
          before = rw same refl;
          after = rw same refl;
          enough = rw same room;
        },
  )
]

-- What `kmalloc` of `n` bytes leaves when it takes the block at `b`
pub record Taken (h h' : Heap) (bs bs' : List ℕ) (n b : ℕ) : Type 0 where
  pub heap : IsHeap h' bs'
  pub us : List (ℕ × ℕ)
  pub vs : List (ℕ × ℕ)
  pub size : ℕ
  pub before : used_blocks h.header bs ≡ us ++ vs
  pub after : used_blocks h'.header bs' ≡ us ++ ((b, size) ∷ vs)
  pub enough : n ≤ size
  pub same_initialized : h'.initialized ≡ h.initialized

pub take_block-Taken :
    (n : ℕ) (h : Heap) (xs : List ℕ) (b : ℕ) (ys : List ℕ)
    → IsHeap h (xs ++ (b ∷ ys))
    → 1 ≤ n
    → fits h n b ≡ true
    → (h' : Heap) × (bs : List ℕ) × (take_block b n h ≡ (block_to_ptr b, h'))
      × Taken h h' (xs ++ (b ∷ ys)) bs n b
unfolding take_block
take_block-Taken n h xs b ys v least good =
    let free : is_used (h.header b) ≡ false = ground (arith, good) in
    let room : n ≤ (h.header b).size = ground (arith, good) in
    let (zs, c) = split_block-Cut n h xs b ys v least room in
    let s = split_block b n h in
    let w = c.heap in
    (
      (take_block b n h).1,
      xs ++ (b ∷ zs),
      refl,
      record {
        heap = record {
          tiles =
              Tail-Alike s.header (mark s.header b 1) 0 s.first_block s.heap_start (xs ++ (b ∷ zs))
                s.heap_end (λ x low high. mark-Alike s.header b 1 (omega arith) x) w.tiles;
          start_set = w.start_set;
          start_low = w.start_low;
          span = w.span;
          limit = w.limit;
        };
        us = used_blocks h.header xs;
        vs = used_blocks h.header ys;
        size = (s.header b).size;
        before = used-append h.header xs (b ∷ ys) ∙ rw free refl;
        after =
            mark-used s.header b 1 0 s.first_block s.heap_start xs zs s.heap_end w.tiles
            ∙ rw (c.before, c.after) refl;
        enough = c.enough;
        same_initialized = (split_block-Keeps b n h).same_initialized;
      },
    )
