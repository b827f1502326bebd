-- ===== src/Kheap/Overflow.antt =====
-- A size near 2 ^ 64 wraps to 0 in `kmalloc` of kernel/kheap.c.
use f_rat_os.Kheap.{
  Heap, align_eight, block_to_ptr, find_free_block, find_free_from, is_used, kmalloc, split_block,
  take_block, validate, validate_block, validate_from,
}
use f_rat_os.Base.{
  ==_self, arith, false, ltb, ne→==, refl, some, suc, true, ℕ, ◌-◌, ◌<◌, ◌==◌, ◌^◌, ◌∙◌, ◌≡◌, ◌≢◌,
  ◌≤◌,
}

module _ (size : ℕ) (h : Heap) (low : 2 ^ 64 - 7 ≤ size) (word : size < 2 ^ 64) where
  wraps : align_eight size ≡ 0
  wraps = omega arith

-- A split for 0 bytes leaves a block of size 0.
split_zero : (b : ℕ) (h : Heap) → 52 ≤ (h.header b).size → ((split_block b 0 h).header b).size ≡ 0
unfolding split_block
split_zero b h big =
    let room : ltb (h.header b).size 52 ≡ false = ground arith in rw (room, ==_self b)

first_block-split : (b n : ℕ) (h : Heap) → (split_block b n h).first_block ≡ h.first_block
unfolding split_block
first_block-split b n h = ground arith

initialized-split : (b n : ℕ) (h : Heap) → (split_block b n h).initialized ≡ h.initialized
unfolding split_block
initialized-split b n h = ground arith

-- The heap that `kmalloc` leaves.
abbrev left : (b : ℕ) → Heap → Heap
left b h = (take_block b 0 h).1

left_unsound : (b : ℕ) (h : Heap) → 52 ≤ (h.header b).size → validate_block b (left b h) ≡ false
unfolding take_block validate_block
left_unsound b h big = let empty = split_zero b h big in ground (arith, empty)

left_first : (b : ℕ) (h : Heap) → (left b h).first_block ≡ h.first_block
unfolding take_block
left_first b h = first_block-split b 0 h

left_on : (b : ℕ) (h : Heap) → (left b h).initialized ≡ h.initialized
unfolding take_block
left_on b h = initialized-split b 0 h

find_first :
    (n : ℕ) (h : Heap)
    → validate_block h.first_block h ≡ true
    → is_used (h.header h.first_block) ≡ false
    → find_free_block (suc n) 0 h ≡ some h.first_block
unfolding find_free_block find_free_from validate_block
find_first n h sound free = ground arith

kmalloc_found :
    (n size s b : ℕ) (h : Heap)
    → h.initialized ≡ true
    → (size == 0) ≡ false
    → align_eight size ≡ s
    → find_free_block n s h ≡ some b
    → (b == 0) ≡ false
    → kmalloc n size h ≡ some (take_block b s h)
unfolding kmalloc
kmalloc_found n size s b h on positive aligned found nz = simp (on, positive, aligned, found, nz)

-- A list that starts with an unsound block.
module _ (m : ℕ) (h : Heap) (some_block : (h.first_block == 0) ≡ false)
    (bad : validate_block h.first_block h ≡ false) where
  validate_unsound : h.initialized ≡ true → validate (suc m) h ≡ some false
  unfolding validate validate_from
  validate_unsound on = simp (on, some_block, bad)

  search_unsound : (k : ℕ) → find_free_block (suc m) k h ≡ some 0
  unfolding find_free_block find_free_from
  search_unsound k = simp (some_block, bad)

take_pair : (b : ℕ) (h : Heap) → some (take_block b 0 h) ≡ some (block_to_ptr b, left b h)
unfolding take_block
take_pair b h = refl

-- `kmalloc` of a size from 2 ^ 64 - 7 on, with a first block that is sound, free and has 52 bytes
-- or more, succeeds: it returns the data of that block, to which it has given size 0. The heap that
-- it leaves fails `kheap_validate`, and no search finds a block in it any more, of whatever size.
pub kmalloc-overflow :
    (n size : ℕ) (h : Heap)
    → 2 ^ 64 - 7 ≤ size
    → size < 2 ^ 64
    → h.initialized ≡ true
    → h.first_block ≢ 0
    → validate_block h.first_block h ≡ true
    → is_used (h.header h.first_block) ≡ false
    → 52 ≤ (h.header h.first_block).size
    → (h' : Heap) × (kmalloc (suc n) size h ≡ some (block_to_ptr h.first_block, h'))
      × ((m : ℕ) → validate (suc m) h' ≡ some false)
      × ((m k : ℕ) → find_free_block (suc m) k h' ≡ some 0)
kmalloc-overflow n size h low word on nz sound free big =
    let b = h.first_block in
    let some_block = ne→== b 0 nz in
    let positive : (size == 0) ≡ false = ground arith in
    let first = left_first b h in
    let still : ((left b h).first_block == 0) ≡ false = rw first some_block in
    let bad : validate_block (left b h).first_block (left b h) ≡ false =
      rw first (left_unsound b h big) in
    (
      left b h,
      kmalloc_found (suc n) size 0 b h on positive (wraps size h low word)
            (find_first n h sound free) some_block
          ∙ take_pair b h,
      λ m. validate_unsound m (left b h) still bad (left_on b h ∙ on),
      λ m k. search_unsound m (left b h) still bad k,
    )
