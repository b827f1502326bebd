-- ===== src/Kheap/Split.antt =====
-- `split_block` and the merge of `coalesce_blocks` in kernel/kheap.c.
use f_rat_os.Base.{
  ==_self, Bool-cases, add64, ap, arith, false, if◌then◌else◌, inl, inr, ltb, ne→==, not, refl,
  sub64, true, ℕ, ◌&&◌, ◌+◌, ◌-◌, ◌<◌, ◌==◌, ◌^◌, ◌∙◌, ◌≡◌, ◌≢◌, ◌≤◌,
}
use f_rat_os.Kheap.{
  BlockHeader, Heap, block_magic, block_to_ptr, header_size, heap_min_block, is_used, merge_next,
  split_block, validate_block,
}

-- A block that is large enough to be split.
abbrev pub CanSplit : (block size : ℕ) → Heap → Type 0
CanSplit block size h = size + header_size + heap_min_block ≤ (h.header block).size

-- The header that `split_block` leaves at each address.
abbrev pub after_split : (block size : ℕ) → Heap → ℕ → BlockHeader
after_split block size h a =
    let b = h.header block in
    let new = block + header_size + size in
    if a == block
    then record b { next = new; size = size }
    else if (a == b.next) && not (a == 0)
    then record (h.header a) { prev = new }
    else if a == new
    then record {
      size = b.size - size - header_size;
      flags = 0;
      next = b.next;
      prev = block;
      magic = block_magic;
    }
    else h.header a

module _ (block size : ℕ) (h : Heap) (big : CanSplit block size h)
    (fits : block + header_size + (h.header block).size < 2 ^ 64)
    (apart : (h.header block).next ≢ block)
    (off : (h.header block).next ≢ block + header_size + size) where
  -- What `split_block` computes is this map of headers.
  pub split_header : (a : ℕ) → (split_block block size h).header a ≡ after_split block size h a
  unfolding split_block
  split_header a =
      let room : ltb (h.header block).size (add64 (add64 size 36) 16) ≡ false = ground arith in
      let new : add64 (add64 block 36) size ≡ block + 36 + size = omega arith in
      let rest : sub64 (sub64 (h.header block).size size) 36 ≡ (h.header block).size - size - 36 =
        omega arith in
      let moved : (block == block + 36 + size) ≡ false = ground arith in
      let own = ne→== (h.header block).next block apart in
      let its = ne→== (h.header block).next (block + 36 + size) off in
      simp (room, new, rest) (ground (arith, own, its))

  split_here :
      (split_block block size h).header block
      ≡ record (h.header block) { next = block + header_size + size; size = size }
  split_here = split_header block ∙ ground arith

  split_new : (split_block block size h).header (block + header_size + size) ≡ record {
    size = (h.header block).size - size - header_size;
    flags = 0;
    next = (h.header block).next;
    prev = block;
    magic = block_magic;
  }
  split_new =
      let own = ne→== (h.header block).next (block + 36 + size) off in
      let moved : (block + 36 + size == block) ≡ false = ground arith in
      let other : (block + 36 + size == (h.header block).next) ≡ false = ground arith in
      split_header (block + 36 + size) ∙ simp (moved, other, ==_self (block + 36 + size)) refl

  merge_header :
      (a : ℕ)
      → (merge_next block (split_block block size h)).header a ≡ (
          if a == block
          then h.header block
          else if (a == (h.header block).next) && not (a == 0)
          then record ((split_block block size h).header a) { prev = block }
          else (split_block block size h).header a)
  unfolding merge_next
  merge_header a =
      let sum : add64 size (add64 36 ((h.header block).size - size - 36)) ≡ (h.header block).size =
        omega arith in
      let own = ne→== (h.header block).next block apart in
      simp (split_here, split_new, sum) (ground (arith, own))

-- `split_block` cuts a block with room for `size` bytes, a header and the smallest block into two,
-- where the block ends below 2 ^ 64 and its next block is neither itself nor at the cut: `size`
-- bytes stay, a free block that passes `validate_block` follows, and with the new header no byte is
-- lost. The list goes on where it went, and the next block's back link leads to the new block.
pub split_block-cuts :
    (block size : ℕ) (h : Heap)
    → CanSplit block size h
    → block + header_size + (h.header block).size < 2 ^ 64
    → (h.header block).next ≢ block
    → (h.header block).next ≢ block + header_size + size
    → (new : ℕ) × (new ≡ block_to_ptr block + size)
      × (((split_block block size h).header block).next ≡ new)
      × (((split_block block size h).header new).prev ≡ block)
      × (validate_block new (split_block block size h) ≡ true)
      × (is_used ((split_block block size h).header new) ≡ false)
      × (((split_block block size h).header new).next ≡ (h.header block).next)
      × ((h.header block).next ≢ 0
          → ((split_block block size h).header (h.header block).next).prev ≡ new)
      × (((split_block block size h).header block).size
            + (header_size + ((split_block block size h).header new).size)
          ≡ (h.header block).size)
unfolding validate_block
split_block-cuts block size h big fits apart off =
    let new = block + header_size + size in
    let here = split_here block size h big fits apart off in
    let made = split_new block size h big fits apart off in
    let own = ne→== (h.header block).next block apart in
    (
      new,
      omega arith,
      ap (λ (b : BlockHeader). b.next) here,
      ap (λ (b : BlockHeader). b.prev) made,
      simp made (ground arith),
      simp made refl,
      ap (λ (b : BlockHeader). b.next) made,
      λ more.
          ap (λ (b : BlockHeader). b.prev)
            (split_header block size h big fits apart off (h.header block).next)
          ∙ ground (arith, own),
      simp (here, made) (omega arith),
    )

restore : (b : BlockHeader) (p : ℕ) → b.prev ≡ p → record b { prev = p } ≡ b
restore b p e = rw (← e) refl

-- The merge of `coalesce_blocks` undoes `split_block`, under the same conditions and with the next
-- block's back link to the block: every header, but the one that the split made, is as before.
pub merge_next-split_block :
    (block size : ℕ) (h : Heap)
    → CanSplit block size h
    → block + header_size + (h.header block).size < 2 ^ 64
    → (h.header block).next ≢ block
    → (h.header block).next ≢ block + header_size + size
    → ((h.header block).next ≢ 0 → (h.header (h.header block).next).prev ≡ block)
    → (a : ℕ) → a ≢ block + header_size + size
    → (merge_next block (split_block block size h)).header a ≡ h.header a
merge_next-split_block block size h big fits apart off back a old =
    let next = (h.header block).next in
    merge_header block size h big fits apart off a ∙ elim (Bool-cases (a == block)) [
      | inl here ↦ (let same : a ≡ block = ground arith in rw (same, ==_self block) refl)
      | inr elsewhere ↦ elim (Bool-cases ((a == next) && not (a == 0))) [
        | inl link ↦
            let same : a ≡ next = ground arith in
            let linked : (h.header a).prev ≡ block = rw same (back (ground arith)) in
            simp (elsewhere, link, split_header block size h big fits apart off a)
              (restore (h.header a) block linked)
        | inr other ↦
            let kept : (a == block + 36 + size) ≡ false = ne→== a (block + 36 + size) old in
            simp (elsewhere, other, kept, split_header block size h big fits apart off a) refl
      ]
    ]
