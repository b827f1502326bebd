-- ===== src/Kheap/Alloc.antt =====
-- `kmalloc` of kernel/kheap.c on a heap that its blocks fill.
use f_rat_os.Base.{
  List, Option, [], add64, ap, arith, false, if◌then◌else◌, inl, inr, length, none, refl, some, sym,
  true, ℕ, ◌++◌, ◌+◌, ◌<◌, ◌==◌, ◌^◌, ◌∙◌, ◌∷◌, ◌≡◌, ◌≤◌, ◌⊎◌,
}
use f_rat_os.Kheap.{
  Heap, align_eight, block_to_ptr, expand, expand_and_take, find_free_block, header_size, kmalloc,
  take_block,
}
use f_rat_os.Kheap.Tiles.{IsHeap, Tail, used_blocks}
use f_rat_os.Kheap.Search.{Blocks, find_free_block-FirstFit}
use f_rat_os.Kheap.Coalesce.{IsBlock-valid}
use f_rat_os.Kheap.Free.{member_sound}
use f_rat_os.Kheap.Expand.{expand-Expanded}
use f_rat_os.Vmm.{align_up}
use f_rat_os.Kheap.Take.{Taken, take_block-Taken}
use mathlib.Core.Path.{subst}

Tail-Blocks :
    (h : Heap) (prev link a : ℕ) (bs : List ℕ) (e : ℕ)
    → 0 < a
    → Tail h.header prev link a bs e
    → Blocks h link bs
Tail-Blocks h prev link a [] e low (l, stop) = l
Tail-Blocks h prev link a (b ∷ bs) e low (l, here, q, rest) =
    let more = q.some_size in
    (
      l ∙ sym here,
      IsBlock-valid b prev h (omega arith) (rw here q),
      rw here
          (Tail-Blocks h a (h.header a).next (a + 36 + (h.header a).size) bs e (omega arith) rest),
    )

-- A heap after `kmalloc` of `size` bytes, with the pointer that it returned
pub data Allocated (h : Heap) (bs : List ℕ) (size : ℕ)
    : (ptr : ℕ) → (h' : Heap) → List ℕ → Type 0 where
  refused :
      (h' : Heap) (bs' : List ℕ)
      → IsHeap h' bs'
      → h'.initialized ≡ h.initialized
      → used_blocks h'.header bs' ≡ used_blocks h.header bs
      → Allocated h bs size 0 h' bs'
  granted :
      (b m : ℕ) (us vs : List (ℕ × ℕ)) (h' : Heap) (bs' : List ℕ)
      → IsHeap h' bs'
      → h'.initialized ≡ h.initialized
      → used_blocks h.header bs ≡ us ++ vs
      → used_blocks h'.header bs' ≡ us ++ ((b, m) ∷ vs)
      → size ≤ m
      → Allocated h bs size (block_to_ptr b) h' bs'

-- The search, and the block that it finds taken
searched :
    (fuel n : ℕ) (h : Heap) (bs : List ℕ)
    → IsHeap h bs
    → 1 ≤ n
    → length bs < fuel
    → (find_free_block fuel n h ≡ some 0)
      ⊎ ((b : ℕ) × (h' : Heap) × (bs' : List ℕ) × (find_free_block fuel n h ≡ some b)
          × ((b == 0) ≡ false)
          × (take_block b n h ≡ (block_to_ptr b, h'))
          × Taken h h' bs bs' n b)
searched fuel n h bs v least room =
    let blocks = Tail-Blocks h 0 h.first_block h.heap_start bs h.heap_end v.start_set v.tiles in
    elim (find_free_block-FirstFit bs fuel n h blocks room) [
      | inl (none_left, _) ↦ inl none_left
      | inr (b, found, f) ↦
          let w = subst (IsHeap h) f.parts v in
          let (low, _, _) = member_sound h f.xs b f.ys w in
          let (h', bs', takes, t) = take_block-Taken n h f.xs b f.ys w least f.fit in
          inr (
            b,
            h',
            bs',
            found,
            ground arith,
            takes,
            subst (λ l. Taken h h' l bs' n b) (sym f.parts) t,
          )
    ]

Taken-Allocated :
    (h g h' : Heap) (bs cs bs' : List ℕ) (size n b : ℕ)
    → used_blocks g.header cs ≡ used_blocks h.header bs
    → g.initialized ≡ h.initialized
    → size ≤ n
    → Taken g h' cs bs' n b
    → Allocated h bs size (block_to_ptr b) h' bs'
Taken-Allocated h g h' bs cs bs' size n b same on least t =
    let enough = t.enough in
    granted b t.size t.us t.vs h' bs' t.heap (t.same_initialized ∙ on) (sym same ∙ t.before) t.after
      (omega arith)

-- The search after `kheap_expand`
abbrev take_after : (fuel n : ℕ) → Option Heap → Option (ℕ × Heap)
take_after fuel n r = elim r [
  | none ↦ none
  | some h' ↦ elim (find_free_block fuel n h') [
    | none ↦ none
    | some block ↦ if block == 0 then some (0, h') else some (take_block block n h')
  ]
]

module _ (fuel n : ℕ) (h g : Heap)
    (expands : expand fuel (align_up (add64 n header_size)) h ≡ some g) where
  still_none : find_free_block fuel n g ≡ some 0 → expand_and_take fuel n h ≡ some (0, g)
  unfolding expand_and_take
  still_none found = ap (take_after fuel n) expands ∙ rw (take_after, found) refl

  now_some :
      (b : ℕ) (h' : Heap)
      → find_free_block fuel n g ≡ some b
      → (b == 0) ≡ false
      → take_block b n g ≡ (block_to_ptr b, h')
      → expand_and_take fuel n h ≡ some (block_to_ptr b, h')
  unfolding expand_and_take
  now_some b h' found given takes =
      ap (take_after fuel n) expands ∙ rw (take_after, found, given, takes) refl

expand_and_take-Allocated :
    (fuel size n : ℕ) (h : Heap) (bs : List ℕ)
    → IsHeap h bs
    → 1 ≤ n
    → size ≤ n
    → n < 2 ^ 63 + 8
    → length bs + 1 < fuel
    → (ptr : ℕ) × (h' : Heap) × (bs' : List ℕ) × (expand_and_take fuel n h ≡ some (ptr, h'))
      × Allocated h bs size ptr h' bs'
expand_and_take-Allocated fuel size n h bs v least enough word room =
    let (g, cs, expands, x) =
      expand-Expanded fuel (align_up (add64 n 36)) h bs v (omega arith) (omega arith) room in
    let more = x.more in
    elim (searched fuel n g cs x.heap least (omega arith)) [
      | inl none_left ↦ (
        0,
        g,
        cs,
        still_none fuel n h g expands none_left,
        refused g cs x.heap x.same_initialized x.used_kept,
      )
      | inr (b, h', bs', found, given, takes, t) ↦ (
        block_to_ptr b,
        h',
        bs',
        now_some fuel n h g expands b h' found given takes,
        Taken-Allocated h g h' bs cs bs' size n b x.used_kept x.same_initialized enough t,
      )
    ]

-- `kmalloc` of at least 1 and less than 2 ^ 63 bytes, on an initialised heap that its blocks fill,
-- with more fuel than one unit above the number of blocks: it comes back, and the blocks fill the
-- heap that it leaves. Either the pointer is NULL, and the blocks in use are as before, with their
-- places and sizes. Or it leads to the data of a block that has room for the bytes, and the blocks
-- in use are those of before, with this one put in between.
pub kmalloc-Allocated :
    (fuel size : ℕ) (h : Heap) (bs : List ℕ)
    → IsHeap h bs
    → h.initialized ≡ true
    → 1 ≤ size
    → size < 2 ^ 63
    → length bs + 1 < fuel
    → (ptr : ℕ) × (h' : Heap) × (bs' : List ℕ) × (kmalloc fuel size h ≡ some (ptr, h'))
      × Allocated h bs size ptr h' bs'
unfolding kmalloc
kmalloc-Allocated fuel size h bs v on least word room =
    let n = align_eight size in
    let given : (size == 0) ≡ false = ground arith in
    let enough : size ≤ n = omega arith in
    elim (searched fuel n h bs v (omega arith) (omega arith)) [
      | inl none_left ↦
          let (ptr, h', bs', runs, a) =
            expand_and_take-Allocated fuel size n h bs v (omega arith) enough (omega arith) room in
          (ptr, h', bs', simp (on, given, none_left) runs, a)
      | inr (b, h', bs', found, block, takes, t) ↦ (
        block_to_ptr b,
        h',
        bs',
        simp (on, given, found, block, takes) refl,
        Taken-Allocated h h h' bs bs bs' size n b refl refl enough t,
      )
    ]
