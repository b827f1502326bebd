-- ===== src/Kheap/Reuse.antt =====
-- `kmalloc` and then `kfree` of kernel/kheap.c, with fuel for every heap.
use f_rat_os.Base.{
  Bool-cases, List, [], ap, arith, false, inl, inr, length, refl, some, sym, true, ℕ, ◌*◌, ◌++◌,
  ◌+◌, ◌<◌, ◌^◌, ◌∙◌, ◌∷◌, ◌≡◌, ◌≤◌, ◌⊎◌,
}
use f_rat_os.Kheap.{BlockHeader, Heap, header_size, heap_max_size, is_used, kfree, kmalloc}
use f_rat_os.Kheap.Tiles.{Front-le, IsHeap, Tail-le, Tail-parts, used_blocks}
use f_rat_os.Kheap.Alloc.{Allocated, granted, kmalloc-Allocated, refused}
use f_rat_os.Kheap.Free.{kfree-IsHeap}
use mathlib.Core.Path.{subst}

-- No heap has more blocks than fit below its maximum.
pub length-IsHeap : (h : Heap) (bs : List ℕ) → IsHeap h bs → 37 * length bs ≤ heap_max_size
length-IsHeap h bs v =
    let span = v.span in
    let limit = v.limit in
    omega (arith, Tail-le h.header 0 h.first_block h.heap_start bs h.heap_end v.tiles)

-- Where a block in use stands in the list, and the blocks in use on both sides
record Standing (f : ℕ → BlockHeader) (bs : List ℕ) (us : List (ℕ × ℕ)) (b m : ℕ)
    (vs : List (ℕ × ℕ)) : Type 0 where
  xs : List ℕ
  ys : List ℕ
  parts : bs ≡ xs ++ (b ∷ ys)
  used : is_used (f b) ≡ true
  sized : (f b).size ≡ m
  before : used_blocks f xs ≡ us
  after : used_blocks f ys ≡ vs

module _ (f : ℕ → BlockHeader) (c : ℕ) where
  idle_blocks : (cs : List ℕ) → is_used (f c) ≡ false → used_blocks f (c ∷ cs) ≡ used_blocks f cs
  idle_blocks cs idle = rw idle refl

  busy_blocks :
      (cs : List ℕ)
      → is_used (f c) ≡ true
      → used_blocks f (c ∷ cs) ≡ (c, (f c).size) ∷ used_blocks f cs
  busy_blocks cs busy = rw busy refl

  Standing-cons :
      (cs : List ℕ) (us us' : List (ℕ × ℕ)) (b m : ℕ) (vs : List (ℕ × ℕ))
      → ((xs : List ℕ) → used_blocks f xs ≡ us → used_blocks f (c ∷ xs) ≡ us')
      → Standing f cs us b m vs
      → Standing f (c ∷ cs) us' b m vs
  Standing-cons cs us us' b m vs more p = record {
    xs = c ∷ p.xs;
    ys = p.ys;
    parts = ap (λ (l : List ℕ). c ∷ l) p.parts;
    used = p.used;
    sized = p.sized;
    before = more p.xs p.before;
    after = p.after;
  }

used-Standing :
    (f : ℕ → BlockHeader) (bs : List ℕ) (us : List (ℕ × ℕ)) (b m : ℕ) (vs : List (ℕ × ℕ))
    → used_blocks f bs ≡ us ++ ((b, m) ∷ vs)
    → Standing f bs us b m vs
used-Standing f [] [] b m vs e = absurd cc
used-Standing f [] (u ∷ us) b m vs e = absurd cc
used-Standing f (c ∷ cs) [] b m vs e = elim (Bool-cases (is_used (f c))) [
  | inr idle ↦
      Standing-cons f c cs [] [] b m vs (λ xs none_used. idle_blocks f c xs idle ∙ none_used)
        (used-Standing f cs [] b m vs (sym (idle_blocks f c cs idle) ∙ e))
  | inl busy ↦
      let shown : (c, (f c).size) ∷ used_blocks f cs ≡ (b, m) ∷ vs =
        sym (busy_blocks f c cs busy) ∙ e in
      let first : c ≡ b = cc in
      let second : (f c).size ≡ m = cc in
      record {
        xs = [];
        ys = cs;
        parts = ap (λ x. x ∷ cs) first;
        used = rw (← first) busy;
        sized = rw (← first) second;
        before = refl;
        after = cc;
      }
]
used-Standing f (c ∷ cs) (u ∷ us) b m vs e = elim (Bool-cases (is_used (f c))) [
  | inr idle ↦
      Standing-cons f c cs (u ∷ us) (u ∷ us) b m vs (λ xs kept. idle_blocks f c xs idle ∙ kept)
        (used-Standing f cs (u ∷ us) b m vs (sym (idle_blocks f c cs idle) ∙ e))
  | inl busy ↦
      let shown : (c, (f c).size) ∷ used_blocks f cs ≡ u ∷ (us ++ ((b, m) ∷ vs)) =
        sym (busy_blocks f c cs busy) ∙ e in
      let first : (c, (f c).size) ≡ u = cc in
      let rest : used_blocks f cs ≡ us ++ ((b, m) ∷ vs) = cc in
      Standing-cons f c cs us (u ∷ us) b m vs
        (λ xs kept. busy_blocks f c xs busy ∙ rw (first, kept) refl)
        (used-Standing f cs us b m vs rest)
]

-- A block in use lies below 2 ^ 63, with its data.
pub granted_room :
    (h : Heap) (bs : List ℕ) (us : List (ℕ × ℕ)) (b m : ℕ) (vs : List (ℕ × ℕ))
    → IsHeap h bs
    → used_blocks h.header bs ≡ us ++ ((b, m) ∷ vs)
    → (0 < b) × (b + header_size + m < 2 ^ 63)
granted_room h bs us b m vs v shown =
    let p = used-Standing h.header bs us b m vs shown in
    let w = subst (IsHeap h) p.parts v in
    let (q, l, a, front, (_, here, _, rest)) =
      Tail-parts h.header 0 h.first_block h.heap_start p.xs (b ∷ p.ys) h.heap_end w.tiles in
    let behind =
      Tail-le h.header a (h.header a).next (a + 36 + (h.header a).size) p.ys h.heap_end rest in
    let before = Front-le h.header 0 h.first_block h.heap_start p.xs q l a front in
    let size : (h.header a).size ≡ m = rw (← here) p.sized in
    let start = w.start_set in
    let top = w.start_low in let span = w.span in let limit = w.limit in (omega arith, omega arith)

-- `kfree` of what `kmalloc` granted
pub free_granted :
    (fuel size : ℕ) (h : Heap) (bs : List ℕ) (ptr : ℕ) (h' : Heap) (bs' : List ℕ)
    → h.initialized ≡ true
    → heap_max_size ≤ fuel
    → Allocated h bs size ptr h' bs'
    → (ptr ≡ 0)
      ⊎ ((h'' : Heap) × (bs'' : List ℕ) × (kfree fuel ptr h' ≡ some h'')
          × IsHeap h'' bs''
          × (used_blocks h''.header bs'' ≡ used_blocks h.header bs))
free_granted fuel size h bs ptr h' bs' on room (refused g cs v same_on same) = inl refl
free_granted fuel size h bs ptr h' bs' on room
      (granted b m us vs g cs v same_on before after enough) =
    let p = used-Standing h'.header bs' us b m vs after in
    let w = subst (IsHeap h') p.parts v in
    let count = length-IsHeap h' (p.xs ++ (b ∷ p.ys)) w in
    let (h'', bs'', frees, heap, _, _, used) =
      kfree-IsHeap fuel p.xs b p.ys h' w (same_on ∙ on) p.used (omega arith) in
    inr (
      h'',
      bs'',
      frees,
      heap,
      used
          ∙ ap (λ l. l ++ used_blocks h'.header p.ys) p.before
          ∙ ap (λ l. us ++ l) p.after
          ∙ sym before,
    )

-- On an initialised heap that its blocks fill, with fuel for the maximal size: `kmalloc` of at least
-- 1 and less than 2 ^ 63 bytes comes back. If its pointer is not NULL, `kfree` of that pointer comes
-- back too, the blocks fill the heap again, and the blocks in use are those before both calls, at
-- their places and with their sizes.
pub kmalloc-kfree :
    (fuel size : ℕ) (h : Heap) (bs : List ℕ)
    → IsHeap h bs
    → h.initialized ≡ true
    → 1 ≤ size
    → size < 2 ^ 63
    → heap_max_size ≤ fuel
    → (ptr : ℕ) × (h' : Heap) × (kmalloc fuel size h ≡ some (ptr, h'))
      × ((ptr ≡ 0)
          ⊎ ((h'' : Heap) × (bs'' : List ℕ) × (kfree fuel ptr h' ≡ some h'')
              × IsHeap h'' bs''
              × (used_blocks h''.header bs'' ≡ used_blocks h.header bs)))
kmalloc-kfree fuel size h bs v on least word room =
    let count = length-IsHeap h bs v in
    let (ptr, h', bs', runs, a) = kmalloc-Allocated fuel size h bs v on least word (omega arith) in
    (ptr, h', runs, free_granted fuel size h bs ptr h' bs' on room a)
