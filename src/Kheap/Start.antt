-- ===== src/Kheap/Start.antt =====
-- `kheap_init` of kernel/kheap.c: the first heap.
use f_rat_os.Base.{
  Bool, Bool-cases, List, Option, [], ap, arith, false, if◌then◌else◌, inl, inr, length, none, refl,
  some, sub64, sym, true, ℕ, ◌+◌, ◌<◌, ◌==◌, ◌∙◌, ◌∷◌, ◌≡◌, ◌≤◌, ◌⊎◌,
}
use f_rat_os.Kheap.{
  Heap, append_block, coalesce, expand, grow, header_size, heap_initial_size, heap_start_addr, init,
  map_heap_pages,
}
use f_rat_os.Vmm.{Vmm}
use f_rat_os.Kheap.Tiles.{IsHeap, used_blocks}
use f_rat_os.Kheap.Append.{fresh}
use f_rat_os.Kheap.Expand.{grown, with_pages}

-- What `kheap_init` does after `kheap_expand`
abbrev start_after : Option Heap → Option Heap
start_after r = elim r [
  | none ↦ none
  | some h' ↦ some (if h'.heap_size == 0 then h' else record h' { initialized = true })
]

IsHeap-initialized :
    (g : Heap) (bs : List ℕ) → IsHeap g bs → IsHeap (record g { initialized = true }) bs
IsHeap-initialized g bs v = record {
  tiles = v.tiles;
  start_set = v.start_set;
  start_low = v.start_low;
  span = v.span;
  limit = v.limit;
}

-- A heap of some size with at most one block is that block.
one-block :
    (h : Heap) (bs : List ℕ)
    → IsHeap h bs
    → 1 ≤ h.heap_size
    → length bs ≤ 1
    → (bs ≡ h.heap_start ∷ []) × ((h.header h.heap_start).size + header_size ≡ h.heap_size)
one-block h [] v large few = let (_, stop) = v.tiles in let span = v.span in absurd (omega arith)
one-block h (b ∷ []) v large few =
    let (_, here, _, (_, stop)) = v.tiles in
    let span = v.span in (ap (λ (x : ℕ). x ∷ []) here, omega arith)
one-block h (b ∷ c ∷ bs) v large few = absurd (omega arith)

-- The state as `kheap_init` sets it before it expands the heap
abbrev bare : Heap → Heap
bare h = record h { heap_start = heap_start_addr; heap_end = heap_start_addr; heap_size = 0 }

bare-IsHeap : (h : Heap) → h.first_block ≡ 0 → IsHeap (bare h) []
bare-IsHeap h empty = record {
  tiles = (empty, refl);
  start_set = omega arith;
  start_low = omega arith;
  span = refl;
  limit = omega arith;
}

-- What `kheap_init` asks the page tables for: 256 pages from the start address on
abbrev pub first_pages : Heap → Bool × Vmm
first_pages h = map_heap_pages 256 0 heap_start_addr h.vmm

expand-refused :
    (fuel : ℕ) (h : Heap)
    → (first_pages h).0 ≡ false
    → expand fuel heap_initial_size (bare h) ≡ some (record (bare h) { vmm = (first_pages h).1 })
unfolding expand
expand-refused fuel h failed = simp failed refl

expand-granted :
    (fuel : ℕ) (h g g' : Heap)
    → (first_pages h).0 ≡ true
    → append_block fuel
        (fresh (sub64 heap_initial_size header_size))
        (record (bare h) { vmm = (first_pages h).1 })
      ≡ some g
    → coalesce fuel (grow heap_initial_size g) ≡ some g'
    → expand fuel heap_initial_size (bare h) ≡ some g'
unfolding expand
expand-granted fuel h g g' done appends ends = simp (done, appends) ends

-- `kheap_init` on a state whose list is empty, with fuel for two blocks: it comes back, and the
-- blocks of the heap fill it, with none in use. If `vmm_map_page` and `pmm_alloc_frame` give all 256
-- pages of its first expansion, the heap is initialised, and is one free block at the start address,
-- which has the 1 MB but for its header. Else the heap has no block, and is initialised only if it
-- was before.
pub init-IsHeap :
    (fuel : ℕ) (h : Heap)
    → h.first_block ≡ 0
    → 1 < fuel
    → (h' : Heap) × (bs : List ℕ) × (init fuel h ≡ some h')
      × IsHeap h' bs
      × (used_blocks h'.header bs ≡ [])
      × (((first_pages h).0 ≡ true)
            × (h'.initialized ≡ true)
            × (bs ≡ heap_start_addr ∷ [])
            × ((h'.header heap_start_addr).size + header_size ≡ heap_initial_size)
          ⊎ ((first_pages h).0 ≡ false)
            × (h'.initialized ≡ h.initialized)
            × (bs ≡ [])
            × (h'.heap_size ≡ 0))
unfolding init
init-IsHeap fuel h empty room =
    let paged = record (bare h) { vmm = (first_pages h).1 } in
    let v = with_pages (bare h) [] (first_pages h).1 (bare-IsHeap h empty) in
    elim (Bool-cases (first_pages h).0) [
      | inr failed ↦ (
        paged,
        [],
        ap start_after (expand-refused fuel h failed),
        v,
        refl,
        inr (failed, refl, refl, refl),
      )
      | inl done ↦
          let (g, g', bs, appends, ends, at_start, size, x) =
            grown fuel heap_initial_size paged [] v (omega arith) (omega arith) (omega arith) in
          let full : (g'.heap_size == 0) ≡ false = ground arith in
          let w = x.heap in
          let more = x.more in
          let (only, whole) = one-block g' bs w (omega arith) (omega arith) in
          (
            record g' { initialized = true },
            bs,
            ap start_after (expand-granted fuel h g g' done appends ends)
                ∙ rw (start_after, full) refl,
            IsHeap-initialized g' bs w,
            x.used_kept,
            inl (
              done,
              refl,
              only ∙ ap (λ (b : ℕ). b ∷ []) at_start,
              ap (λ (b : ℕ). (g'.header b).size + 36) (sym at_start) ∙ whole ∙ size,
            ),
          )
    ]
