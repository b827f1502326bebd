-- ===== src/Kheap/Expand.antt =====
-- `kheap_expand` of kernel/kheap.c on a heap that its blocks fill.
use f_rat_os.Base.{
  Bool-cases, List, [], add64, ap, arith, inl, inr, length, ltb, refl, some, sub64, suc, ℕ, ◌++◌,
  ◌+◌, ◌/◌, ◌<◌, ◌^◌, ◌∙◌, ◌∷◌, ◌≡◌, ◌≤◌,
}
use f_rat_os.Kheap.{
  Heap, append_block, coalesce, expand, grow, header_size, heap_max_size, map_heap_pages,
}
use f_rat_os.Vmm.{Vmm, align_up}
use f_rat_os.Kheap.Tiles.{IsHeap, Tail-at, used_blocks}
use f_rat_os.Kheap.Append.{Appended, append_block-Appended, fresh}
use f_rat_os.Kheap.Free.{coalesce-IsHeap}

-- What `kheap_expand` leaves, whether it could take memory or not
pub record Expanded (h h' : Heap) (bs bs' : List ℕ) : Type 0 where
  pub heap : IsHeap h' bs'
  pub more : length bs' ≤ suc (length bs)
  pub used_kept : used_blocks h'.header bs' ≡ used_blocks h.header bs
  pub same_initialized : h'.initialized ≡ h.initialized

length-snoc : (bs : List ℕ) (b : ℕ) → length (bs ++ (b ∷ [])) ≡ suc (length bs)
length-snoc [] b = refl
length-snoc (x ∷ bs) b = ap suc (length-snoc bs b)

pub with_pages : (h : Heap) (bs : List ℕ) (v : Vmm) → IsHeap h bs → IsHeap (record h { vmm = v }) bs
with_pages h bs v w = record {
  tiles = w.tiles;
  start_set = w.start_set;
  start_low = w.start_low;
  span = w.span;
  limit = w.limit;
}

-- The bounds reach to the end of the new block.
grow-IsHeap :
    (size : ℕ) (h h' : Heap) (bs : List ℕ)
    → IsHeap h bs
    → 37 ≤ size
    → h.heap_size + size ≤ heap_max_size
    → Appended h h' bs (sub64 size header_size)
    → IsHeap (grow size h') (bs ++ (h.heap_end ∷ []))
unfolding grow
grow-IsHeap size h h' bs v some_size room a =
    let end = a.same_end in
    let old = a.same_size in
    let start = a.same_start in
    let span = v.span in
    let low = v.start_low in
    let limit = v.limit in
    record {
      tiles =
          Tail-at h'.header 0 h'.first_block h'.first_block h'.heap_start h'.heap_start
            (bs ++ (h.heap_end ∷ [])) (h.heap_end + 36 + sub64 size 36) (add64 h'.heap_end size)
            refl refl (omega arith) a.tail;
      start_set = rw start v.start_set;
      start_low = rw start v.start_low;
      span = omega arith;
      limit = omega arith;
    }

-- The part of `kheap_expand` after the pages
pub grown :
    (fuel size : ℕ) (h : Heap) (bs : List ℕ)
    → IsHeap h bs
    → 37 ≤ size
    → h.heap_size + size ≤ heap_max_size
    → length bs + 1 < fuel
    → (h' : Heap) × (h'' : Heap) × (bs' : List ℕ) × (append_block fuel
          (fresh (sub64 size header_size))
          h
        ≡ some h')
      × (coalesce fuel (grow size h') ≡ some h'')
      × (h''.heap_start ≡ h.heap_start)
      × (h''.heap_size ≡ h.heap_size + size)
      × Expanded h h'' bs bs'
unfolding grow
grown fuel size h bs v some_size room fuel_room =
    let (h', runs, a) =
      append_block-Appended fuel (sub64 size 36) h bs v (omega arith) (omega arith) in
    let w = grow-IsHeap size h h' bs v some_size room a in
    let count = length-snoc bs h.heap_end in
    let old = a.same_size in
    let sum : add64 h'.heap_size size ≡ h.heap_size + size = omega arith in
    let (h'', bs', ends, s) =
      coalesce-IsHeap fuel (grow size h') (bs ++ (h.heap_end ∷ [])) w (omega arith) in
    (
      h',
      h'',
      bs',
      runs,
      ends,
      s.keeps.same_start ∙ a.same_start,
      s.keeps.same_size ∙ sum,
      record {
        heap = s.heap;
        more = omega (arith, s.fewer);
        used_kept = s.used_kept ∙ a.used_kept;
        same_initialized = s.keeps.same_initialized ∙ a.same_initialized;
      },
    )

pub expand-Expanded :
    (fuel size : ℕ) (h : Heap) (bs : List ℕ)
    → IsHeap h bs
    → 1 ≤ size
    → size < 2 ^ 63 + 2 ^ 20
    → length bs + 1 < fuel
    → (h' : Heap) × (bs' : List ℕ) × (expand fuel size h ≡ some h') × Expanded h h' bs bs'
unfolding expand
expand-Expanded fuel size h bs v some_size word fuel_room =
    let size' = align_up size in
    let limit = v.limit in
    let page : 4096 ≤ size' = omega arith in
    elim (Bool-cases (ltb heap_max_size (add64 h.heap_size size'))) [
      | inl full ↦ (
        h,
        bs,
        simp full refl,
        record { heap = v; more = omega arith; used_kept = refl; same_initialized = refl },
      )
      | inr open_ ↦
          let (mapped, vm) = map_heap_pages (size' / 4096) 0 h.heap_end h.vmm in
          let paged = record h { vmm = vm } in
          elim (Bool-cases mapped) [
            | inr failed ↦ (
              paged,
              bs,
              simp (open_, failed) refl,
              record {
                heap = with_pages h bs vm v;
                more = omega arith;
                used_kept = refl;
                same_initialized = refl;
              },
            )
            | inl done ↦
                let (h', h'', bs', appends, ends, _, _, x) =
                  grown fuel size' paged bs (with_pages h bs vm v) (omega arith)
                    (ground (arith, open_)) fuel_room in
                (
                  h'',
                  bs',
                  simp (open_, done, appends) ends,
                  record {
                    heap = x.heap;
                    more = x.more;
                    used_kept = x.used_kept;
                    same_initialized = x.same_initialized;
                  },
                )
          ]
    ]
