-- ===== src/Pmm/Frames.antt =====
-- What `pmm_alloc_frames` of kernel/pmm.c promises: the lowest run, marked and counted.
use f_rat_os.Base.{
  ℕ, zero, suc, ◌+◌, ◌*◌, ◌≤◌, ◌<◌, ◌≡◌, refl, ◌⊎◌, inl, inr, Bool, true, false, ◌&&◌, some, arith,
  ltb, leb, if◌then◌else◌, leb→gt, Bool-cases, add64,
}
use f_rat_os.Base.Loops.{count_up_inv}
use f_rat_os.Pmm.Bitmap.{
  PageBitmap, bitmap_set, bitmap_test, bitmap_test-set, Bytes, bitmap_set-Bytes, bitmap_size,
}
use f_rat_os.Pmm.Count.{free_count, free_count-set}
use f_rat_os.Pmm.{Pmm, find_run, set_run, take_run, alloc_frames, page_to_addr}
use f_rat_os.Pmm.Valid.{IsValid, free_pages-le}
use f_rat_os.Pmm.Run.{FreeRun, FirstRun, search-Found}

-- A run of free pages is counted.
free_count-ge : (b : PageBitmap) (n t k : ℕ) → t + k ≤ n → FreeRun b t k → k ≤ free_count b n
unfolding free_count
free_count-ge b zero t k h run = omega arith
free_count-ge b (suc n) t zero h run = omega arith
free_count-ge b (suc n) t (suc k) h run = elim (Bool-cases (leb (t + suc k) n)) [
  | inl low ↦ ground (arith, free_count-ge b n t (suc k) (ground arith) run)
  | inr last ↦
      let past = leb→gt (t + suc k) n last in
      let here = run n (omega arith) (omega arith) in
      let rest = free_count-ge b n t k (omega arith) (λ q lo hi. run q lo (omega arith)) in
      rw here (omega (arith, rest))
]

-- The pages from `start` on to `start + k`, not included.
abbrev pub in_run : (start k q : ℕ) → Bool
in_run start k q = leb start q && ltb q (start + k)

-- `c` is `b` with the `k` pages from `start` on set, each of which was free.
record Marked (b : PageBitmap) (start n : ℕ) (k : ℕ) (c : PageBitmap) : Type 0 where
  bytes : Bytes c
  bits : (q : ℕ) → bitmap_test c q ≡ (if in_run start k q then true else bitmap_test b q)
  count : free_count c n + k ≡ free_count b n

module _ (b : PageBitmap) (w : Bytes b) (start count n : ℕ) where
  Marked-next :
      n ≤ bitmap_size * 8
      → start + count ≤ n
      → FreeRun b start count
      → (k : ℕ) (c : PageBitmap) → k < count
      → Marked b start n k c
      → Marked b start n (k + 1) (bitmap_set c (add64 start k))
  Marked-next hn h run k c lt m =
      let e : add64 start k ≡ start + k = omega arith in
      let clear : bitmap_test c (start + k) ≡ false =
        ground (arith, m.bits (start + k), run (start + k)) in
      rw e (record {
        bytes = bitmap_set-Bytes c m.bytes (start + k);
        bits = λ q. ground (arith, bitmap_test-set c m.bytes (start + k) q, m.bits q);
        count = omega (arith, m.count, free_count-set c m.bytes (start + k) n (omega arith) clear);
      })

  set_run-Marked :
      n ≤ bitmap_size * 8
      → start + count ≤ n
      → FreeRun b start count
      → Marked b start n count (set_run count start b)
  unfolding set_run
  set_run-Marked hn h run =
      count_up_inv _ (Marked b start n) count 0 b
        (λ k c _ lt m. Marked-next hn h run k c (omega (arith, lt)) m)
        (record { bytes = w; bits = λ q. ground arith; count = omega arith }) count (omega arith)

-- `s'` is `s` with the `count` pages from `start` on taken, and all else as it was.
pub record TakenRun (s : Pmm) (start count : ℕ) (s' : Pmm) : Type 0 where
  pub bits :
      (q : ℕ)
      → bitmap_test s'.bitmap q ≡ (if in_run start count q then true else bitmap_test s.bitmap q)
  pub free : s'.free_pages + count ≡ s.free_pages
  pub used : s'.used_pages ≡ add64 s.used_pages count
  pub total : s'.total_pages ≡ s.total_pages
  pub highest : s'.highest_page ≡ s.highest_page

module _ {s : Pmm} (v : IsValid s) (count : ℕ) where
  module _ {r : ℕ} (pos : 0 < count) (f : FirstRun s.bitmap count pos s.highest_page r) where
    enough : count ≤ s.free_pages
    enough = omega (arith, v.counted, free_count-ge s.bitmap s.highest_page r count f.within f.free)

    marked : Marked s.bitmap r s.highest_page count (set_run count r s.bitmap)
    marked = set_run-Marked s.bitmap v.bytes r count s.highest_page v.in_range f.within f.free

    take_run-TakenRun : TakenRun s r count (take_run s count r)
    unfolding take_run
    take_run-TakenRun = record {
      bits = marked.bits;
      free = omega (arith, enough, free_pages-le v);
      used = refl;
      total = refl;
      highest = refl;
    }

    take_run-IsValid : IsValid (take_run s count r)
    unfolding take_run
    take_run-IsValid = record {
      bytes = marked.bytes;
      in_range = v.in_range;
      counted = omega (arith, v.counted, marked.count, enough, free_pages-le v);
      balanced = omega (arith, v.balanced, enough, free_pages-le v, v.used_word);
      used_word = omega arith;
    }

    alloc_frames-found :
        s.initialized ≡ true
        → find_run count s.highest_page 0 0 0 s.bitmap ≡ some r
        → alloc_frames s count ≡ (page_to_addr r, take_run s count r)
    unfolding alloc_frames
    alloc_frames-found on e = ground (arith, enough)

  -- Asked for a positive number of pages, a valid, initialised `pmm_alloc_frames` either finds no
  -- run of that many free pages below `highest_page`, returns 0 and changes nothing; or takes the
  -- lowest such run, returns its address, and leaves a valid allocator that differs in those
  -- pages and the counters only.
  pub alloc_frames-first_fit :
      s.initialized ≡ true
      → (pos : 0 < count)
      → (((t : ℕ) → t + count ≤ s.highest_page → ¬ FreeRun s.bitmap t count)
          × (alloc_frames s count ≡ (0, s)))
        ⊎ ((r : ℕ) × FirstRun s.bitmap count pos s.highest_page r
            × ((alloc_frames s count).0 ≡ r * 4096)
            × TakenRun s r count (alloc_frames s count).1
            × IsValid (alloc_frames s count).1)
  unfolding alloc_frames
  alloc_frames-first_fit on pos = elim (search-Found s.bitmap count pos s.highest_page) [
    | inl (e, no_run) ↦ inl (no_run, ground (arith, e))
    | inr (r, e, f) ↦
        let found = alloc_frames-found pos f on e in
        inr (
          r,
          f,
          rw found (omega (arith, v.in_range, f.within)),
          rw found (take_run-TakenRun pos f),
          rw found (take_run-IsValid pos f),
        )
  ]

  -- Asked for no page, it returns 0 and changes nothing; so it does before `pmm_init`.
  pub alloc_frames-refused : (s.initialized ≡ false) ⊎ (count ≡ 0) → alloc_frames s count ≡ (0, s)
  unfolding alloc_frames
  alloc_frames-refused h = ground arith
