-- ===== src/Pmm/Run.antt =====
-- `pmm_alloc_frames` of kernel/pmm.c: the search for a run of free pages, and what it promises.
use f_rat_os.Base.{
  leb→gt, ℕ, zero, suc, ◌+◌, ◌-◌, ◌≤◌, ◌<◌, ◌≡◌, refl, ◌≢◌, ◌⊎◌, inl, inr, true, false, Option,
  none, some, arith, leb, ◌==◌, if◌then◌else◌, ==→eq, eq→==, ne→==, ==→ne, Bool-cases,
}
use f_rat_os.Pmm.Bitmap.{PageBitmap, bitmap_test}
use f_rat_os.Pmm.{find_run}

-- The `n` pages from `t` on are free.
abbrev pub FreeRun : PageBitmap → (t n : ℕ) → Type 0
FreeRun b t n = (q : ℕ) → t ≤ q → q < t + n → bitmap_test b q ≡ false

module _ (b : PageBitmap) (count : ℕ) (some_pages : 0 < count) where
  -- What the loop knows before it looks at `page`: the `found` pages before it are free, the one
  -- before those is not, and no run of `count` free pages ends here or earlier.
  record Searching (page start found : ℕ) : Type 0 where
    short : found < count
    fits : found ≤ page
    at : 0 < found → start + found ≡ page
    run : (q : ℕ) → q < page → page ≤ q + found → bitmap_test b q ≡ false
    barrier : (q : ℕ) → suc q + found ≡ page → bitmap_test b q ≡ true
    none_before : (t : ℕ) → t + count ≤ page → ¬ FreeRun b t count

  -- The lowest run of `count` free pages that ends at `end` or before it.
  pub record FirstRun (end r : ℕ) : Type 0 where
    pub within : r + count ≤ end
    pub free : FreeRun b r count
    pub first : (t : ℕ) → t < r → ¬ FreeRun b t count

  Searching-taken :
      {page start found : ℕ}
      → Searching page start found
      → bitmap_test b page ≡ true
      → Searching (page + 1) start 0
  Searching-taken {page} {start} {found} s taken = record {
    short = some_pages;
    fits = omega arith;
    at = λ h. absurd (omega arith);
    run = λ q lo hi. absurd (omega arith);
    barrier = λ q e. let e' : page ≡ q = omega arith in rw e' at taken;
    none_before = λ t h free. elim (Bool-cases (leb (t + count) page)) [
      | inl before ↦ s.none_before t (ground arith) free
      | inr ends ↦ cc (taken, free page (ground arith) (ground arith))
    ];
  }

  -- The first page of the run that a free `page` continues or begins.
  first_page :
      {page start found : ℕ}
      → Searching page start found
      → (if found == 0 then page else start) + found ≡ page
  first_page {page} {start} {found} s = ground (arith, s.at)

  Searching-free :
      {page start found : ℕ} (first : ℕ)
      → first + found ≡ page
      → Searching page start found
      → bitmap_test b page ≡ false
      → found + 1 ≢ count
      → Searching (page + 1) first (found + 1)
  Searching-free {page} {start} {found} first e s free more = record {
    short = omega (arith, s.short);
    fits = omega (arith, s.fits);
    at = λ _. omega arith;
    run = λ q lo hi. elim (Bool-cases (page == q)) [
      | inl same ↦ let e' = ==→eq page q same in rw e' at free
      | inr other ↦ s.run q (ground arith) (omega arith)
    ];
    barrier = λ q h. s.barrier q (omega arith);
    none_before = λ t h all. elim (Bool-cases (leb (t + count) page)) [
      | inl before ↦ s.none_before t (ground arith) all
      | inr ends ↦
          let past = leb→gt (t + count) page ends in
          cc (
            s.barrier (page - found - 1) (omega (arith, s.short)),
            all (page - found - 1) (omega (arith, s.short)) (omega (arith, s.short)),
          )
    ];
  }

  FirstRun-here :
      {page start found : ℕ} (first end : ℕ)
      → first + found ≡ page
      → Searching page start found
      → bitmap_test b page ≡ false
      → found + 1 ≡ count
      → page + 1 ≤ end
      → FirstRun end first
  FirstRun-here {page} {start} {found} first end e s free full h = record {
    within = omega arith;
    free = λ q lo hi. elim (Bool-cases (page == q)) [
      | inl same ↦ let e' = ==→eq page q same in rw e' at free
      | inr other ↦ s.run q (ground arith) (omega arith)
    ];
    first = λ t lt. s.none_before t (omega arith);
  }

  -- The branches of one round.
  module _ (n page start found : ℕ) where
    abbrev first : ℕ
    first = if found == 0 then page else start

    find_run-taken :
        bitmap_test b page ≡ true
        → find_run count (suc n) page start found b ≡ find_run count n (page + 1) start 0 b
    unfolding find_run
    find_run-taken e = rw (e, find_run)

    find_run-here :
        bitmap_test b page ≡ false
        → found + 1 ≡ count
        → find_run count (suc n) page start found b ≡ some first
    unfolding find_run
    find_run-here e full = rw (e, find_run) (rw (eq→== (found + 1) count full))

    find_run-more :
        bitmap_test b page ≡ false
        → found + 1 ≢ count
        → find_run count (suc n) page start found b
          ≡ find_run count n (page + 1) first (found + 1) b
    unfolding find_run
    find_run-more e more = rw (e, find_run) (rw (ne→== (found + 1) count more))

  -- What the search answers from `page` on: the lowest run up to `end`, or that there is none.
  abbrev pub Found : (end : ℕ) → Option ℕ → Type 0
  Found end r =
      ((r ≡ none) × ((t : ℕ) → t + count ≤ end → ¬ FreeRun b t count))
      ⊎ ((t : ℕ) × (r ≡ some t) × FirstRun end t)

  find_run-Found :
      (n page start found end : ℕ)
      → page + n ≡ end
      → Searching page start found
      → Found end (find_run count n page start found b)
  unfolding find_run
  find_run-Found zero page start found end e s = inl (refl, λ t h. s.none_before t (omega arith))
  find_run-Found (suc n) page start found end e s = elim (Bool-cases (bitmap_test b page)) [
    | inl taken ↦
        rw (find_run-taken n page start found taken)
          (find_run-Found n (page + 1) start 0 end (omega arith) (Searching-taken s taken))
    | inr free ↦ elim (Bool-cases (found + 1 == count)) [
      | inl full ↦
          let full' = ==→eq (found + 1) count full in
          inr (
            first n page start found,
            find_run-here n page start found free full',
            FirstRun-here (first n page start found) end (first_page s) s free full' (omega arith),
          )
      | inr more ↦
          let more' = ==→ne (found + 1) count more in
          rw (find_run-more n page start found free more') (
            find_run-Found n (page + 1) (first n page start found) (found + 1) end (omega arith)
              (Searching-free (first n page start found) (first_page s) s free more'))
    ]
  ]

  -- The whole search, over the pages below `end`.
  pub search-Found : (end : ℕ) → Found end (find_run count end 0 0 0 b)
  search-Found end = find_run-Found end 0 0 0 end (omega arith) (record {
    short = some_pages;
    fits = omega arith;
    at = λ h. absurd (omega arith);
    run = λ q lo hi. absurd (omega arith);
    barrier = λ q e. absurd (omega arith);
    none_before = λ t h. absurd (omega arith);
  })
