-- ===== src/Pmm/Init/Whole.antt =====
-- `pmm_init` of kernel/pmm.c with a memory map, as a whole.
use f_rat_os.Base.{
  ℕ, ◌*◌, ◌/◌, ◌≤◌, ◌<◌, ◌≡◌, refl, sym, ap, ◌∙◌, ◌↔◌, true, false, some, arith, ltb, if_elim,
  add64,
}
use f_rat_os.Base.Loops.{count_up, count_up_inv}
use f_rat_os.Boot.{BootInfo, MemoryDescriptor}
use f_rat_os.Pmm.{Pmm, pmm_boot}
use f_rat_os.Pmm.Bitmap.{bitmap_size, bitmap_test}
use f_rat_os.Pmm.Count.{free_count}
use f_rat_os.Pmm.Init.{
  clear_counters, entry_at, finish, init, init_map, limit_highest, mark_entry, reserve_kernel,
  reserve_low, scan_entry,
}
use f_rat_os.Pmm.Init.Layout.{
  Painted, Partial, bitmap_test-ones, finish-IsValid, free_count-ones, reserve_run,
}
use f_rat_os.Pmm.Init.Map.{Covers, IsMap, Marking, Scanned, mark_entry-Marking, scan_entry-Scanned}
use f_rat_os.Pmm.Valid.{IsValid}

-- Page `q` lies in an available entry of the map, past the 2 MB that are reserved, and within
-- the bitmap.
abbrev pub Usable : (mmap : ℕ → MemoryDescriptor) (stride n q : ℕ) → Type 0
Usable mmap stride n q =
    (512 ≤ q) × (q < bitmap_size * 8) × ((i : ℕ) × (i < n) × Covers (entry_at mmap stride i) q)

-- A valid, initialised allocator whose free pages are the usable ones.
pub record MapLayout (mmap : ℕ → MemoryDescriptor) (stride n : ℕ) (t : Pmm) : Type 0 where
  pub valid : IsValid t
  pub ready : t.initialized ≡ true
  pub bits : (q : ℕ) → (bitmap_test t.bitmap q ≡ false) ↔ Usable mmap stride n q

module _ (mmap : ℕ → MemoryDescriptor) (stride n : ℕ) (m : IsMap mmap stride n) where
  scanned : Pmm
  scanned = count_up (λ i t. scan_entry (entry_at mmap stride i) t) n 0 (clear_counters pmm_boot)

  scanned-Scanned : Scanned mmap stride n (clear_counters pmm_boot) n scanned
  unfolding scanned clear_counters
  scanned-Scanned =
      count_up_inv _ (Scanned mmap stride n _) n 0 _
        (λ k t _ lt v. scan_entry-Scanned mmap stride n k (m.in_space k (omega (arith, lt))) v)
        (record {
          bitmap = refl;
          free = refl;
          total = omega arith;
          high = omega arith;
          ends = λ i h. absurd (omega arith);
        })
        n (omega arith)

  limited : Pmm
  limited = limit_highest scanned

  limited-small : limited.highest_page ≤ bitmap_size * 8
  unfolding limited limit_highest
  limited-small = ground (arith, scanned-Scanned.high)

  limited-enough :
      (q i : ℕ)
      → i < n
      → q < bitmap_size * 8
      → Covers (entry_at mmap stride i) q
      → q < limited.highest_page
  unfolding limited limit_highest
  limited-enough q i lt low c =
      ground (arith, scanned-Scanned.high, scanned-Scanned.ends i lt, c.below)

  limited-same :
      (limited.bitmap ≡ (λ i. 255))
      × (limited.free_pages ≡ 0)
      × (limited.total_pages ≡ scanned.total_pages)
  unfolding limited limit_highest clear_counters
  limited-same =
      if_elim
        (λ (t : Pmm).
          (t.bitmap ≡ (λ i. 255)) × (t.free_pages ≡ 0) × (t.total_pages ≡ scanned.total_pages))
        (ltb bitmap_size (add64 scanned.highest_page 7 / 8))
        (λ _. (scanned-Scanned.bitmap, scanned-Scanned.free, refl))
        (λ _. (scanned-Scanned.bitmap, scanned-Scanned.free, refl))

  h : ℕ
  h = limited.highest_page

  total : ℕ
  total = scanned.total_pages

  limited_set : (q : ℕ) → bitmap_test limited.bitmap q ≡ true
  limited_set q = rw limited-same.0 (bitmap_test-ones q)

  limited-Marking : Marking mmap stride n h total 0 limited
  unfolding h total
  limited-Marking = record {
    partial = record {
      bytes = λ i. rw limited-same.0 (omega arith);
      counted =
          limited-same.1
          ∙ sym (
              ap (λ b. free_count b limited.highest_page) limited-same.0
              ∙ free_count-ones limited.highest_page);
      highest = refl;
      total = limited-same.2;
      clear_low = λ q e. cc (limited_set q);
    };
    sound = λ q e. cc (limited_set q);
    complete = λ i q lt. absurd (omega arith);
  }

  marked : Pmm
  marked = count_up (λ i t. mark_entry (entry_at mmap stride i) t) n 0 limited

  marked-Marking : Marking mmap stride n h total n marked
  unfolding marked h
  marked-Marking =
      count_up_inv _ (Marking mmap stride n h total) n 0 limited
        (λ k t _ lt v. mark_entry-Marking mmap stride n limited-small m (omega (arith, lt)) v)
        limited-Marking n (omega arith)

  low : Painted h total true marked 0 256 (reserve_low marked)
  unfolding reserve_low h
  low = reserve_run limited-small marked 0 256 marked-Marking.partial

  reserved : Painted h total true (reserve_low marked) 256 256 (reserve_kernel (reserve_low marked))
  unfolding reserve_kernel h
  reserved = reserve_run limited-small (reserve_low marked) 256 256 low.partial

  init_map-eq :
      init_map mmap stride n (clear_counters pmm_boot)
      ≡ finish (reserve_kernel (reserve_low marked))
  unfolding init_map marked limited scanned
  init_map-eq = refl

  Usable→clear :
      (q : ℕ)
      → Usable mmap stride n q
      → bitmap_test (reserve_kernel (reserve_low marked)).bitmap q ≡ false
  unfolding h
  Usable→clear q (past, inside, (i, lt, c)) =
      let clear = marked-Marking.complete i q lt (limited-enough q i lt inside c) c in
      ground (arith, reserved.bits q, low.bits q, clear)

  clear→Usable :
      (q : ℕ)
      → bitmap_test (reserve_kernel (reserve_low marked)).bitmap q ≡ false
      → Usable mmap stride n q
  unfolding h
  clear→Usable q e =
      let clear : bitmap_test marked.bitmap q ≡ false =
        ground (arith, reserved.bits q, low.bits q) in
      let below = marked-Marking.partial.clear_low q clear in
      (
        ground (arith, reserved.bits q, low.bits q),
        omega (arith, below, limited-small),
        marked-Marking.sound q clear,
      )

  -- The memory map path leaves a valid allocator, and a page is free exactly if it is usable.
  pub init_map-MapLayout :
      MapLayout mmap stride n (init_map mmap stride n (clear_counters pmm_boot))
  unfolding finish
  init_map-MapLayout = rw init_map-eq (record {
    valid = finish-IsValid limited-small' scanned-Scanned.total reserved';
    ready = refl;
    bits = λ q. (clear→Usable q, Usable→clear q);
  })
    where
      limited-small' : h ≤ bitmap_size * 8
      limited-small' = unfold h in limited-small

      reserved' : Partial h scanned.total_pages (reserve_kernel (reserve_low marked))
      reserved' = unfold total in reserved.partial

-- Given a memory map of which every entry lies in the address space and no page lies in two
-- available entries, which are those of type 1, and a positive size and descriptor size, `pmm_init`
-- leaves a valid, initialised allocator in which a page is free exactly if it lies in an available
-- entry, at 2 MB or above, and in the range of the bitmap.
pub init-MapLayout :
    (info : BootInfo) (mmap : ℕ → MemoryDescriptor)
    → info.memory_map ≡ some mmap
    → 0 < info.memory_map_size
    → 0 < info.memory_map_descriptor_size
    → IsMap mmap info.memory_map_descriptor_size
        (info.memory_map_size / info.memory_map_descriptor_size)
    → (t : Pmm) × (init (some info) pmm_boot ≡ some t)
      × MapLayout mmap info.memory_map_descriptor_size
          (info.memory_map_size / info.memory_map_descriptor_size)
          t
unfolding init
init-MapLayout info mmap e pos stride m = (
  init_map mmap info.memory_map_descriptor_size
      (info.memory_map_size / info.memory_map_descriptor_size) (clear_counters pmm_boot),
  ground arith,
  init_map-MapLayout mmap info.memory_map_descriptor_size
      (info.memory_map_size / info.memory_map_descriptor_size) m,
)
