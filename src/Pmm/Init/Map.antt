-- ===== src/Pmm/Init/Map.antt =====
-- `pmm_init` of kernel/pmm.c with a memory map: the two passes, entry by entry.
use f_rat_os.Base.{
  ℕ, ◌+◌, ◌-◌, ◌*◌, ◌^◌, ◌≤◌, ◌<◌, ◌≡◌, refl, ap, ◌∙◌, ◌≢◌, ◌⊎◌, inl, inr, false, arith, ltb, leb,
  ◌==◌, if◌then◌else◌, leb→gt, lt→leb, ==→eq, eq→==, ==→ne, Bool-cases, add64,
}
use Prim.Native.Nat.{min}
use f_rat_os.Base.Loops.{count_up}
use f_rat_os.Boot.{MemoryDescriptor}
use f_rat_os.Pmm.{Pmm, addr_to_page}
use f_rat_os.Pmm.Bitmap.{bitmap_size, bitmap_test}
use f_rat_os.Pmm.Frames.{in_run}
use f_rat_os.Pmm.Init.{entry_at, mark_entry, memory_type_available, release_page, scan_entry}
use f_rat_os.Pmm.Init.Layout.{Painted, Partial, release_run}

-- Page `q` lies in an available entry.
pub record Covers (e : MemoryDescriptor) (q : ℕ) : Type 0 where
  pub available : e.kind ≡ memory_type_available
  pub from : addr_to_page e.physical_start ≤ q
  pub below : q < addr_to_page e.physical_start + e.number_of_pages

-- The end of an entry, which the first pass takes the highest of.
abbrev pub end_page : MemoryDescriptor → ℕ
end_page e = addr_to_page e.physical_start + e.number_of_pages

module _ (mmap : ℕ → MemoryDescriptor) (stride n : ℕ) where
  -- A map as firmware gives it: every entry lies in the 64-bit address space, and no page lies in
  -- two available entries.
  pub record IsMap : Type 0 where
    pub in_space : (i : ℕ) → i < n → end_page (entry_at mmap stride i) ≤ 2 ^ 52
    pub apart :
        (i j q : ℕ)
        → i < n
        → j < n
        → Covers (entry_at mmap stride i) q
        → Covers (entry_at mmap stride j) q
        → i ≡ j

  -- After `k` entries of the first pass.
  pub record Scanned (s : Pmm) (k : ℕ) (t : Pmm) : Type 0 where
    pub bitmap : t.bitmap ≡ s.bitmap
    pub free : t.free_pages ≡ s.free_pages
    pub total : t.total_pages < 2 ^ 64
    pub high : t.highest_page ≤ 2 ^ 52
    pub ends : (i : ℕ) → i < k → end_page (entry_at mmap stride i) ≤ t.highest_page

  pub scan_entry-Scanned :
      {s t : Pmm} (k : ℕ)
      → end_page (entry_at mmap stride k) ≤ 2 ^ 52
      → Scanned s k t
      → Scanned s (k + 1) (scan_entry (entry_at mmap stride k) t)
  unfolding scan_entry
  scan_entry-Scanned {s} {t} k fits v = record {
    bitmap = v.bitmap;
    free = v.free;
    total = ground (arith, v.total);
    high = ground (arith, v.high);
    ends = λ i h. elim (Bool-cases (i == k)) [
      | inl last ↦ let e = ==→eq i k last in rw e (ground arith)
      | inr other ↦ ground (arith, v.ends i (ground arith))
    ];
  }

  -- After `k` entries of the second pass the clear bits are those that the entries cover.
  pub record Marking (h total k : ℕ) (t : Pmm) : Type 0 where
    pub partial : Partial h total t
    pub sound :
        (q : ℕ)
        → bitmap_test t.bitmap q ≡ false
        → (i : ℕ) × (i < k) × Covers (entry_at mmap stride i) q
    pub complete :
        (i q : ℕ)
        → i < k
        → q < h
        → Covers (entry_at mmap stride i) q
        → bitmap_test t.bitmap q ≡ false

  -- The rounds of the inner loop of the second pass.
  rounds-eq :
      (h start pages : ℕ)
      → start < h
      → h ≤ bitmap_size * 8
      → start + pages ≤ 2 ^ 52
      → add64 start (if ltb h (add64 start pages) then h - start else pages) - start
        ≡ min pages (h - start)
  rounds-eq h start pages low small fits = ground arith

  -- What `mark_entry` does to an entry that it takes up: it frees a run of pages.
  mark_entry-run :
      (t : Pmm) (e : MemoryDescriptor) (h : ℕ)
      → t.highest_page ≡ h
      → e.kind ≡ memory_type_available
      → addr_to_page e.physical_start < h
      → h ≤ bitmap_size * 8
      → end_page e ≤ 2 ^ 52
      → mark_entry e t
        ≡ count_up release_page
            (min e.number_of_pages (h - addr_to_page e.physical_start))
            (addr_to_page e.physical_start)
            t
  unfolding mark_entry
  mark_entry-run t e h high kind low small fits =
      let start = addr_to_page e.physical_start in
      let low' : start < t.highest_page = omega arith in
      let small' : t.highest_page ≤ bitmap_size * 8 = omega arith in
      rw
        (
          eq→== e.kind 1 kind,
          lt→leb t.highest_page start low',
          rounds-eq t.highest_page start e.number_of_pages low' small' fits,
        )
        refl
      ∙ ap (λ x. count_up release_page (min e.number_of_pages (x - start)) start t) high

  mark_entry-skip :
      (t : Pmm) (e : MemoryDescriptor)
      → (e.kind ≢ memory_type_available) ⊎ (t.highest_page ≤ addr_to_page e.physical_start)
      → mark_entry e t ≡ t
  unfolding mark_entry
  mark_entry-skip t e h = ground arith

  -- An entry without pages below `h` leaves the marking as it is.
  Marking-skip :
      {h total k : ℕ} {t : Pmm}
      → ((q : ℕ) → q < h → ¬ Covers (entry_at mmap stride k) q)
      → Marking h total k t
      → Marking h total (k + 1) t
  Marking-skip {k} none_here v = record {
    partial = v.partial;
    sound = λ q c. let (i, lt, cov) = v.sound q c in (i, omega (arith, lt), cov);
    complete = λ i q lt low cov. elim (Bool-cases (i == k)) [
      | inl last ↦ let e = ==→eq i k last in absurd (none_here q low (rw e at cov))
      | inr other ↦ v.complete i q (ground arith) low cov
    ];
  }

  Marking-Painted :
      {h total k : ℕ} {t t' : Pmm} (start num : ℕ)
      → Marking h total k t
      → Painted h total false t start num t'
      → ((q : ℕ) → start ≤ q → q < start + num → Covers (entry_at mmap stride k) q)
      → ((q : ℕ) → q < h → Covers (entry_at mmap stride k) q → (start ≤ q) × (q < start + num))
      → Marking h total (k + 1) t'
  Marking-Painted {h} {total} {k} {t} {t'} start num v run into out = record {
    partial = run.partial;
    sound = λ q clear. elim (Bool-cases (in_run start num q)) [
      | inl inside ↦ (k, omega arith, into q (ground arith) (ground arith))
      | inr outside ↦
          let (i, lt, cov) = v.sound q (ground (arith, run.bits q)) in (i, omega (arith, lt), cov)
    ];
    complete = λ i q lt low cov. elim (Bool-cases (i == k)) [
      | inl last ↦
          let e = ==→eq i k last in
          let (from, below) = out q low (rw e at cov) in ground (arith, run.bits q, from, below)
      | inr other ↦ ground (arith, run.bits q, v.complete i q (ground arith) low cov)
    ];
  }

  -- An entry that is taken up adds its pages below `h`, none of which was free yet.
  Marking-run :
      {h total k : ℕ} {t : Pmm}
      → h ≤ bitmap_size * 8
      → IsMap
      → k < n
      → (entry_at mmap stride k).kind ≡ memory_type_available
      → addr_to_page (entry_at mmap stride k).physical_start < h
      → Marking h total k t
      → Marking h total (k + 1) (mark_entry (entry_at mmap stride k) t)
  Marking-run {h} {total} {k} {t} small m lt kind low v =
      let e = entry_at mmap stride k in
      let start = addr_to_page e.physical_start in
      let num = min e.number_of_pages (h - start) in
      let covered : (q : ℕ) → start ≤ q → q < start + num → Covers e q =
        λ q from below. record { available = kind; from = from; below = omega arith } in
      let run = release_run small t start num v.partial (omega arith) λ q from below.
        elim (Bool-cases (bitmap_test t.bitmap q)) [
          | inl taken ↦ taken
          | inr clear ↦
              let (i, before, cov) = v.sound q clear in
              absurd (
                omega
                  (arith, m.apart i k q (omega (arith, before, lt)) lt cov (covered q from below)))
        ] in
      rw (mark_entry-run t e h v.partial.highest kind low small (m.in_space k lt)) (
        Marking-Painted start num v run covered λ q below cov. (cov.from, omega (arith, cov.below)))

  -- One round of the second pass.
  pub mark_entry-Marking :
      {h total k : ℕ} {t : Pmm}
      → h ≤ bitmap_size * 8
      → IsMap
      → k < n
      → Marking h total k t
      → Marking h total (k + 1) (mark_entry (entry_at mmap stride k) t)
  mark_entry-Marking {h} {k} {t} small m lt v =
      let e = entry_at mmap stride k in
      let start = addr_to_page e.physical_start in
      elim (Bool-cases (e.kind == memory_type_available)) [
        | inr other ↦
            rw (mark_entry-skip t e (inl (==→ne e.kind 1 other)))
              (Marking-skip (λ q low cov. ==→ne e.kind 1 other cov.available) v)
        | inl kind ↦ elim (Bool-cases (leb h start)) [
          | inl above ↦
              rw (mark_entry-skip t e (inr (ground (arith, v.partial.highest))))
                (Marking-skip (λ q low cov. ground (arith, cov.from)) v)
          | inr below ↦ Marking-run small m lt (==→eq e.kind 1 kind) (leb→gt h start below) v
        ]
      ]
