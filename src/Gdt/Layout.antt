-- ===== src/Gdt/Layout.antt =====
-- The descriptors of kernel/gdt.c and kernel/tss.c as the processor reads them: a word of 64 bits
-- each, and two words for a system descriptor.
use f_rat_os.Base.{==_self, arith, false, leb, ℕ, ◌%◌, ◌*◌, ◌+◌, ◌/◌, ◌<◌, ◌==◌, ◌^◌, ◌≡◌}
use f_rat_os.Gdt.{GdtEntry, gdt_entries, gdt_set_gate, tss_set_gdt_entry}

-- The bytes of a packed entry, the first lowest.
abbrev pub word_of : GdtEntry → ℕ
word_of e =
    e.limit_low
    + e.base_low * 2 ^ 16
    + e.base_mid * 2 ^ 32
    + e.access * 2 ^ 40
    + e.granularity * 2 ^ 48
    + e.base_high * 2 ^ 56

-- The fields of the word, by the manual's figure: the base in bits 16 to 39 and 56 to 63, the limit
-- in bits 0 to 15 and 48 to 51, the type and the privilege in bits 40 to 47, the flags in 52 to 55.
abbrev pub base_field : ℕ → ℕ
base_field w = w / 2 ^ 16 % 2 ^ 24 + w / 2 ^ 56 % 2 ^ 8 * 2 ^ 24

abbrev pub limit_field : ℕ → ℕ
limit_field w = w % 2 ^ 16 + w / 2 ^ 48 % 2 ^ 4 * 2 ^ 16

abbrev pub access_field : ℕ → ℕ
access_field w = w / 2 ^ 40 % 2 ^ 8

abbrev pub flags_field : ℕ → ℕ
flags_field w = w / 2 ^ 52 % 2 ^ 4

-- A system descriptor has the upper half of the base in its second word.
abbrev pub system_base : (low high : ℕ) → ℕ
system_base low high = base_field low + high % 2 ^ 32 * 2 ^ 32

pub gdt_set_gate-fields :
    (num base limit access gran : ℕ) (g : ℕ → GdtEntry)
    → num < gdt_entries
    → base < 2 ^ 32
    → limit < 2 ^ 20
    → access < 2 ^ 8
    → let w = word_of (gdt_set_gate num base limit access gran g num) in
      (base_field w ≡ base)
      × (limit_field w ≡ limit)
      × (access_field w ≡ access)
      × (flags_field w ≡ gran / 16 % 16)
unfolding gdt_set_gate
gdt_set_gate-fields num base limit access gran g inside b l a =
    let taken : leb gdt_entries num ≡ false = ground arith in
    simp (taken, ==_self num) (omega arith, omega arith, omega arith, omega arith)

pub tss_set_gdt_entry-fields :
    (num base limit : ℕ) (g : ℕ → GdtEntry)
    → base < 2 ^ 64
    → limit < 2 ^ 20
    → let g' = tss_set_gdt_entry num base limit g in
      (system_base (word_of (g' num)) (word_of (g' (num + 1))) ≡ base)
      × (limit_field (word_of (g' num)) ≡ limit)
      × (access_field (word_of (g' num)) ≡ 0x89)
unfolding tss_set_gdt_entry
tss_set_gdt_entry-fields num base limit g b l =
    let next : (num == num + 1) ≡ false = ground arith in
    simp (next, ==_self num, ==_self (num + 1)) (omega arith, omega arith, omega arith)
