-- ===== src/Idt/Controllers.antt =====
-- `idt_init` of kernel/idt.c as the processor and the two interrupt controllers see it.
use f_rat_os.Base.{List, [], if◌then◌else◌, ℕ, ◌%◌, ◌*◌, ◌+◌, ◌/◌, ◌==◌, ◌∷◌, ◌≡◌}
use f_rat_os.Idt.{Idt}

-- An 8259A controller, by its manual: a command with bit 4 starts the initialisation, which takes
-- the vector of line 0, the cascade and the mode from its data port, in this order; after that a
-- byte at the data port is the mask. `expects` is 2, 3 or 4 in the initialisation, and else 0.
pub record Pic : Type 0 where
  pub expects : ℕ
  pub vector : ℕ
  pub cascade : ℕ
  pub mode : ℕ
  pub mask : ℕ

abbrev command : (value : ℕ) → Pic → Pic
command value p = if value / 16 % 2 == 1 then record p { expects = 2; mask = 0 } else p

abbrev data_byte : (value : ℕ) → Pic → Pic
data_byte value p =
    if p.expects == 2
    then record p { expects = 3; vector = value / 8 * 8 }
    else if p.expects == 3
    then record p { expects = 4; cascade = value }
    else if p.expects == 4
    then record p { expects = 0; mode = value }
    else record p { mask = value }

-- The writes, as the controller at `port` and `port + 1` takes them
abbrev pub receives : (port : ℕ) → List (ℕ × ℕ) → Pic → Pic
receives port [] p = p
receives port ((at, value) ∷ ws) p =
    receives port ws
      (if at == port then command value p else if at == port + 1 then data_byte value p else p)

-- The controller is ready, with a vector for line 0, a byte for the cascade, 8086 mode and a mask.
pub record Ready (p : Pic) (vector cascade mask : ℕ) : Type 0 where
  pub ended : p.expects ≡ 0
  pub vector_set : p.vector ≡ vector
  pub cascade_set : p.cascade ≡ cascade
  pub mode_set : p.mode ≡ 1
  pub mask_set : p.mask ≡ mask

-- The bytes that `pic_remap` writes
abbrev remap_writes : (mask1 mask2 : ℕ) → List (ℕ × ℕ)
remap_writes mask1 mask2 =
    (0x20, 0x11)
    ∷ (0xA0, 0x11)
    ∷ (0x21, 32)
    ∷ (0xA1, 40)
    ∷ (0x21, 4)
    ∷ (0xA1, 2)
    ∷ (0x21, 1)
    ∷ (0xA1, 1)
    ∷ (0x21, mask1)
    ∷ (0xA1, mask2)
    ∷ []
