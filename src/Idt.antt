-- ===== src/Idt.antt =====
-- kernel/idt.c and kernel/idt.h: the interrupt gates, the interrupt controllers, and the handlers of
-- exceptions and of hardware interrupts. The stubs of kernel/idt_asm.S are addresses, and a stub
-- passes on its number in `int_no`. The message on an unknown interrupt is left out.
pub mod Gates
pub mod Controllers
pub mod Exceptions
mod Tests
use f_rat_os.Base.{if◌then◌else◌, leb, ℕ, ◌%◌, ◌*◌, ◌+◌, ◌-◌, ◌/◌, ◌==◌, ◌^◌}
use f_rat_os.Base.Loops.{count_up}
use f_rat_os.Task.{update}
use f_rat_os.Io.{Io, inb, outb, pure, ◌>>=◌, ◌>>◌}
use f_rat_os.Scheduler.{Sched}
use f_rat_os.Timer.{Timer, irq_handler as timer_irq_handler}
use f_rat_os.Keyboard.{Keyboard, irq_handler as keyboard_irq_handler}

-- `idt_entry_t`
pub record IdtEntry : Type 0 where
  pub offset_low : ℕ
  pub selector : ℕ
  pub ist : ℕ
  pub type_attr : ℕ
  pub offset_mid : ℕ
  pub offset_high : ℕ
  pub reserved : ℕ

-- `idt_ptr_t`
pub record IdtPtr : Type 0 where
  pub limit : ℕ
  pub base : ℕ

-- `idt`, `idt_ptr` and the register IDTR
pub record Idt : Type 0 where
  pub idt : ℕ → IdtEntry
  pub idt_ptr : IdtPtr
  pub idtr : IdtPtr

-- IDT_ENTRIES, the size of an entry and IDT_TYPE_INTERRUPT_GATE
abbrev pub idt_entries : ℕ
idt_entries = 256

abbrev pub idt_entry_size : ℕ
idt_entry_size = 16

abbrev pub idt_type_interrupt_gate : ℕ
idt_type_interrupt_gate = 0x8E

-- IRQ_BASE, IRQ_TIMER and IRQ_KEYBOARD
abbrev pub irq_base : ℕ
irq_base = 32

abbrev pub irq_timer : ℕ
irq_timer = 32

abbrev pub irq_keyboard : ℕ
irq_keyboard = 33

abbrev pub gate_of : (handler selector type_attr : ℕ) → IdtEntry
gate_of handler selector type_attr = record {
  offset_low = handler % 2 ^ 16;
  offset_mid = handler / 2 ^ 16 % 2 ^ 16;
  offset_high = handler / 2 ^ 32 % 2 ^ 32;
  selector = selector;
  ist = 0;
  type_attr = type_attr;
  reserved = 0;
}

-- `num` is a byte.
unfoldable pub idt_set_gate : (num handler selector type_attr : ℕ) → (ℕ → IdtEntry) → ℕ → IdtEntry
idt_set_gate num handler selector type_attr g =
    update g (num % 256) (gate_of handler selector type_attr)

unfoldable pub pic_remap : Io (Unit {0})
pic_remap = do
  mask1 ← inb 0x21
  mask2 ← inb 0xA1
  outb 0x20 0x11
  outb 0xA0 0x11
  outb 0x21 irq_base
  outb 0xA1 (irq_base + 8)
  outb 0x21 0x04
  outb 0xA1 0x02
  outb 0x21 0x01
  outb 0xA1 0x01
  outb 0x21 mask1
  outb 0xA1 mask2

-- The 32 calls for exceptions and the 16 for hardware interrupts, in their order
unfoldable pub set_exceptions : (isr : ℕ → ℕ) → (ℕ → IdtEntry) → ℕ → IdtEntry
set_exceptions isr g = count_up (λ i. idt_set_gate i (isr i) 0x08 idt_type_interrupt_gate) 32 0 g

unfoldable pub set_irqs : (irq : ℕ → ℕ) → (ℕ → IdtEntry) → ℕ → IdtEntry
set_irqs irq g =
    count_up (λ i. idt_set_gate (irq_base + i) (irq i) 0x08 idt_type_interrupt_gate) 16 0 g

unfoldable pub clear_gates : (ℕ → IdtEntry) → ℕ → IdtEntry
clear_gates g = count_up (λ i. idt_set_gate i 0 0 0) idt_entries 0 g

unfoldable pub idt_load : Idt → Idt
idt_load d = record d { idtr = d.idt_ptr }

-- `idt_init`; `address` is that of `idt`, `isr` and `irq` are those of the stubs.
unfoldable pub idt_init : (isr irq : ℕ → ℕ) (address : ℕ) → Idt → Io Idt
idt_init isr irq address d = do
  pic_remap
  pure (
      idt_load (record d {
        idt = set_irqs irq (set_exceptions isr (clear_gates d.idt));
        idt_ptr = record { limit = idt_entry_size * idt_entries - 1; base = address };
      }))

-- What the handlers of hardware interrupts reach
pub record Devices : Type 0 where
  pub timer : Timer
  pub sched : Sched
  pub keyboard : Keyboard

-- `irq_handler`; `call` is what runs at the timer's callback.
unfoldable pub irq_handler :
    (ℕ → Timer × Sched → Timer × Sched) → (int_no : ℕ) → Devices → Io Devices
irq_handler call int_no d = do
  if leb 40 int_no then outb 0xA0 0x20 else pure tt
  outb 0x20 0x20
  if int_no == irq_timer
      then (let (t, s) = timer_irq_handler call (d.timer, d.sched) in
          pure (record d { timer = t; sched = s }))
      else if int_no == irq_keyboard
      then (keyboard_irq_handler d.keyboard >>= λ k. pure (record d { keyboard = k }))
      else pure d
