-- ===== src/Keyboard/Tests.antt =====
-- Runs of the keyboard driver, and its theorems at concrete inputs.
use f_rat_os.Base.{
  List, [], arith, false, if◌then◌else◌, refl, replicate, some, true, ℕ, ◌<◌, ◌∷◌, ◌≡◌,
}
use f_rat_os.Keyboard.Returns.{Answers}
use f_rat_os.Base.Bits.{byte_clear, byte_set, byte_test}
use f_rat_os.Fifo.{enqueue}
use f_rat_os.Io.{World, inb, print_char, ◌>>=◌}
use f_rat_os.Keyboard.{
  Keyboard, buffer_push, handle_scancode, irq_handler, keyboard_boot, led_byte, press_key,
  press_plain, release_flags, scancode_to_char, set_leds,
}
use f_rat_os.Keyboard.Buffer.{IsRing, contents, flush, get, put, run, run_fifo, run_refines}
use f_rat_os.Keyboard.Leds.{Dialogue, set_leds-returns}
use f_rat_os.Keyboard.Modifiers.{
  IsValid, flag_after, handle_scancode-flags, irq_handler-contents, types,
}
use f_rat_os.Keyboard.Step.{counted_press}

abbrev ready : Keyboard
ready = record keyboard_boot { initialized = true }

abbrev script : List (ℕ × ℕ) → World
script reads = record { reads = reads; writes = []; printed = [] }

-- `h` with shift down, then with shift up: "Hh".
typed :
    (do k ← irq_handler ready; k ← irq_handler k; k ← irq_handler k; irq_handler k)
      (script ((0x60, 0x2A) ∷ (0x60, 0x23) ∷ (0x60, 0xAA) ∷ (0x60, 0x23) ∷ []))
    ≡ some (
      record ready {
        buffer = b'H' ∷ b'h' ∷ replicate 254 0;
        write_pos = 2;
        count = 2;
        stats = record {
          total_scancodes = 4;
          total_keypresses = 3;
          total_releases = 1;
          buffer_overruns = 0;
        };
      },
      record { reads = []; writes = []; printed = b'H' ∷ b'h' ∷ [] },
    )
unfolding irq_handler inb handle_scancode press_key press_plain print_char scancode_to_char
    buffer_push release_flags byte_test byte_set byte_clear
typed = refl

ready-IsRing : IsRing ready
ready-IsRing = omega arith

ready-IsValid : IsValid ready
ready-IsValid = record { ring = ready-IsRing; flags_byte = omega arith; counted = refl }

run_refines_example :
    run (put 7 ∷ get ∷ get ∷ flush ∷ put 8 ∷ get ∷ []) ready
    ≡ run_fifo (put 7 ∷ get ∷ get ∷ flush ∷ put 8 ∷ get ∷ []) []
run_refines_example = run_refines _ ready ready-IsRing

abbrev caps_reads : List (ℕ × ℕ)
caps_reads =
    (0x64, 2)
    ∷ (0x64, 0)
    ∷ (0x64, 1)
    ∷ (0x60, 0xFA)
    ∷ (0x64, 0)
    ∷ (0x64, 0)
    ∷ (0x64, 1)
    ∷ (0x60, 0xFA)
    ∷ (0x60, 9)
    ∷ []

-- Caps lock goes on: the LED byte is 4.
caps-Dialogue : Dialogue caps_reads ((0x60, 9) ∷ [])
unfolding byte_test
caps-Dialogue = record {
  busy0 = 2 ∷ [];
  busy1 = [];
  busy2 = [];
  busy3 = 0 ∷ [];
  free0 = 0;
  full1 = 1;
  ack1 = 0xFA;
  free2 = 0;
  full3 = 1;
  ack3 = 0xFA;
  answers = refl;
  all0 = (refl, tt);
  ready0 = refl;
  all1 = tt;
  ready1 = refl;
  all2 = tt;
  ready2 = refl;
  all3 = (refl, tt);
  ready3 = refl;
}

set_leds-returns_example :
    set_leds true false false (script caps_reads)
    ≡ some (
      tt,
      record {
        reads = (0x60, 9) ∷ [];
        writes = (0x60, 0xED) ∷ (0x60, led_byte true false false) ∷ [];
        printed = [];
      },
    )
set_leds-returns_example = set_leds-returns true false false _ ((0x60, 9) ∷ []) caps-Dialogue

-- The interrupt for `a`.
abbrev after_a : Keyboard
after_a = record ready {
  buffer = b'a' ∷ replicate 255 0;
  write_pos = 1;
  count = 1;
  stats = record {
    total_scancodes = 1;
    total_keypresses = 1;
    total_releases = 0;
    buffer_overruns = 0;
  };
}

irq_a :
    irq_handler ready (script ((0x60, 0x1E) ∷ []))
    ≡ some (after_a, record { reads = []; writes = []; printed = b'a' ∷ [] })
unfolding irq_handler inb handle_scancode press_key press_plain print_char scancode_to_char
    buffer_push byte_test
irq_a = refl

no-Answers : Answers 0x1E [] []
no-Answers = record {
  shown = λ down lit. absurd (ground arith);
  silent_key = λ plain. refl;
  silent_release = λ up. refl;
}

irq_handler-contents_example :
    (k' : Keyboard) × (w' : World) × (irq_handler ready (script ((0x60, 0x1E) ∷ []))
      ≡ some (k', w'))
    × (w'.reads ≡ [])
    × IsValid k'
    × (contents k' ≡ (if types 0 0x1E then enqueue 256 [] (scancode_to_char 0 0x1E) else []))
irq_handler-contents_example =
    irq_handler-contents 0x1E [] [] (script ((0x60, 0x1E) ∷ [])) ready-IsValid refl refl no-Answers

irq_shift :
    handle_scancode ready 0x2A (script [])
    ≡ some (record (counted_press ready) { flags = 1 }, script [])
unfolding handle_scancode press_key byte_test byte_set
irq_shift = refl

not_a_release : ¬ (byte_test 0x3A 7 ≡ true)
unfolding byte_test
not_a_release e = cc

-- The press of caps lock, with the LED dialogue.
caps-Answers : Answers 0x3A caps_reads ((0x60, 9) ∷ [])
caps-Answers = record {
  shown = λ down lit. caps-Dialogue;
  silent_key = λ plain. absurd (ground arith);
  silent_release = λ up. absurd (not_a_release up);
}

handle_scancode-flags_example :
    (k' : Keyboard) × (w' : World) × (handle_scancode ready 0x3A (script caps_reads)
      ≡ some (k', w'))
    × (w'.reads ≡ (0x60, 9) ∷ [])
    × ((j : ℕ) → j < 8 → byte_test k'.flags j ≡ flag_after 0 0x3A j)
handle_scancode-flags_example =
    handle_scancode-flags ready 0x3A (script caps_reads) ((0x60, 9) ∷ []) (omega arith) caps-Answers
