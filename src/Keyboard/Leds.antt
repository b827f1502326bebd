-- ===== src/Keyboard/Leds.antt =====
-- `keyboard_set_leds` of kernel/keyboard.c: the dialogue with the controller.
use f_rat_os.Base.{Bool, List, [], arith, false, not, refl, some, true, ℕ, ◌++◌, ◌<◌, ◌∷◌, ◌≡◌}
use f_rat_os.Base.Bits.{byte_test}
use f_rat_os.Io.{World, inb, outb, skip_while, wait_while}
use f_rat_os.Keyboard.{input_full, led_byte, output_full, set_leds}

-- Each of these statuses keeps the loop waiting.
abbrev pub AllBusy : (ℕ → Bool) → List ℕ → Type 0
AllBusy test [] = Unit {0}
AllBusy test (r ∷ rs) = (test r ≡ true) × AllBusy test rs

-- Looks at the status port with these answers, and then `rest`
abbrev pub statuses : List ℕ → (rest : List (ℕ × ℕ)) → List (ℕ × ℕ)
statuses [] rest = rest
statuses (r ∷ rs) rest = (0x64, r) ∷ statuses rs rest

skip_while-busy :
    (test : ℕ → Bool) (busy : List ℕ) (rest : List (ℕ × ℕ)) (r : ℕ)
    → AllBusy test busy
    → test r ≡ false
    → skip_while test 0x64 (statuses busy ((0x64, r) ∷ rest)) ≡ some rest
unfolding skip_while
skip_while-busy test [] rest r all ready = rw ready
skip_while-busy test (b ∷ bs) rest r all ready =
    rw all.0 (skip_while-busy test bs rest r all.1 ready)

wait_while-busy :
    (test : ℕ → Bool) (w : World) (busy : List ℕ) (rest : List (ℕ × ℕ)) (r : ℕ)
    → w.reads ≡ statuses busy ((0x64, r) ∷ rest)
    → AllBusy test busy
    → test r ≡ false
    → wait_while test 0x64 w ≡ some (tt, record w { reads = rest })
unfolding wait_while
wait_while-busy test w busy rest r e all ready =
    ground (arith, e, skip_while-busy test busy rest r all ready)

-- The LED byte has a bit for each lock.
pub led_byte_bits :
    (capslock numlock scrolllock : Bool)
    → (byte_test (led_byte capslock numlock scrolllock) 2 ≡ capslock)
      × (byte_test (led_byte capslock numlock scrolllock) 1 ≡ numlock)
      × (byte_test (led_byte capslock numlock scrolllock) 0 ≡ scrolllock)
      × (led_byte capslock numlock scrolllock < 8)
unfolding led_byte byte_test
led_byte_bits true true true = (refl, refl, refl, omega arith)
led_byte_bits true true false = (refl, refl, refl, omega arith)
led_byte_bits true false true = (refl, refl, refl, omega arith)
led_byte_bits true false false = (refl, refl, refl, omega arith)
led_byte_bits false true true = (refl, refl, refl, omega arith)
led_byte_bits false true false = (refl, refl, refl, omega arith)
led_byte_bits false false true = (refl, refl, refl, omega arith)
led_byte_bits false false false = (refl, refl, refl, omega arith)

-- What the controller answers: it is busy for a while before each byte and before each
-- acknowledgement, and never for ever. Statuses come from port 0x64, acknowledgements from 0x60.
pub record Dialogue (reads rest : List (ℕ × ℕ)) : Type 0 where
  pub busy0 : List ℕ
  pub busy1 : List ℕ
  pub busy2 : List ℕ
  pub busy3 : List ℕ
  pub free0 : ℕ
  pub full1 : ℕ
  pub ack1 : ℕ
  pub free2 : ℕ
  pub full3 : ℕ
  pub ack3 : ℕ
  pub answers :
      reads
      ≡ statuses busy0 (
          (0x64, free0)
          ∷ statuses busy1 (
              (0x64, full1)
              ∷ (0x60, ack1)
              ∷ statuses busy2
                  ((0x64, free2) ∷ statuses busy3 ((0x64, full3) ∷ (0x60, ack3) ∷ rest))))
  pub all0 : AllBusy input_full busy0
  pub ready0 : input_full free0 ≡ false
  pub all1 : AllBusy (λ s. not (output_full s)) busy1
  pub ready1 : output_full full1 ≡ true
  pub all2 : AllBusy input_full busy2
  pub ready2 : input_full free2 ≡ false
  pub all3 : AllBusy (λ s. not (output_full s)) busy3
  pub ready3 : output_full full3 ≡ true

-- If the status port says that the controller is ready after finitely many looks each time, and
-- the data port has an acknowledgement after each byte, `keyboard_set_leds` returns; it
-- has then sent the command 0xED and the LED byte to the data port, in that order, consumed the
-- answers of the dialogue and no more, and printed nothing.
pub set_leds-returns :
    (c n s : Bool) (w : World) (rest : List (ℕ × ℕ))
    → Dialogue w.reads rest
    → set_leds c n s w
      ≡ some (
        tt,
        record {
          reads = rest;
          writes = (w.writes ++ ((0x60, 0xED) ∷ [])) ++ ((0x60, led_byte c n s) ∷ []);
          printed = w.printed;
        },
      )
unfolding set_leds inb outb
set_leds-returns c n s w rest d =
    let r3 = statuses d.busy3 ((0x64, d.full3) ∷ (0x60, d.ack3) ∷ rest) in
    let r2 = statuses d.busy2 ((0x64, d.free2) ∷ r3) in
    let r1 = statuses d.busy1 ((0x64, d.full1) ∷ (0x60, d.ack1) ∷ r2) in
    let sent1 = w.writes ++ ((0x60, 0xED) ∷ []) in
    let sent2 = sent1 ++ ((0x60, led_byte c n s) ∷ []) in
    let w1 : World = record { reads = r1; writes = sent1; printed = w.printed } in
    let w2 : World = record { reads = r2; writes = sent1; printed = w.printed } in
    let w3 : World = record { reads = r3; writes = sent2; printed = w.printed } in
    let wait_full = λ (status : ℕ). not (output_full status) in
    let not_ready : (x : Bool) → x ≡ true → not x ≡ false = λ x e. ground (arith, e) in
    ground (
      arith,
      wait_while-busy input_full w d.busy0 r1 d.free0 d.answers d.all0 d.ready0,
      wait_while-busy wait_full w1 d.busy1 ((0x60, d.ack1) ∷ r2) d.full1 refl d.all1
          (not_ready (output_full d.full1) d.ready1),
      wait_while-busy input_full w2 d.busy2 r3 d.free2 refl d.all2 d.ready2,
      wait_while-busy wait_full w3 d.busy3 ((0x60, d.ack3) ∷ rest) d.full3 refl d.all3
          (not_ready (output_full d.full3) d.ready3),
    )
