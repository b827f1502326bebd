-- ===== src/Keyboard/Step.antt =====
-- What one interrupt does to the state of kernel/keyboard.c, whatever the devices answer.
use f_rat_os.Base.{
  Bool, Bool-cases, add64, arith, bit_and, if◌then◌else◌, inl, inr, some, ℕ, ◌&&◌, ◌==◌, ◌||◌, ◌≡◌,
}
use f_rat_os.Base.Bits.{byte_set, byte_test, byte_toggle}
use f_rat_os.Io.{World, print_char}
use f_rat_os.Keyboard.{
  Keyboard, buffer_push, handle_scancode, key_capslock, key_lalt, key_lctrl, key_lshift,
  key_numlock, key_rshift, key_scrolllock, press_key, press_plain, release_flags, scancode_to_char,
  toggle_lock,
}

-- The key that a scancode names, bit 7 aside.
abbrev pub key_of : ℕ → ℕ
key_of scancode = bit_and scancode 0x7F

-- A key that is held: its flag is on while the key is down.
abbrev pub holds : (key flag : ℕ) → Bool
holds key flag =
    (key == key_lshift && flag == 0)
    || ((key == key_rshift && flag == 1)
        || ((key == key_lctrl && flag == 2) || (key == key_lalt && flag == 3)))

-- A key that locks: each press turns its flag over.
abbrev pub locks : (key flag : ℕ) → Bool
locks key flag =
    (key == key_capslock && flag == 4)
    || ((key == key_numlock && flag == 5) || (key == key_scrolllock && flag == 6))

-- A key that the driver handles itself.
abbrev pub special : (key : ℕ) → Bool
special key =
    key == key_lshift
    || (key == key_rshift
        || (key == key_lctrl
            || (key == key_lalt
                || (key == key_capslock || (key == key_numlock || key == key_scrolllock)))))

module _ (k : Keyboard) (w : World) {k' : Keyboard} {w' : World} where
  -- A lock key turns its flag over, if the controller answers.
  toggle_lock-flags :
      (flag : ℕ)
      → toggle_lock k flag w ≡ some (k', w')
      → k' ≡ record k { flags = byte_toggle k.flags flag }
  unfolding toggle_lock
  toggle_lock-flags flag e = ground arith

  -- A plain key goes into the buffer, if it has a character.
  press_plain-buffer :
      (key : ℕ)
      → press_plain k key w ≡ some (k', w')
      → k' ≡ (
          if scancode_to_char k.flags key == 0
          then k
          else buffer_push k (scancode_to_char k.flags key))
  unfolding press_plain print_char
  press_plain-buffer key e = ground arith

-- The state after the press of a key.
abbrev pub pressed : Keyboard → (key : ℕ) → Keyboard
pressed k key =
    let ch = scancode_to_char k.flags key in
    if key == key_lshift
    then record k { flags = byte_set k.flags 0 }
    else if key == key_rshift
    then record k { flags = byte_set k.flags 1 }
    else if key == key_lctrl
    then record k { flags = byte_set k.flags 2 }
    else if key == key_lalt
    then record k { flags = byte_set k.flags 3 }
    else if key == key_capslock
    then record k { flags = byte_toggle k.flags 4 }
    else if key == key_numlock
    then record k { flags = byte_toggle k.flags 5 }
    else if key == key_scrolllock
    then record k { flags = byte_toggle k.flags 6 }
    else if ch == 0
    then k
    else buffer_push k ch

pub press_key-pressed :
    (k : Keyboard) (key : ℕ) (w : World) {k' : Keyboard} {w' : World}
    → press_key k key w ≡ some (k', w')
    → k' ≡ pressed k key
unfolding press_key
press_key-pressed k key w {k'} {w'} e = ground (
  arith,
  toggle_lock-flags k w {k' = k'} {w' = w'} 4,
  toggle_lock-flags k w {k' = k'} {w' = w'} 5,
  toggle_lock-flags k w {k' = k'} {w' = w'} 6,
  press_plain-buffer k w {k' = k'} {w' = w'} key,
)

-- The state with a scancode counted.
abbrev pub counted_press : Keyboard → Keyboard
counted_press k = record k {
  stats = record (k.stats) {
    total_scancodes = add64 k.stats.total_scancodes 1;
    total_keypresses = add64 k.stats.total_keypresses 1;
  };
}

-- The state after a scancode: counted, and its key pressed or released.
abbrev pub after : Keyboard → (scancode : ℕ) → Keyboard
after k scancode =
    if byte_test scancode 7
    then record k {
      stats = record (k.stats) {
        total_scancodes = add64 k.stats.total_scancodes 1;
        total_releases = add64 k.stats.total_releases 1;
      };
      flags = release_flags k.flags (key_of scancode);
    }
    else pressed (counted_press k) (key_of scancode)

-- The devices decide when the handler returns, not what it does to the state.
pub handle_scancode-after :
    (k : Keyboard) (scancode : ℕ) (w : World) {k' : Keyboard} {w' : World}
    → handle_scancode k scancode w ≡ some (k', w')
    → k' ≡ after k scancode
unfolding handle_scancode
handle_scancode-after k scancode w {k'} {w'} e = elim (Bool-cases (byte_test scancode 7)) [
  | inl up ↦ ground arith
  | inr down ↦
      rw down
        (press_key-pressed (counted_press k) (key_of scancode) w {k' = k'} {w' = w'} (rw down at e))
]
