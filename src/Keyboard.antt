-- ===== src/Keyboard.antt =====
-- kernel/keyboard.c and kernel/keyboard.h: the PS/2 keyboard driver. A function that writes
-- `kbd_state` returns the new state; port reads and writes and the echo go through `Io`.
pub mod Tables
pub mod Buffer
pub mod Leds
pub mod Returns
pub mod Step
pub mod Modifiers
pub mod Letters
mod Tests
use f_rat_os.Base.{
  Bool, List, Option, [], add32, add64, bit_and, bit_or, false, get_or, if◌then◌else◌, leb, ltb,
  none, not, replicate, set, some, sub32, true, ℕ, ◌%◌, ◌&&◌, ◌+◌, ◌-◌, ◌==◌, ◌^◌, ◌∷◌,
}
use f_rat_os.Base.Bits.{byte_clear, byte_set, byte_test, byte_toggle}
use f_rat_os.Io.{Io, inb, outb, print_char, pure, wait_while, ◌>>=◌, ◌>>◌}
use f_rat_os.Keyboard.Tables.{scancode_to_ascii, scancode_to_ascii_shifted}

-- KEYBOARD_DATA_PORT, KEYBOARD_STATUS_PORT
abbrev pub keyboard_data_port : ℕ
keyboard_data_port = 0x60

abbrev pub keyboard_status_port : ℕ
keyboard_status_port = 0x64

-- KEYBOARD_BUFFER_SIZE
abbrev pub keyboard_buffer_size : ℕ
keyboard_buffer_size = 256

-- The keys that the driver handles itself.
abbrev pub key_lctrl : ℕ
key_lctrl = 0x1D

abbrev pub key_lshift : ℕ
key_lshift = 0x2A

abbrev pub key_rshift : ℕ
key_rshift = 0x36

abbrev pub key_lalt : ℕ
key_lalt = 0x38

abbrev pub key_capslock : ℕ
key_capslock = 0x3A

abbrev pub key_numlock : ℕ
key_numlock = 0x45

abbrev pub key_scrolllock : ℕ
key_scrolllock = 0x46

-- The bit positions of KBD_FLAG_LSHIFT to KBD_FLAG_SCROLLLOCK.
abbrev pub flag_lshift : ℕ
flag_lshift = 0

abbrev pub flag_rshift : ℕ
flag_rshift = 1

abbrev pub flag_lctrl : ℕ
flag_lctrl = 2

abbrev pub flag_lalt : ℕ
flag_lalt = 3

abbrev pub flag_capslock : ℕ
flag_capslock = 4

abbrev pub flag_numlock : ℕ
flag_numlock = 5

abbrev pub flag_scrolllock : ℕ
flag_scrolllock = 6

-- `keyboard_stats_t`
pub record KeyboardStats : Type 0 where
  pub total_scancodes : ℕ
  pub total_keypresses : ℕ
  pub total_releases : ℕ
  pub buffer_overruns : ℕ

-- `kbd_state`
pub record Keyboard : Type 0 where
  pub buffer : List ℕ
  pub read_pos : ℕ
  pub write_pos : ℕ
  pub count : ℕ
  pub flags : ℕ
  pub initialized : Bool
  pub stats : KeyboardStats

-- `keyboard_event_t`
pub record KeyboardEvent : Type 0 where
  pub scancode : ℕ
  pub ascii : ℕ
  pub pressed : Bool
  pub flags : ℕ

unfoldable pub is_shift_pressed : Keyboard → Bool
is_shift_pressed k = not (bit_and k.flags (bit_or (2 ^ flag_lshift) (2 ^ flag_rshift)) == 0)

unfoldable pub is_ctrl_pressed : Keyboard → Bool
is_ctrl_pressed k = byte_test k.flags flag_lctrl

unfoldable pub is_alt_pressed : Keyboard → Bool
is_alt_pressed k = byte_test k.flags flag_lalt

unfoldable pub is_capslock_on : Keyboard → Bool
is_capslock_on k = byte_test k.flags flag_capslock

-- The characters of the tables are below 128, so `char` and `uint8_t` agree on them.
unfoldable pub scancode_to_char : (flags scancode : ℕ) → ℕ
scancode_to_char flags scancode =
    if leb 128 scancode
    then 0
    else let shift_pressed =
        not (bit_and flags (bit_or (2 ^ flag_lshift) (2 ^ flag_rshift)) == 0) in
      let caps_on = byte_test flags flag_capslock in
      let ch =
        if shift_pressed
        then get_or scancode_to_ascii_shifted scancode 0
        else get_or scancode_to_ascii scancode 0 in
      if caps_on && (leb b'a' ch && leb ch b'z') then ch - b'a' + b'A' else ch

unfoldable pub buffer_push : Keyboard → ℕ → Keyboard
buffer_push k ch =
    if leb keyboard_buffer_size k.count
    then record k { stats = record (k.stats) { buffer_overruns = add64 k.stats.buffer_overruns 1 } }
    else record k {
      buffer = set k.buffer k.write_pos ch;
      write_pos = add32 k.write_pos 1 % keyboard_buffer_size;
      count = add32 k.count 1;
    }

unfoldable pub buffer_pop : Keyboard → ℕ × Keyboard
buffer_pop k = if k.count == 0 then (0, k) else (
  get_or k.buffer k.read_pos 0,
  record k { read_pos = add32 k.read_pos 1 % keyboard_buffer_size; count = sub32 k.count 1 },
)

unfoldable pub has_key : Keyboard → Bool
has_key k = ltb 0 k.count

-- One look of the loop of `keyboard_getchar`; `none` means that it halts until an interrupt.
unfoldable pub getchar : Keyboard → Option (ℕ × Keyboard)
getchar k = if has_key k then some (buffer_pop k) else none

-- Not implemented in the source: an empty event.
unfoldable pub get_event : Keyboard → KeyboardEvent
get_event k = record { scancode = 0; ascii = 0; pressed = false; flags = 0 }

unfoldable pub flush_buffer : Keyboard → Keyboard
flush_buffer k = record k { read_pos = 0; write_pos = 0; count = 0 }

unfoldable pub buffer_count : Keyboard → ℕ
buffer_count k = k.count

-- KEYBOARD_STATUS_INPUT_FULL and KEYBOARD_STATUS_OUTPUT_FULL of the status register
abbrev pub input_full : ℕ → Bool
input_full status = byte_test status 1

abbrev pub output_full : ℕ → Bool
output_full status = byte_test status 0

unfoldable pub led_byte : (capslock numlock scrolllock : Bool) → ℕ
led_byte capslock numlock scrolllock =
    let b0 : ℕ = if scrolllock then bit_or 0 0x01 else 0 in
    let b1 : ℕ = if numlock then bit_or b0 0x02 else b0 in if capslock then bit_or b1 0x04 else b1

unfoldable pub set_leds : (capslock numlock scrolllock : Bool) → Io (Unit {0})
set_leds capslock numlock scrolllock = do
  wait_while input_full keyboard_status_port
  outb keyboard_data_port 0xED
  wait_while (λ status. not (output_full status)) keyboard_status_port
  inb keyboard_data_port
  wait_while input_full keyboard_status_port
  outb keyboard_data_port (led_byte capslock numlock scrolllock)
  wait_while (λ status. not (output_full status)) keyboard_status_port
  inb keyboard_data_port
  pure tt

-- The flags after a release of `key`.
unfoldable pub release_flags : (flags key : ℕ) → ℕ
release_flags flags key =
    if key == key_lshift
    then byte_clear flags flag_lshift
    else if key == key_rshift
    then byte_clear flags flag_rshift
    else if key == key_lctrl
    then byte_clear flags flag_lctrl
    else if key == key_lalt
    then byte_clear flags flag_lalt
    else flags

-- A lock key: toggle its flag and show the locks on the LEDs.
unfoldable pub toggle_lock : Keyboard → (flag : ℕ) → Io Keyboard
toggle_lock k flag =
    let flags' = byte_toggle k.flags flag in
    do
      set_leds (byte_test flags' flag_capslock) (byte_test flags' flag_numlock)
          (byte_test flags' flag_scrolllock)
      pure (record k { flags = flags' })

-- Any other key: buffer its character and echo it, if it has one.
unfoldable pub press_plain : Keyboard → (key : ℕ) → Io Keyboard
press_plain k key =
    let ch = scancode_to_char k.flags key in
    if ch == 0 then pure k else do print_char ch; pure (buffer_push k ch)

-- The press of `key`.
unfoldable pub press_key : Keyboard → (key : ℕ) → Io Keyboard
press_key k key =
    if key == key_lshift
    then pure (record k { flags = byte_set k.flags flag_lshift })
    else if key == key_rshift
    then pure (record k { flags = byte_set k.flags flag_rshift })
    else if key == key_lctrl
    then pure (record k { flags = byte_set k.flags flag_lctrl })
    else if key == key_lalt
    then pure (record k { flags = byte_set k.flags flag_lalt })
    else if key == key_capslock
    then toggle_lock k flag_capslock
    else if key == key_numlock
    then toggle_lock k flag_numlock
    else if key == key_scrolllock
    then toggle_lock k flag_scrolllock
    else press_plain k key

-- What the handler does with the scancode that it has read.
unfoldable pub handle_scancode : Keyboard → (scancode : ℕ) → Io Keyboard
handle_scancode k scancode =
    let s = record (k.stats) { total_scancodes = add64 k.stats.total_scancodes 1 } in
    let key = bit_and scancode 0x7F in
    if byte_test scancode 7
    then pure (record k {
      stats = record s { total_releases = add64 s.total_releases 1 };
      flags = release_flags k.flags key;
    })
    else press_key (record k { stats = record s { total_keypresses = add64 s.total_keypresses 1 } })
        key

unfoldable pub irq_handler : Keyboard → Io Keyboard
irq_handler k =
    if not k.initialized
    then pure k
    else do scancode ← inb keyboard_data_port; handle_scancode k scancode

-- The loop of `keyboard_init` that drops what the controller holds: while the status says that
-- there is data, read it.
unfoldable pub drain : List (ℕ × ℕ) → Option (List (ℕ × ℕ))
drain [] = none
drain ((p, status) ∷ []) =
    if p == keyboard_status_port then (if output_full status then none else some []) else none
drain ((p, status) ∷ (q, data_byte) ∷ rs) =
    let rest = drain rs in
    let read = if q == keyboard_data_port then rest else none in
    if p == keyboard_status_port
    then (if output_full status then read else some ((q, data_byte) ∷ rs))
    else none

-- The buffer and `initialized` are the only fields that it keeps; the buffer is empty.
unfoldable pub init : Keyboard → Io Keyboard
init k w = elim (drain w.reads) [
  | none ↦ none
  | some rs ↦ some (
    record k {
      read_pos = 0;
      write_pos = 0;
      count = 0;
      flags = 0;
      initialized = true;
      stats = record {
        total_scancodes = 0;
        total_keypresses = 0;
        total_releases = 0;
        buffer_overruns = 0;
      };
    },
    record w { reads = rs },
  )
]

-- The static initialiser: all zero.
abbrev pub keyboard_boot : Keyboard
keyboard_boot = record {
  buffer = replicate keyboard_buffer_size 0;
  read_pos = 0;
  write_pos = 0;
  count = 0;
  flags = 0;
  initialized = false;
  stats = record {
    total_scancodes = 0;
    total_keypresses = 0;
    total_releases = 0;
    buffer_overruns = 0;
  };
}
