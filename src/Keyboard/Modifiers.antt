-- ===== src/Keyboard/Modifiers.antt =====
-- The modifier and lock flags of kernel/keyboard.c follow the keys, and the driver's invariant.
use f_rat_os.Keyboard.Returns.{Answers, handle_scancode-returns}
use f_rat_os.Base.{
  Bool, Bool-cases, List, add64, arith, false, if◌then◌else◌, inl, inr, not, some, true, ℕ, ◌&&◌,
  ◌<◌, ◌==◌, ◌∷◌, ◌≡◌,
}
use f_rat_os.Base.Bits.{
  byte_clear-lt, byte_set-lt, byte_test, byte_test-clear, byte_test-set, byte_test-toggle,
  byte_toggle-lt,
}
use f_rat_os.Fifo.{enqueue}
use f_rat_os.Io.{World, inb}
use f_rat_os.Keyboard.{
  Keyboard, buffer_push, handle_scancode, irq_handler, release_flags, scancode_to_char,
}
use f_rat_os.Keyboard.Buffer.{IsRing, buffer_push-IsRing, buffer_push_refines, contents}
use f_rat_os.Keyboard.Step.{after, counted_press, holds, key_of, locks, pressed, special}

flags-push : (k : Keyboard) (x : ℕ) → (buffer_push k x).flags ≡ k.flags
unfolding buffer_push
flags-push k x = ground arith

module _ (k : Keyboard) (small : k.flags < 256) (key : ℕ) where
  pressed-flags :
      (j : ℕ)
      → j < 8
      → byte_test (pressed k key).flags j ≡ (
          if holds key j
          then true
          else if locks key j
          then not (byte_test k.flags j)
          else byte_test k.flags j)
  pressed-flags j hj = ground (
    arith,
    byte_test-set k.flags 0 small (omega arith) j hj,
    byte_test-set k.flags 1 small (omega arith) j hj,
    byte_test-set k.flags 2 small (omega arith) j hj,
    byte_test-set k.flags 3 small (omega arith) j hj,
    byte_test-toggle k.flags 4 small (omega arith) j hj,
    byte_test-toggle k.flags 5 small (omega arith) j hj,
    byte_test-toggle k.flags 6 small (omega arith) j hj,
    flags-push k (scancode_to_char k.flags key),
  )

  pressed-small : (pressed k key).flags < 256
  pressed-small = ground (
    arith,
    byte_set-lt k.flags 0 small (omega arith),
    byte_set-lt k.flags 1 small (omega arith),
    byte_set-lt k.flags 2 small (omega arith),
    byte_set-lt k.flags 3 small (omega arith),
    byte_toggle-lt k.flags 4 small (omega arith),
    byte_toggle-lt k.flags 5 small (omega arith),
    byte_toggle-lt k.flags 6 small (omega arith),
    flags-push k (scancode_to_char k.flags key),
  )

  release_flags-bits :
      (j : ℕ)
      → j < 8
      → byte_test (release_flags k.flags key) j
        ≡ (if holds key j then false else byte_test k.flags j)
  unfolding release_flags
  release_flags-bits j hj = ground (
    arith,
    byte_test-clear k.flags 0 small (omega arith) j hj,
    byte_test-clear k.flags 1 small (omega arith) j hj,
    byte_test-clear k.flags 2 small (omega arith) j hj,
    byte_test-clear k.flags 3 small (omega arith) j hj,
  )

  release_flags-small : release_flags k.flags key < 256
  unfolding release_flags
  release_flags-small = ground (
    arith,
    byte_clear-lt k.flags 0 small (omega arith),
    byte_clear-lt k.flags 1 small (omega arith),
    byte_clear-lt k.flags 2 small (omega arith),
    byte_clear-lt k.flags 3 small (omega arith),
  )

-- The driver's invariant: a ring buffer, flags that are a byte, and as many scancodes as presses
-- and releases together.
pub record IsValid (k : Keyboard) : Type 0 where
  pub ring : IsRing k
  pub flags_byte : k.flags < 256
  pub counted : add64 k.stats.total_keypresses k.stats.total_releases ≡ k.stats.total_scancodes

-- What a flag is after a scancode: a held key's flag is on exactly while the key is down, a lock's
-- flag turns over at each press, and no other key and no release of a lock changes a flag.
abbrev pub flag_after : (flags scancode j : ℕ) → Bool
flag_after flags scancode j =
    let key = key_of scancode in
    let old = byte_test flags j in
    if byte_test scancode 7
    then (if holds key j then false else old)
    else if holds key j
    then true
    else if locks key j
    then not old
    else old

after-flags :
    (k : Keyboard) (scancode : ℕ)
    → k.flags < 256
    → (j : ℕ) → j < 8
    → byte_test (after k scancode).flags j ≡ flag_after k.flags scancode j
after-flags k scancode small j hj = elim (Bool-cases (byte_test scancode 7)) [
  | inl up ↦ rw up (release_flags-bits k small (key_of scancode) j hj)
  | inr down ↦ rw down (pressed-flags (counted_press k) small (key_of scancode) j hj)
]

-- The handler of a scancode, given the answers that it waits for, comes back with those alone
-- consumed, and each of the eight flags is then what `flag_after` says: a held modifier's is on
-- after a press of its key and off after a release, a lock's turns over at each press, and nothing
-- else changes a flag.
pub handle_scancode-flags :
    (k : Keyboard) (scancode : ℕ) (w : World) (rest : List (ℕ × ℕ))
    → k.flags < 256
    → Answers scancode w.reads rest
    → (k' : Keyboard) × (w' : World) × (handle_scancode k scancode w ≡ some (k', w'))
      × (w'.reads ≡ rest)
      × ((j : ℕ) → j < 8 → byte_test k'.flags j ≡ flag_after k.flags scancode j)
handle_scancode-flags k scancode w rest small a =
    let (w', e, r) = handle_scancode-returns k scancode w rest a in
    (after k scancode, w', e, r, after-flags k scancode small)

-- A press that the driver does not take for itself, of a key with a character.
abbrev pub types : (flags scancode : ℕ) → Bool
types flags scancode =
    not (byte_test scancode 7)
    && (not (special (key_of scancode)) && not (scancode_to_char flags (key_of scancode) == 0))

module _ {k : Keyboard} (v : IsRing k) (scancode : ℕ) where
  counted_press-IsRing : IsRing (counted_press k)
  counted_press-IsRing = ground arith

  after-contents : contents (after k scancode) ≡ (
      if types k.flags scancode
      then enqueue 256 (contents k) (scancode_to_char k.flags (key_of scancode))
      else contents k)
  after-contents =
      ground (
        arith,
        buffer_push_refines counted_press-IsRing (scancode_to_char k.flags (key_of scancode)),
      )

  after-IsRing : IsRing (after k scancode)
  after-IsRing =
      ground (
        arith,
        buffer_push-IsRing counted_press-IsRing (scancode_to_char k.flags (key_of scancode)),
      )

counts-push :
    (k : Keyboard) (x : ℕ)
    → ((buffer_push k x).stats.total_scancodes ≡ k.stats.total_scancodes)
      × ((buffer_push k x).stats.total_keypresses ≡ k.stats.total_keypresses)
      × ((buffer_push k x).stats.total_releases ≡ k.stats.total_releases)
unfolding buffer_push
counts-push k x = ground arith

after-IsValid : {k : Keyboard} (scancode : ℕ) → IsValid k → IsValid (after k scancode)
after-IsValid {k} scancode v = record {
  ring = after-IsRing v.ring scancode;
  flags_byte = elim (Bool-cases (byte_test scancode 7)) [
    | inl up ↦ rw up (release_flags-small k v.flags_byte (key_of scancode))
    | inr down ↦ rw down (pressed-small (counted_press k) v.flags_byte (key_of scancode))
  ];
  counted = ground (
    arith,
    v.counted,
    counts-push (counted_press k) (scancode_to_char k.flags (key_of scancode)),
  );
}

-- One interrupt of a valid, initialised driver that reads `scancode` from the data port, given the answers that the
-- handler waits for: it comes back with those alone consumed, and the driver is valid; its queue
-- has got the key's character at the end, if the scancode is a press that types one and fewer than
-- 256 wait, and is else as it was.
pub irq_handler-contents :
    {k : Keyboard} (scancode : ℕ) (more rest : List (ℕ × ℕ)) (w : World)
    → IsValid k
    → k.initialized ≡ true
    → w.reads ≡ (0x60, scancode) ∷ more
    → Answers scancode more rest
    → (k' : Keyboard) × (w' : World) × (irq_handler k w ≡ some (k', w'))
      × (w'.reads ≡ rest)
      × IsValid k'
      × (contents k' ≡ (
          if types k.flags scancode
          then enqueue 256 (contents k) (scancode_to_char k.flags (key_of scancode))
          else contents k))
unfolding irq_handler inb
irq_handler-contents {k} scancode more rest w v on e a =
    let (w', h, r) = handle_scancode-returns k scancode (record w { reads = more }) rest a in
    (
      after k scancode,
      w',
      ground (arith, on, e, h),
      r,
      after-IsValid scancode v,
      after-contents v.ring scancode,
    )
