-- ===== src/Keyboard/Returns.antt =====
-- The interrupt handler of kernel/keyboard.c comes back: at once, or for a lock key when the
-- controller has taken the LED byte.
use f_rat_os.Base.{
  Bool, Bool-cases, List, [], ap, arith, false, if_elim, inl, inr, refl, some, true, ℕ, ◌++◌, ◌==◌,
  ◌||◌, ◌∙◌, ◌∷◌, ◌≡◌,
}
use f_rat_os.Base.Bits.{byte_test, byte_toggle}
use f_rat_os.Io.{Io, World, print_char, pure}
use f_rat_os.Keyboard.{
  Keyboard, buffer_push, handle_scancode, key_capslock, key_numlock, key_scrolllock, led_byte,
  press_key, press_plain, scancode_to_char, toggle_lock,
}
use f_rat_os.Keyboard.Leds.{Dialogue, set_leds-returns}
use f_rat_os.Keyboard.Step.{after, counted_press, handle_scancode-after, key_of}

-- The keys whose press sets the LEDs.
abbrev pub lights : (key : ℕ) → Bool
lights key = key == key_capslock || (key == key_numlock || key == key_scrolllock)

-- What the devices answer to the handler of `scancode`: the LED dialogue for the press of a lock
-- key, and nothing else.
pub record Answers (scancode : ℕ) (reads rest : List (ℕ × ℕ)) : Type 0 where
  pub shown : byte_test scancode 7 ≡ false → lights (key_of scancode) ≡ true → Dialogue reads rest
  pub silent_key : lights (key_of scancode) ≡ false → reads ≡ rest
  pub silent_release : byte_test scancode 7 ≡ true → reads ≡ rest

-- The run ends, and leaves the answers `rest`.
abbrev Returns : Io Keyboard → World → List (ℕ × ℕ) → Type 0
Returns m w rest = (k' : Keyboard) × (w' : World) × (m w ≡ some (k', w')) × (w'.reads ≡ rest)

module _ (k : Keyboard) (w : World) (rest : List (ℕ × ℕ)) where
  pure-Returns : (k' : Keyboard) → w.reads ≡ rest → Returns (pure k') w rest
  pure-Returns k' e = (k', w, refl, e)

  toggle_lock-Returns : (flag : ℕ) → Dialogue w.reads rest → Returns (toggle_lock k flag) w rest
  unfolding toggle_lock
  toggle_lock-Returns flag d =
      let flags' = byte_toggle k.flags flag in
      let sent =
        set_leds-returns (byte_test flags' 4) (byte_test flags' 5) (byte_test flags' 6) w rest d in
      let sent_bytes =
        (w.writes ++ ((0x60, 0xED) ∷ []))
        ++ ((0x60, led_byte (byte_test flags' 4) (byte_test flags' 5) (byte_test flags' 6)) ∷ []) in
      (
        record k { flags = flags' },
        record { reads = rest; writes = sent_bytes; printed = w.printed },
        ground (arith, sent),
        refl,
      )

  press_plain-Returns : (key : ℕ) → w.reads ≡ rest → Returns (press_plain k key) w rest
  unfolding press_plain print_char
  press_plain-Returns key e =
      let ch = scancode_to_char k.flags key in
      if_elim (λ m. Returns m w rest) (ch == 0) (λ _. pure-Returns k e)
        (λ _. (buffer_push k ch, record w { printed = w.printed ++ (ch ∷ []) }, refl, e))

  press_key-Returns :
      (key : ℕ)
      → (lights key ≡ true → Dialogue w.reads rest)
      → (lights key ≡ false → w.reads ≡ rest)
      → Returns (press_key k key) w rest
  unfolding press_key
  press_key-Returns key shown silent =
      if_elim P (key == 42) (λ e. pure-Returns _ (silent (ground arith)))
        λ a.
          if_elim P (key == 54) (λ e. pure-Returns _ (silent (ground arith)))
            λ b.
              if_elim P (key == 29) (λ e. pure-Returns _ (silent (ground arith)))
                λ c.
                  if_elim P (key == 56) (λ e. pure-Returns _ (silent (ground arith)))
                    λ d.
                      if_elim P (key == key_capslock)
                        (λ e. toggle_lock-Returns _ (shown (ground arith)))
                        λ f.
                          if_elim P (key == key_numlock)
                            (λ e. toggle_lock-Returns _ (shown (ground arith)))
                            λ g.
                              if_elim P (key == key_scrolllock)
                                (λ e. toggle_lock-Returns _ (shown (ground arith)))
                                (λ h. press_plain-Returns key (silent (ground arith)))
    where
      P : Io Keyboard → Type 0
      P m = Returns m w rest

handle_scancode-Returns :
    (k : Keyboard) (scancode : ℕ) (w : World) (rest : List (ℕ × ℕ))
    → Answers scancode w.reads rest
    → Returns (handle_scancode k scancode) w rest
unfolding handle_scancode
handle_scancode-Returns k scancode w rest a = elim (Bool-cases (byte_test scancode 7)) [
  | inl up ↦ rw up (pure-Returns k w rest _ (a.silent_release up))
  | inr down ↦
      rw down
        (press_key-Returns (counted_press k) w rest (key_of scancode) (a.shown down) a.silent_key)
]

-- With the answers that it waits for, the handler comes back, and leaves no other state than
-- `after`.
pub handle_scancode-returns :
    (k : Keyboard) (scancode : ℕ) (w : World) (rest : List (ℕ × ℕ))
    → Answers scancode w.reads rest
    → (w' : World) × (handle_scancode k scancode w ≡ some (after k scancode, w'))
      × (w'.reads ≡ rest)
handle_scancode-returns k scancode w rest a =
    let (k', w', e, r) = handle_scancode-Returns k scancode w rest a in
    let same = handle_scancode-after k scancode w {k' = k'} {w' = w'} e in
    (w', e ∙ ap (λ (x : Keyboard). some (x, w')) same, r)
