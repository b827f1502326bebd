-- ===== src/Keyboard/Letters.antt =====
-- `scancode_to_char` of kernel/keyboard.c: what shift and caps lock do to a key.
use f_rat_os.Base.{
  ℕ, ◌+◌, ◌-◌, ◌<◌, ◌≡◌, refl, Bool, true, false, not, ◌&&◌, ◌||◌, arith, ltb, leb, ◌==◌,
  if◌then◌else◌, lt→leb, get_or, bit_and,
}
use f_rat_os.Base.Bits.{byte_test, passes_under, passes_under-at}
use f_rat_os.Keyboard.{scancode_to_char}
use f_rat_os.Keyboard.Tables.{scancode_to_ascii, scancode_to_ascii_shifted}

abbrev pub is_lower : ℕ → Bool
is_lower c = leb b'a' c && leb c b'z'

abbrev plain_char : ℕ → ℕ
plain_char scancode = get_or scancode_to_ascii scancode 0

abbrev shifted_char : ℕ → ℕ
shifted_char scancode = get_or scancode_to_ascii_shifted scancode 0

-- The tables agree: the shifted character of a letter is its capital, no other shifted character
-- is a small letter, and all characters are ASCII.
abbrev table_law : ℕ → Bool
table_law scancode =
    (if is_lower (plain_char scancode)
      then shifted_char scancode + 32 == plain_char scancode
      else true)
    && (not (is_lower (shifted_char scancode))
        && (ltb (plain_char scancode) 128 && ltb (shifted_char scancode) 128))

table_laws : passes_under table_law 128 ≡ true
unfolding passes_under
table_laws = refl

-- What the function picks, of the plain character `p` and the shifted one `s`.
abbrev pick : (shift caps : Bool) (p s : ℕ) → ℕ
pick shift caps p s =
    let ch = if shift then s else p in if caps && is_lower ch then ch - b'a' + b'A' else ch

abbrev wanted : (shift caps : Bool) (p s : ℕ) → ℕ
wanted shift caps p s =
    if is_lower p then (if shift || caps then p - 32 else p) else if shift then s else p

abbrev law : (p s : ℕ) → Bool
law p s =
    (if is_lower p then s + 32 == p else true) && (not (is_lower s) && (ltb p 128 && ltb s 128))

pick-wanted :
    (shift caps : Bool) (p s : ℕ)
    → law p s ≡ true
    → (pick shift caps p s ≡ wanted shift caps p s) × (pick shift caps p s < 128)
pick-wanted true true p s h = ground arith
pick-wanted true false p s h = ground arith
pick-wanted false true p s h = ground arith
pick-wanted false false p s h = ground arith

-- For a scancode below 128, with `shift` for either shift flag and `caps` for the caps lock flag:
-- a letter key gives its capital if shift or caps lock is on, also if both are, and its small
-- letter else; any other key gives its shifted character if shift is on, whatever caps lock is,
-- and its plain one else. Every character is below 128.
pub scancode_to_char-letters :
    (flags scancode : ℕ)
    → scancode < 128
    → let shift = not (bit_and flags 3 == 0) in
      let caps = byte_test flags 4 in
      let letter = is_lower (plain_char scancode) in
      (scancode_to_char flags scancode ≡ (
        if letter
        then (if shift || caps then plain_char scancode - 32 else plain_char scancode)
        else if shift
        then shifted_char scancode
        else plain_char scancode))
      × (scancode_to_char flags scancode < 128)
unfolding scancode_to_char
scancode_to_char-letters flags scancode h =
    let shift = not (bit_and flags 3 == 0) in
    let caps = byte_test flags 4 in
    rw (lt→leb 128 scancode h) (
      pick-wanted shift caps (plain_char scancode) (shifted_char scancode)
        (passes_under-at table_law 128 table_laws scancode h))
