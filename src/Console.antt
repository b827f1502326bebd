-- ===== src/Console.antt =====
-- kernel/console.c and kernel/console.h: the text console. A character is a byte, a string the list
-- of those before its NUL, and the screen a store of 16-bit cells by their indices in the buffer.
pub mod Screen
pub mod Numbers
pub mod Line
pub mod Calls
mod Tests
use f_rat_os.Base.{
  Bool, List, Option, [], add32, bit_or, codes, false, if◌then◌else◌, leb, ltb, none, not, some,
  suc, true, zero, ℕ, ◌%◌, ◌&&◌, ◌*◌, ◌+◌, ◌-◌, ◌/◌, ◌==◌, ◌^◌, ◌∷◌,
}
use f_rat_os.Base.Loops.{count_up}
use f_rat_os.Task.{update}
use Prim.Native.String.{String}

-- VGA_WIDTH, VGA_HEIGHT and VGA_MEMORY
abbrev pub vga_width : ℕ
vga_width = 80

abbrev pub vga_height : ℕ
vga_height = 25

abbrev pub vga_memory : ℕ
vga_memory = 0xB8000

-- VGA_COLOR_BLACK and VGA_COLOR_LIGHT_GREY
abbrev pub vga_color_black : ℕ
vga_color_black = 0

abbrev pub vga_color_light_grey : ℕ
vga_color_light_grey = 7

-- `console`, with the cells of its buffer; the buffer at 0 is NULL.
pub record Console : Type 0 where
  pub buffer : ℕ
  pub width : ℕ
  pub height : ℕ
  pub row : ℕ
  pub col : ℕ
  pub color : ℕ
  pub is_vga : Bool
  pub cell : ℕ → ℕ

-- The result is a byte.
unfoldable pub vga_entry_color : (fg bg : ℕ) → ℕ
vga_entry_color fg bg = bit_or fg (bg * 16) % 256

-- The character is in the low byte, the colour in the high byte.
unfoldable pub vga_entry : (uc color : ℕ) → ℕ
vga_entry uc color = (uc % 256 + color * 256) % 2 ^ 16

-- The cells are those of the buffer that is chosen.
unfoldable pub init : (framebuffer width height pitch : ℕ) → Console → Console
init framebuffer width height pitch c =
    let shown =
      if not (framebuffer == 0) && ltb 0 width && ltb 0 height
      then record c { buffer = framebuffer; width = width; height = height; is_vga = false }
      else record c {
        buffer = vga_memory;
        width = vga_width;
        height = vga_height;
        is_vga = true;
      } in
    record shown { row = 0; col = 0; color = vga_entry_color vga_color_light_grey vga_color_black }

-- `y * width + x` on 32 bits
abbrev pub index_of : (x y : ℕ) → Console → ℕ
index_of x y c = (y * c.width + x) % 2 ^ 32

abbrev pub put_cell : (index entry : ℕ) → Console → Console
put_cell index entry c = record c { cell = update c.cell index entry }

-- The inner loop of `console_clear`.
unfoldable pub clear_row : (y : ℕ) → Console → Console
clear_row y c = count_up (λ x d. put_cell (index_of x y d) (vga_entry 32 d.color) d) c.width 0 c

unfoldable pub clear : Console → Console
clear c = if c.buffer == 0 then c else record (count_up clear_row c.height 0 c) { row = 0; col = 0 }

-- The code that would move the lines up is disabled: the cursor goes back to the top.
unfoldable pub scroll : Console → Console
scroll c = if c.buffer == 0 then c else record c { row = 0; col = 0 }

unfoldable pub putchar_at : (ch color x y : ℕ) → Console → Console
putchar_at ch color x y c =
    if c.buffer == 0 then c else put_cell (index_of x y c) (vga_entry ch color) c

-- `if (++console.row >= console.height) console_scroll()`
unfoldable pub next_row : Console → Console
next_row c =
    let moved = record c { row = add32 c.row 1 } in
    if leb moved.height moved.row then scroll moved else moved

unfoldable pub putchar : (ch : ℕ) → Console → Console
putchar ch c =
    let tabbed = record c { col = add32 c.col 8 / 8 * 8 } in
    let put = putchar_at ch c.color c.col c.row c in
    let moved = record put { col = add32 put.col 1 } in
    if c.buffer == 0
    then c
    else if ch == 10
    then next_row (record c { col = 0 })
    else if ch == 13
    then record c { col = 0 }
    else if ch == 9
    then (if leb tabbed.width tabbed.col then next_row (record tabbed { col = 0 }) else tabbed)
    else if leb moved.width moved.col
    then next_row (record moved { col = 0 })
    else moved

-- `console_print`; `none` is NULL.
unfoldable pub print_chars : List ℕ → Console → Console
print_chars [] c = c
print_chars (ch ∷ str) c = print_chars str (putchar ch c)

unfoldable pub print : Option (List ℕ) → Console → Console
print none c = c
print (some str) c = print_chars str c

-- A message of the kernel.
abbrev pub print_text : String → Console → Console
print_text s c = print_chars (codes s) c

-- The loops of `console_print_dec` and `console_print_hex` that write the digits, the lowest first,
-- to the buffer; it is taken from the end, so the last that was written stands first here.
unfoldable pub dec_loop : (fuel num : ℕ) → (buffer : List ℕ) → Option (List ℕ)
dec_loop zero num buffer = if num == 0 then some buffer else none
dec_loop (suc n) num buffer =
    let rest = dec_loop n (num / 10) ((b'0' + num % 10) ∷ buffer) in
    if num == 0 then some buffer else rest

unfoldable pub print_dec : (fuel num : ℕ) → Console → Option Console
print_dec fuel num c =
    let printed : Option Console = elim (dec_loop fuel num []) [
      | none ↦ none
      | some buffer ↦ some (print_chars buffer c)
    ] in
    if num == 0 then some (putchar b'0' c) else printed

-- A digit of "0123456789ABCDEF"
unfoldable pub hex_digit : ℕ → ℕ
hex_digit d = if ltb d 10 then b'0' + d else b'A' + d - 10

unfoldable pub hex_loop : (fuel num : ℕ) → (temp : List ℕ) → Option (List ℕ)
hex_loop zero num temp = if num == 0 then some temp else none
hex_loop (suc n) num temp =
    let rest = hex_loop n (num / 16) (hex_digit (num % 16) ∷ temp) in
    if num == 0 then some temp else rest

unfoldable pub print_hex : (fuel num : ℕ) → Console → Option Console
print_hex fuel num c =
    let printed : Option Console = elim (hex_loop fuel num []) [
      | none ↦ none
      | some temp ↦ some (print_chars (b'0' ∷ b'x' ∷ temp) c)
    ] in
    if num == 0 then some (print_chars (b'0' ∷ b'x' ∷ b'0' ∷ []) c) else printed

-- The arguments are cut to bytes.
unfoldable pub set_color : (fg bg : ℕ) → Console → Console
set_color fg bg c =
    if c.is_vga
    then record c { color = vga_entry_color (fg % 256) (bg % 256) }
    else record c { color = vga_entry_color vga_color_light_grey vga_color_black }
