-- ===== src/Console/Line.antt =====
-- Text that fits into the row of the cursor, in the cells of kernel/console.c.
use f_rat_os.Base.{
  ==_self, List, [], add32, ap, arith, false, leb, length, refl, suc, zero, ℕ, ◌%◌, ◌*◌, ◌+◌, ◌<◌,
  ◌==◌, ◌^◌, ◌∙◌, ◌∷◌, ◌≡◌, ◌≤◌,
}
use f_rat_os.Task.{update}
use f_rat_os.Console.{Console, print_chars, putchar, putchar_at, vga_entry}
use f_rat_os.Console.Screen.{IsValid, index_below}
use f_rat_os.Console.Numbers.{AllVisible}

-- The cell of the cursor.
abbrev pub position : Console → ℕ
position c = c.row * c.width + c.col

-- The characters in `n` cells from `i` on.
abbrev pub chars_at : Console → (i n : ℕ) → List ℕ
chars_at c i zero = []
chars_at c i (suc n) = (c.cell i % 256) ∷ chars_at c (i + 1) n

-- `d` is `c` with `str` behind the cursor.
pub record Printed (c : Console) (str : List ℕ) (d : Console) : Type 0 where
  pub shows : chars_at d (position c) (length str) ≡ str
  pub before : (i : ℕ) → i < position c → d.cell i ≡ c.cell i
  pub col_moves : d.col ≡ c.col + length str
  pub row_kept : d.row ≡ c.row

-- One character that takes a cell, with room behind it.
module _ (c : Console) (ch : ℕ) (v : IsValid c) (on : (c.buffer == 0) ≡ false) (low : 32 ≤ ch)
    (byte : ch < 256) (room : c.col + 1 < c.width) where
  in_screen : position c < 2 ^ 32
  in_screen =
      let inside : position c < c.width * c.height =
        index_below c.col c.row c.width c.height v.col_below v.row_below in
      let word = v.word in omega arith

  narrow : c.width ≤ 2 ^ 32
  narrow =
      let wide : c.width ≤ c.width * c.height = grind (arith, v.tall) in
      let word = v.word in omega arith

  putchar_here :
      putchar ch c
      ≡ record c { col = c.col + 1; cell = update c.cell (position c) (vga_entry ch c.color) }
  unfolding putchar putchar_at
  putchar_here =
      let here : (c.row * c.width + c.col) % 2 ^ 32 ≡ position c = omega (arith, in_screen) in
      let next : add32 c.col 1 ≡ c.col + 1 = omega (arith, narrow) in
      let not_newline : (ch == 10) ≡ false = ground arith in
      let not_return : (ch == 13) ≡ false = ground arith in
      let not_tab : (ch == 9) ≡ false = ground arith in
      let fits : leb c.width (c.col + 1) ≡ false = ground arith in
      simp (on, not_newline, not_return, not_tab, here, next, fits) refl

low_byte : (ch color : ℕ) → ch < 256 → vga_entry ch color % 256 ≡ ch
unfolding vga_entry
low_byte ch color byte = omega arith

-- The cursor and the cells after one character.
abbrev after_char : Console → (ch : ℕ) → Console
after_char c ch = record c {
  col = c.col + 1;
  cell = update c.cell (position c) (vga_entry ch c.color);
}

Printed-cons :
    (c : Console) (ch : ℕ) (str : List ℕ) (d : Console)
    → ch < 256
    → Printed (after_char c ch) str d
    → Printed c (ch ∷ str) d
Printed-cons c ch str d byte p =
    let behind : position (after_char c ch) ≡ position c + 1 = omega arith in
    let own : d.cell (position c) ≡ vga_entry ch c.color =
      p.before (position c) (omega arith) ∙ simp (==_self (position c)) refl in
    record {
      shows =
          rw (own, low_byte ch c.color byte) (ap (λ (l : List ℕ). ch ∷ l) (rw (← behind) p.shows));
      before = λ i early.
          p.before i (omega arith)
          ∙ (let other : (i == position c) ≡ false = ground arith in simp other refl);
      col_moves = omega (arith, p.col_moves);
      row_kept = p.row_kept;
    }

-- Visible text that fits into the row stands in the cells from the cursor on, and the cursor behind.
pub print_chars-Printed :
    (str : List ℕ) (c : Console)
    → IsValid c
    → (c.buffer == 0) ≡ false
    → AllVisible str
    → c.col + length str < c.width
    → Printed c str (print_chars str c)
unfolding print_chars
print_chars-Printed [] c v on shown room = record {
  shows = refl;
  before = λ i early. refl;
  col_moves = omega arith;
  row_kept = refl;
}
print_chars-Printed (ch ∷ str) c v on (low, byte, shown) room =
    let d = after_char c ch in
    let valid : IsValid d = record {
      wide = v.wide;
      tall = v.tall;
      word = v.word;
      row_below = v.row_below;
      col_below = omega arith;
    } in
    rw (putchar_here c ch v on low byte (omega arith)) (
      Printed-cons c ch str (print_chars str d) byte
        (print_chars-Printed str d valid on shown (omega arith)))
