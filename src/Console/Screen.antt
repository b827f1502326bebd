-- ===== src/Console/Screen.antt =====
-- The cursor of kernel/console.c stays on the screen, and so does every write.
use f_rat_os.Base.{
  List, [], add32, arith, false, if_elim, if◌then◌else◌, leb, leb→gt, refl, ℕ, ◌%◌, ◌*◌, ◌+◌, ◌/◌,
  ◌<◌, ◌==◌, ◌^◌, ◌∙◌, ◌∷◌, ◌≡◌, ◌≤◌,
}
use f_rat_os.Console.{
  Console, index_of, next_row, print_chars, put_cell, putchar, putchar_at, scroll, vga_entry,
}

pub record IsValid (c : Console) : Type 0 where
  pub wide : 0 < c.width
  pub tall : 0 < c.height
  pub word : c.width * c.height ≤ 2 ^ 32
  pub row_below : c.row < c.height
  pub col_below : c.col < c.width

-- From `c` to `d` the size stays, `d` is valid, and only cells of the screen have changed.
pub record OnScreen (c d : Console) : Type 0 where
  pub width_kept : d.width ≡ c.width
  pub height_kept : d.height ≡ c.height
  pub valid : IsValid d
  pub outside : (i : ℕ) → c.width * c.height ≤ i → d.cell i ≡ c.cell i

pub OnScreen-refl : (c : Console) → IsValid c → OnScreen c c
OnScreen-refl c v = record {
  width_kept = refl;
  height_kept = refl;
  valid = v;
  outside = λ i far. refl;
}

pub OnScreen-trans : (c d e : Console) → OnScreen c d → OnScreen d e → OnScreen c e
OnScreen-trans c d e s t = record {
  width_kept = t.width_kept ∙ s.width_kept;
  height_kept = t.height_kept ∙ s.height_kept;
  valid = t.valid;
  outside = λ i far. t.outside i (rw (s.width_kept, s.height_kept) far) ∙ s.outside i far;
}

pub index_below : (x y w h : ℕ) → x < w → y < h → y * w + x < w * h
index_below x y w h left above = grind arith

-- A cursor on the screen points at a cell of it.
index_bound : (x y w h : ℕ) → x < w → y < h → w * h ≤ 2 ^ 32 → ((y * w + x) % 2 ^ 32) < w * h
index_bound x y w h left above word = let low = index_below x y w h left above in omega arith

-- A write at a position of the screen.
module _ (c : Console) (v : IsValid c) where
  pub put_cell-OnScreen :
      (x y entry : ℕ) → x < c.width → y < c.height → OnScreen c (put_cell (index_of x y c) entry c)
  put_cell-OnScreen x y entry left above =
      let bound = index_bound x y c.width c.height left above v.word in
      record {
        width_kept = refl;
        height_kept = refl;
        valid = record {
          wide = v.wide;
          tall = v.tall;
          word = v.word;
          row_below = v.row_below;
          col_below = v.col_below;
        };
        outside = λ i far. ground arith;
      }

  pub move-OnScreen :
      (x y : ℕ) → x < c.width → y < c.height → OnScreen c (record c { row = y; col = x })
  move-OnScreen x y left above = record {
    width_kept = refl;
    height_kept = refl;
    valid = record {
      wide = v.wide;
      tall = v.tall;
      word = v.word;
      row_below = above;
      col_below = left;
    };
    outside = λ i far. refl;
  }

  pub next_row-OnScreen :
      (x : ℕ) → (c.buffer == 0) ≡ false → x < c.width → OnScreen c (next_row (record c { col = x }))
  unfolding next_row scroll
  next_row-OnScreen x on left =
      if_elim (OnScreen c) (leb c.height (add32 c.row 1))
        (λ full. rw on (move-OnScreen 0 0 v.wide v.tall))
        (λ room. move-OnScreen x (add32 c.row 1) left (leb→gt _ _ room))

  pub tab-OnScreen :
      (c.buffer == 0) ≡ false
      → OnScreen c (
          if leb c.width (add32 c.col 8 / 8 * 8)
          then next_row (record c { col = 0 })
          else record c { col = add32 c.col 8 / 8 * 8 })
  tab-OnScreen on =
      if_elim (OnScreen c) (leb c.width (add32 c.col 8 / 8 * 8))
        (λ full. next_row-OnScreen 0 on v.wide)
        (λ room. move-OnScreen (add32 c.col 8 / 8 * 8) c.row (leb→gt _ _ room) v.row_below)

-- What a visible character writes, and the step to the next column.
pub advance-OnScreen :
    (c : Console)
    → IsValid c
    → (c.buffer == 0) ≡ false
    → OnScreen c (
        if leb c.width (add32 c.col 1)
        then next_row (record c { col = 0 })
        else record c { col = add32 c.col 1 })
advance-OnScreen c v on =
    if_elim (OnScreen c) (leb c.width (add32 c.col 1)) (λ full. next_row-OnScreen c v 0 on v.wide)
      (λ room. move-OnScreen c v (add32 c.col 1) c.row (leb→gt _ _ room) v.row_below)

pub visible-OnScreen :
    (c : Console) (ch : ℕ)
    → IsValid c
    → (c.buffer == 0) ≡ false
    → OnScreen c (
        let put = putchar_at ch c.color c.col c.row c in
        if leb put.width (add32 put.col 1)
        then next_row (record put { col = 0 })
        else record put { col = add32 put.col 1 })
unfolding putchar_at
visible-OnScreen c ch v on =
    let d = put_cell (index_of c.col c.row c) (vga_entry ch c.color) c in
    let wrote = put_cell-OnScreen c v c.col c.row (vga_entry ch c.color) v.col_below v.row_below in
    rw on (OnScreen-trans c d _ wrote (advance-OnScreen d wrote.valid on))

pub putchar-OnScreen : (c : Console) (ch : ℕ) → IsValid c → OnScreen c (putchar ch c)
unfolding putchar
putchar-OnScreen c ch v =
    if_elim (OnScreen c) (c.buffer == 0) (λ off. OnScreen-refl c v)
      (λ on.
        if_elim (OnScreen c) (ch == 10) (λ e. next_row-OnScreen c v 0 on v.wide)
          (λ e.
            if_elim (OnScreen c) (ch == 13) (λ e. move-OnScreen c v 0 c.row v.wide v.row_below)
              (λ e.
                if_elim (OnScreen c) (ch == 9) (λ e. tab-OnScreen c v on)
                  (λ e. visible-OnScreen c ch v on))))

pub print_chars-OnScreen : (str : List ℕ) (c : Console) → IsValid c → OnScreen c (print_chars str c)
unfolding print_chars
print_chars-OnScreen [] c v = OnScreen-refl c v
print_chars-OnScreen (ch ∷ str) c v =
    let first = putchar-OnScreen c ch v in
    OnScreen-trans c (putchar ch c) (print_chars str (putchar ch c)) first
      (print_chars-OnScreen str (putchar ch c) first.valid)
