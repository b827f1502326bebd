-- ===== src/Console/Calls.antt =====
-- The calls of kernel/console.h, and the numbers that they leave on the screen.
use f_rat_os.Base.{
  List, Option, [], arith, false, if_elim, length, none, refl, some, ℕ, ◌*◌, ◌+◌, ◌<◌, ◌==◌, ◌^◌,
  ◌∷◌, ◌≡◌, ◌≤◌,
}
use f_rat_os.Base.Loops.{count_up, count_up_inv}
use f_rat_os.Console.{
  Console, clear, clear_row, index_of, init, print, print_chars, print_dec, print_hex, put_cell,
  set_color, vga_entry,
}
use f_rat_os.Console.Screen.{
  IsValid, OnScreen, OnScreen-trans, OnScreen-refl, move-OnScreen, print_chars-OnScreen,
  put_cell-OnScreen,
}
use f_rat_os.Console.Numbers.{
  dec_value, hex_value, print_dec-Numeral, print_hex-Numeral, read_number,
}
use f_rat_os.Console.Line.{chars_at, position, print_chars-Printed}

clear_row-OnScreen : (c : Console) (y : ℕ) → IsValid c → y < c.height → OnScreen c (clear_row y c)
unfolding clear_row
clear_row-OnScreen c y v above =
    count_up_inv (λ x d. put_cell (index_of x y d) (vga_entry 32 d.color) d) (λ x d. OnScreen c d)
      c.width 0 c
      (λ x d lo hi s. OnScreen-trans c d _ s (
        put_cell-OnScreen d s.valid x y (vga_entry 32 d.color) (rw s.width_kept (omega arith))
          (rw s.height_kept above)))
      (OnScreen-refl c v) c.width (omega arith)

clear-OnScreen : (c : Console) → IsValid c → OnScreen c (clear c)
unfolding clear
clear-OnScreen c v =
    if_elim (OnScreen c) (c.buffer == 0) (λ off. OnScreen-refl c v)
      (λ on.
        let rows : OnScreen c (count_up clear_row c.height 0 c) =
          count_up_inv clear_row (λ y d. OnScreen c d) c.height 0 c
            (λ y d lo hi s.
              OnScreen-trans c d _ s
                (clear_row-OnScreen d y s.valid (rw s.height_kept (omega arith))))
            (OnScreen-refl c v) c.height (omega arith) in
        let d = count_up clear_row c.height 0 c in
        OnScreen-trans c d _ rows (move-OnScreen d rows.valid 0 0 rows.valid.wide rows.valid.tall))

set_color-OnScreen : (c : Console) (fg bg : ℕ) → IsValid c → OnScreen c (set_color fg bg c)
unfolding set_color
set_color-OnScreen c fg bg v =
    let recolored = λ (color : ℕ).
      let d : Console = record c { color = color } in
      let same : OnScreen c d = record {
        width_kept = refl;
        height_kept = refl;
        valid = record {
          wide = v.wide;
          tall = v.tall;
          word = v.word;
          row_below = v.row_below;
          col_below = v.col_below;
        };
        outside = λ i far. refl;
      } in
      same in
    if_elim (OnScreen c) c.is_vga (λ e. recolored _) (λ e. recolored _)

-- A call from another part of the kernel
pub data Call : Type 0 where
  text : Option (List ℕ) → Call
  decimal hexadecimal : ℕ → Call
  erase : Call
  recolor : (fg bg : ℕ) → Call

-- The numbers of a call have 64 bits.
abbrev pub IsWord : Call → Type 0
IsWord (decimal num) = num < 2 ^ 64
IsWord (hexadecimal num) = num < 2 ^ 64
IsWord (text str) = Unit {0}
IsWord erase = Unit {0}
IsWord (recolor fg bg) = Unit {0}

abbrev pub AllWords : List Call → Type 0
AllWords [] = Unit {0}
AllWords (k ∷ ks) = IsWord k × AllWords ks

unfoldable pub call : (fuel : ℕ) → Call → Console → Option Console
call fuel (text str) c = some (print str c)
call fuel (decimal num) c = print_dec fuel num c
call fuel (hexadecimal num) c = print_hex fuel num c
call fuel erase c = some (clear c)
call fuel (recolor fg bg) c = some (set_color fg bg c)

unfoldable pub calls : (fuel : ℕ) → List Call → Console → Option Console
calls fuel [] c = some c
calls fuel (k ∷ ks) c = elim (call fuel k c) [ none ↦ none | some d ↦ calls fuel ks d ]

call-OnScreen :
    (fuel : ℕ) (k : Call) (c : Console)
    → 20 ≤ fuel
    → IsWord k
    → IsValid c
    → (d : Console) × (call fuel k c ≡ some d) × OnScreen c d
unfolding call print
call-OnScreen fuel (text none) c enough w v = (c, refl, OnScreen-refl c v)
call-OnScreen fuel (text (some str)) c enough w v =
    (print_chars str c, refl, print_chars-OnScreen str c v)
call-OnScreen fuel (decimal num) c enough w v =
    let (ds, printed, _) = print_dec-Numeral fuel num c w enough in
    (print_chars ds c, printed, print_chars-OnScreen ds c v)
call-OnScreen fuel (hexadecimal num) c enough w v =
    let (ds, printed, _) = print_hex-Numeral fuel num c w (omega arith) in
    let shown = 48 ∷ 120 ∷ ds in (print_chars shown c, printed, print_chars-OnScreen shown c v)
call-OnScreen fuel erase c enough w v = (clear c, refl, clear-OnScreen c v)
call-OnScreen fuel (recolor fg bg) c enough w v =
    (set_color fg bg c, refl, set_color-OnScreen c fg bg v)

calls-OnScreen :
    (fuel : ℕ) (ks : List Call) (c : Console)
    → 20 ≤ fuel
    → AllWords ks
    → IsValid c
    → (d : Console) × (calls fuel ks c ≡ some d) × OnScreen c d
unfolding calls
calls-OnScreen fuel [] c enough w v = (c, refl, OnScreen-refl c v)
calls-OnScreen fuel (k ∷ ks) c enough (w, ws) v =
    let (d, first, s) = call-OnScreen fuel k c enough w v in
    let (e, rest, t) = calls-OnScreen fuel ks d enough ws s.valid in
    (e, rw (calls, first) rest, OnScreen-trans c d e s t)

init-IsValid :
    (framebuffer width height pitch : ℕ) (c : Console)
    → width * height ≤ 2 ^ 32
    → IsValid (init framebuffer width height pitch c)
unfolding init
init-IsValid framebuffer width height pitch c word = ground arith

behind_prefix :
    (d : Console) (i a b : ℕ) (xs : List ℕ)
    → chars_at d i (length (a ∷ b ∷ xs)) ≡ a ∷ b ∷ xs
    → chars_at d (i + 2) (length xs) ≡ xs
behind_prefix d i a b xs e = let place : i + 2 ≡ i + 1 + 1 = omega arith in rw place (cc)

-- From `console_init`, with a screen of at most 2 ^ 32 cells, every sequence of calls with numbers
-- of 64 bits comes to its end, where a number takes 20 rounds of fuel at most; the cursor is then
-- on the screen, whose size is as it was, and no cell outside of it has been written.
pub init-calls :
    (framebuffer width height pitch fuel : ℕ) (ks : List Call) (c : Console)
    → width * height ≤ 2 ^ 32
    → 20 ≤ fuel
    → AllWords ks
    → (d : Console) × (calls fuel ks (init framebuffer width height pitch c) ≡ some d)
      × OnScreen (init framebuffer width height pitch c) d
init-calls framebuffer width height pitch fuel ks c word enough w =
    calls-OnScreen fuel ks (init framebuffer width height pitch c) enough w
      (init-IsValid framebuffer width height pitch c word)

-- `console_print_dec` and `console_print_hex` of a number of 64 bits, on a valid console with a
-- buffer and more than 22 columns behind the cursor: each comes to its end with 20 rounds of fuel,
-- the row of the cursor stays, and the characters of the cells between its two places, for the
-- second without the "0x", read as the number in base 10 and 16; there are 1 to 20 of them.
pub print_number-reads :
    (fuel num : ℕ) (c : Console)
    → num < 2 ^ 64
    → 20 ≤ fuel
    → IsValid c
    → (c.buffer == 0) ≡ false
    → c.col + 22 < c.width
    → ((n : ℕ) × (d : Console) × (print_dec fuel num c ≡ some d)
        × (d.row ≡ c.row)
        × (d.col ≡ c.col + n)
        × (1 ≤ n)
        × (n ≤ 20)
        × (read_number 10 dec_value 0 (chars_at d (position c) n) ≡ num))
      × ((n : ℕ) × (d : Console) × (print_hex fuel num c ≡ some d)
          × (d.row ≡ c.row)
          × (d.col ≡ c.col + n + 2)
          × (1 ≤ n)
          × (n ≤ 20)
          × (read_number 16 hex_value 0 (chars_at d (position c + 2) n) ≡ num))
print_number-reads fuel num c small enough v on room =
    let (ds, printed, q) = print_dec-Numeral fuel num c small enough in
    let p = print_chars-Printed ds c v on q.visible (omega (arith, q.few)) in
    let (hs, hex_printed, r) = print_hex-Numeral fuel num c small (omega arith) in
    let shown = 48 ∷ 120 ∷ hs in
    let d = print_chars shown c in
    let s =
      print_chars-Printed shown c v on
        (omega arith, omega arith, (omega arith, omega arith, r.visible)) (omega (arith, r.few)) in
    (
      (
        length ds,
        print_chars ds c,
        printed,
        p.row_kept,
        p.col_moves,
        q.some_digit,
        q.few,
        rw p.shows q.reads,
      ),
      (
        length hs,
        d,
        hex_printed,
        s.row_kept,
        omega (arith, s.col_moves),
        r.some_digit,
        r.few,
        rw (behind_prefix d (position c) 48 120 hs s.shows) r.reads,
      ),
    )
