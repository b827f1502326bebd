-- ===== src/Console/Tests.antt =====
-- The console at the size of the VGA text mode.
use f_rat_os.Base.{List, [], arith, false, refl, some, true, ℕ, ◌+◌, ◌∷◌, ◌≡◌, ◌≤◌}
use f_rat_os.Console.{
  Console, hex_digit, hex_loop, init, next_row, print_chars, print_dec, print_hex, putchar,
  putchar_at, scroll, vga_entry, vga_memory,
}
use f_rat_os.Console.Screen.{IsValid, OnScreen}
use f_rat_os.Console.Numbers.{dec_value, hex_value, read_number}
use f_rat_os.Console.Line.{chars_at}
use f_rat_os.Console.Calls.{
  Call, calls, decimal, erase, hexadecimal, init-calls, print_number-reads, recolor, text,
}

abbrev dark : Console
dark = record {
  buffer = 0;
  width = 0;
  height = 0;
  row = 0;
  col = 0;
  color = 0;
  is_vga = false;
  cell = λ i. 0;
}

-- The last row and column, where a character sends the cursor back to the top.
abbrev corner : Console
corner = record {
  buffer = vga_memory;
  width = 80;
  height = 25;
  row = 24;
  col = 79;
  color = 7;
  is_vga = true;
  cell = λ i. 0;
}

wraps_to_top : ((putchar 65 corner).row ≡ 0) × ((putchar 65 corner).cell 1999 ≡ 0x741)
unfolding putchar putchar_at next_row scroll vga_entry
wraps_to_top = (refl, refl)

prints_hex : print_hex 20 0xB8000 dark ≡ some dark
unfolding print_hex hex_loop hex_digit print_chars putchar
prints_hex = refl

abbrev some_calls : List Call
some_calls =
    recolor 15 1 ∷ erase ∷ text (some (72 ∷ 105 ∷ 10 ∷ [])) ∷ decimal 1048576 ∷ hexadecimal 0 ∷ []

init-calls_example :
    (d : Console) × (calls 20 some_calls (init 0 0 0 0 dark) ≡ some d)
    × OnScreen (init 0 0 0 0 dark) d
init-calls_example = init-calls 0 0 0 0 20 some_calls dark (omega arith) (omega arith) (omega arith)

abbrev fresh : Console
fresh = record corner { row = 3; col = 5 }

fresh-IsValid : IsValid fresh
fresh-IsValid = omega arith

print_number-reads_example :
    ((n : ℕ) × (d : Console) × (print_dec 20 4096 fresh ≡ some d)
      × (d.row ≡ 3)
      × (d.col ≡ 5 + n)
      × (1 ≤ n)
      × (n ≤ 20)
      × (read_number 10 dec_value 0 (chars_at d 245 n) ≡ 4096))
    × ((n : ℕ) × (d : Console) × (print_hex 20 4096 fresh ≡ some d)
        × (d.row ≡ 3)
        × (d.col ≡ 5 + n + 2)
        × (1 ≤ n)
        × (n ≤ 20)
        × (read_number 16 hex_value 0 (chars_at d 247 n) ≡ 4096))
print_number-reads_example =
    print_number-reads 20 4096 fresh (omega arith) (omega arith) fresh-IsValid refl (omega arith)
