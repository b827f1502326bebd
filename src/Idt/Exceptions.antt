-- ===== src/Idt/Exceptions.antt =====
-- `exception_handler` of kernel/idt.c, up to the loop that halts the processor.
use f_rat_os.Base.{
  Bool-cases, List, Option, [], arith, codes, if◌then◌else◌, inl, inr, length, ltb, ltb→lt, none,
  refl, some, suc, zero, ℕ, ◌++◌, ◌<◌, ◌^◌, ◌∷◌, ◌≡◌, ◌≤◌,
}
use f_rat_os.Console.{Console, print_chars, print_hex, print_text}
use f_rat_os.Console.Screen.{IsValid, OnScreen, OnScreen-trans, OnScreen-refl, print_chars-OnScreen}
use f_rat_os.Console.Numbers.{print_hex-Numeral}
use Prim.Native.String.{String}

-- `interrupt_frame_t`
pub record InterruptFrame : Type 0 where
  pub r15 : ℕ
  pub r14 : ℕ
  pub r13 : ℕ
  pub r12 : ℕ
  pub r11 : ℕ
  pub r10 : ℕ
  pub r9 : ℕ
  pub r8 : ℕ
  pub rbp : ℕ
  pub rdi : ℕ
  pub rsi : ℕ
  pub rdx : ℕ
  pub rcx : ℕ
  pub rbx : ℕ
  pub rax : ℕ
  pub int_no : ℕ
  pub error_code : ℕ
  pub rip : ℕ
  pub cs : ℕ
  pub rflags : ℕ
  pub rsp : ℕ
  pub ss : ℕ

abbrev pub exception_names : List String
exception_names =
    "Divide By Zero" ∷ "Debug" ∷ "Non-Maskable Interrupt" ∷ "Breakpoint" ∷ "Overflow"
    ∷ "Bound Range Exceeded" ∷ "Invalid Opcode" ∷ "Device Not Available" ∷ "Double Fault"
    ∷ "Coprocessor Segment Overrun" ∷ "Invalid TSS" ∷ "Segment Not Present" ∷ "Stack Segment Fault"
    ∷ "General Protection Fault" ∷ "Page Fault" ∷ "Reserved" ∷ "x87 Floating-Point Exception"
    ∷ "Alignment Check" ∷ "Machine Check" ∷ "SIMD Floating-Point Exception"
    ∷ "Virtualization Exception" ∷ "Reserved" ∷ "Reserved" ∷ "Reserved" ∷ "Reserved" ∷ "Reserved"
    ∷ "Reserved" ∷ "Reserved" ∷ "Reserved" ∷ "Reserved" ∷ "Security Exception" ∷ "Reserved" ∷ []

-- A read of the array; `none` is out of its bounds.
abbrev pub get_elem? {ℓ} : {A : Type ℓ} → List A → ℕ → Option A
get_elem? [] i = none
get_elem? (x ∷ xs) zero = some x
get_elem? (x ∷ xs) (suc i) = get_elem? xs i

abbrev pub ruler : String
ruler = "========================================\n"

-- Messages and numbers, in their order
pub data Piece : Type 0 where
  say : String → Piece
  hex : ℕ → Piece

unfoldable pub show_all : (fuel : ℕ) → List Piece → Console → Option Console
show_all fuel [] c = some c
show_all fuel (say s ∷ ps) c = show_all fuel ps (print_text s c)
show_all fuel (hex n ∷ ps) c = elim (print_hex fuel n c) [
  | none ↦ none
  | some d ↦ show_all fuel ps d
]

-- The register dump
abbrev pub registers : InterruptFrame → List Piece
registers f =
    say "\nRegisters:\n"
    ∷ say "  RIP="
    ∷ hex f.rip
    ∷ say " RSP="
    ∷ hex f.rsp
    ∷ say "\n"
    ∷ say "  RAX="
    ∷ hex f.rax
    ∷ say " RBX="
    ∷ hex f.rbx
    ∷ say "\n"
    ∷ say "  RCX="
    ∷ hex f.rcx
    ∷ say " RDX="
    ∷ hex f.rdx
    ∷ say "\n"
    ∷ say "  RSI="
    ∷ hex f.rsi
    ∷ say " RDI="
    ∷ hex f.rdi
    ∷ say "\n"
    ∷ say "  CS="
    ∷ hex f.cs
    ∷ say " SS="
    ∷ hex f.ss
    ∷ say "\n"
    ∷ say "  RFLAGS="
    ∷ hex f.rflags
    ∷ say "\n"
    ∷ []

-- The line with the exception's name
unfoldable pub exception_line : InterruptFrame → Option (List Piece)
exception_line f =
    let named : Option (List Piece) = elim (get_elem? exception_names f.int_no) [
      | none ↦ none
      | some name ↦ some (say "Exception: " ∷ say name ∷ say "\n" ∷ [])
    ] in
    if ltb f.int_no 32
    then named
    else some (say "Unknown exception: " ∷ hex f.int_no ∷ say "\n" ∷ [])

unfoldable pub exception_handler : (fuel : ℕ) → InterruptFrame → Console → Option Console
exception_handler fuel f c = elim (exception_line f) [
  | none ↦ none
  | some line ↦
      show_all fuel
        ((say "\n========================================\n"
            ∷ say "[EXCEPTION] CPU Exception Occurred!\n"
            ∷ say ruler
            ∷ [])
          ++ (line
              ++ ((say "Error Code: " ∷ hex f.error_code ∷ say "\n" ∷ [])
                  ++ (registers f
                      ++ (say "\n[HALT] System halted due to exception\n" ∷ say ruler ∷ [])))))
        c
]

-- The registers of the dump have 64 bits.
abbrev pub AllWords : List Piece → Type 0
AllWords [] = Unit {0}
AllWords (say s ∷ ps) = AllWords ps
AllWords (hex n ∷ ps) = (n < 2 ^ 64) × AllWords ps

AllWords-append : (xs ys : List Piece) → AllWords xs → AllWords ys → AllWords (xs ++ ys)
AllWords-append [] ys v w = w
AllWords-append (say s ∷ xs) ys v w = AllWords-append xs ys v w
AllWords-append (hex n ∷ xs) ys (word, v) w = (word, AllWords-append xs ys v w)

show_all-OnScreen :
    (fuel : ℕ) (ps : List Piece) (c : Console)
    → 20 ≤ fuel
    → AllWords ps
    → IsValid c
    → (d : Console) × (show_all fuel ps c ≡ some d) × OnScreen c d
unfolding show_all
show_all-OnScreen fuel [] c enough w v = (c, refl, OnScreen-refl c v)
show_all-OnScreen fuel (say s ∷ ps) c enough w v =
    let first = print_chars-OnScreen (codes s) c v in
    let (e, rest, t) = show_all-OnScreen fuel ps (print_text s c) enough w first.valid in
    (e, rest, OnScreen-trans c (print_text s c) e first t)
show_all-OnScreen fuel (hex n ∷ ps) c enough (word, w) v =
    let (ds, printed, _) = print_hex-Numeral fuel n c word (omega arith) in
    let shown = 48 ∷ 120 ∷ ds in
    let d = print_chars shown c in
    let first = print_chars-OnScreen shown c v in
    let (e, rest, t) = show_all-OnScreen fuel ps d enough w first.valid in
    (e, rw (show_all, printed) rest, OnScreen-trans c d e first t)

name_found :
    (names : List String) (i : ℕ) → i < length names → (s : String) × (get_elem? names i ≡ some s)
name_found [] i h = absurd (omega arith)
name_found (s ∷ names) zero h = (s, refl)
name_found (s ∷ names) (suc i) h = name_found names i (omega arith)

line_words :
    (f : InterruptFrame)
    → f.int_no < 2 ^ 64
    → (line : List Piece) × (exception_line f ≡ some line) × AllWords line
unfolding exception_line
line_words f word = elim (Bool-cases (ltb f.int_no 32)) [
  | inl low ↦
      let (s, found) = name_found exception_names f.int_no (ltb→lt f.int_no 32 low) in
      (say "Exception: " ∷ say s ∷ say "\n" ∷ [], rw (low, found) refl, tt)
  | inr high ↦ (say "Unknown exception: " ∷ hex f.int_no ∷ say "\n" ∷ [], rw high refl, (word, tt))
]

-- A frame of words of 64 bits
abbrev pub IsFrame : InterruptFrame → Type 0
IsFrame f = (f.int_no < 2 ^ 64) × (f.error_code < 2 ^ 64) × AllWords (registers f)

-- On a valid console `exception_handler` of a frame of 64-bit words comes to its halt, for every
-- number of an exception: the name is read within the array, each number takes 20 rounds of fuel at
-- most, and what it prints leaves the cursor and every write on the screen.
pub exception_handler-OnScreen :
    (fuel : ℕ) (f : InterruptFrame) (c : Console)
    → 20 ≤ fuel
    → IsFrame f
    → IsValid c
    → (d : Console) × (exception_handler fuel f c ≡ some d) × OnScreen c d
unfolding exception_handler
exception_handler-OnScreen fuel f c enough (number, error, dump) v =
    let (line, found, words) = line_words f number in
    let last = say "\n[HALT] System halted due to exception\n" ∷ say ruler ∷ [] in
    let code = say "Error Code: " ∷ hex f.error_code ∷ say "\n" ∷ [] in
    let head =
      say "\n========================================\n"
      ∷ say "[EXCEPTION] CPU Exception Occurred!\n"
      ∷ say ruler
      ∷ [] in
    let all : AllWords (head ++ (line ++ (code ++ (registers f ++ last)))) =
      AllWords-append line (code ++ (registers f ++ last)) words
        (error, AllWords-append (registers f) last dump tt) in
    let (d, shown, s) =
      show_all-OnScreen fuel (head ++ (line ++ (code ++ (registers f ++ last)))) c enough all v in
    (d, rw (exception_handler, found) shown, s)
