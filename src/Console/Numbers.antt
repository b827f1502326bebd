-- ===== src/Console/Numbers.antt =====
-- The numbers that kernel/console.c prints, read back.
use f_rat_os.Base.{
  ==→eq, ==→ne, Bool-cases, List, Option, [], ap, arith, if◌then◌else◌, inl, inr, length,
  length-append, ltb, none, refl, some, suc, sym, zero, ℕ, ◌%◌, ◌*◌, ◌++◌, ◌+◌, ◌-◌, ◌/◌, ◌<◌, ◌==◌,
  ◌^◌, ◌∙◌, ◌∷◌, ◌≡◌, ◌≢◌, ◌≤◌,
}
use f_rat_os.Console.{Console, dec_loop, hex_digit, hex_loop, print_chars, print_dec, print_hex}
use mathlib.Core.List.{append-nil, append_assoc}

-- A number in base `base`, read from the left, by the values of its characters.
abbrev pub read_number : (base : ℕ) (value : ℕ → ℕ) (acc : ℕ) → List ℕ → ℕ
read_number base value acc [] = acc
read_number base value acc (c ∷ cs) = read_number base value (acc * base + value c) cs

-- Both loops, for their base and their digits.
digits_loop : (base : ℕ) (digit : ℕ → ℕ) (fuel num : ℕ) (buffer : List ℕ) → Option (List ℕ)
digits_loop base digit zero num buffer = if num == 0 then some buffer else none
digits_loop base digit (suc n) num buffer =
    let rest = digits_loop base digit n (num / base) (digit (num % base) ∷ buffer) in
    if num == 0 then some buffer else rest

dec_loop_lem :
    (fuel num : ℕ) (buffer : List ℕ)
    → dec_loop fuel num buffer ≡ digits_loop 10 (λ d. 48 + d) fuel num buffer
unfolding dec_loop digits_loop
dec_loop_lem zero num buffer = refl
dec_loop_lem (suc n) num buffer = rw (dec_loop_lem n (num / 10) ((48 + num % 10) ∷ buffer)) refl

hex_loop_lem :
    (fuel num : ℕ) (buffer : List ℕ)
    → hex_loop fuel num buffer ≡ digits_loop 16 hex_digit fuel num buffer
unfolding hex_loop digits_loop
hex_loop_lem zero num buffer = refl
hex_loop_lem (suc n) num buffer =
    rw (hex_loop_lem n (num / 16) (hex_digit (num % 16) ∷ buffer)) refl

read-append :
    (base : ℕ) (value : ℕ → ℕ) (xs ys : List ℕ) (acc : ℕ)
    → read_number base value acc (xs ++ ys)
      ≡ read_number base value (read_number base value acc xs) ys
read-append base value [] ys acc = refl
read-append base value (x ∷ xs) ys acc = read-append base value xs ys (acc * base + value x)

-- Characters that take a cell.
abbrev pub AllVisible : List ℕ → Type 0
AllVisible [] = Unit {0}
AllVisible (c ∷ cs) = (32 ≤ c) × (c < 256) × AllVisible cs

AllVisible-append : (xs ys : List ℕ) → AllVisible xs → AllVisible ys → AllVisible (xs ++ ys)
AllVisible-append [] ys v w = w
AllVisible-append (x ∷ xs) ys (low, high, v) w = (low, high, AllVisible-append xs ys v w)

-- The digits that the loop puts before `buffer`.
pub record Digits (base : ℕ) (value : ℕ → ℕ) (fuel num : ℕ) (ds : List ℕ) : Type 0 where
  pub reads : read_number base value 0 ds ≡ num
  pub few : length ds ≤ fuel
  pub some_digit : num ≢ 0 → 1 ≤ length ds
  pub visible : AllVisible ds

-- `fuel` divisions by the base leave nothing of the number.
abbrev pub EndsIn : (base fuel num : ℕ) → Type 0
EndsIn base zero num = num ≡ 0
EndsIn base (suc n) num = EndsIn base n (num / base)

module _ (base : ℕ) (digit value : ℕ → ℕ) (two : 2 ≤ base)
    (inverse : (d : ℕ) → d < base → value (digit d) ≡ d)
    (shown : (d : ℕ) → d < base → (32 ≤ digit d) × (digit d < 256)) where
  mod_below : (num : ℕ) → num % base < base
  mod_below num = grind arith

  recompose : (num : ℕ) → num / base * base + num % base ≡ num
  recompose num = grind arith

  ends_at_zero :
      (fuel k num : ℕ) (buffer : List ℕ)
      → num ≡ 0
      → (ds : List ℕ) × (digits_loop base digit fuel num buffer ≡ some (ds ++ buffer))
        × Digits base value k num ds
  unfolding digits_loop
  ends_at_zero fuel k num buffer e = (
    [],
    rw e (elim fuel as (λ n. digits_loop base digit n 0 buffer ≡ some buffer) [
      | zero ↦ refl
      | suc n ↦ refl
    ]),
    record { reads = sym e; few = omega arith; some_digit = λ more. absurd (more e); visible = tt },
  )

  digits_loop-Digits :
      (fuel k num : ℕ) (buffer : List ℕ)
      → k ≤ fuel
      → EndsIn base k num
      → (ds : List ℕ) × (digits_loop base digit fuel num buffer ≡ some (ds ++ buffer))
        × Digits base value k num ds
  unfolding digits_loop
  digits_loop-Digits fuel zero num buffer le small = ends_at_zero fuel 0 num buffer small
  digits_loop-Digits zero (suc k) num buffer le small = absurd (omega arith)
  digits_loop-Digits (suc n) (suc k) num buffer le small = elim (Bool-cases (num == 0)) [
    | inl e ↦ ends_at_zero (suc n) (suc k) num buffer (==→eq num 0 e)
    | inr e ↦
        let (ds, found, q) =
          digits_loop-Digits n k (num / base) (digit (num % base) ∷ buffer) (omega arith) small in
        let last = digit (num % base) ∷ [] in
        let longer = length-append ds last in
        let (low, high) = shown (num % base) (mod_below num) in
        (
          ds ++ last,
          rw (e, append_assoc) found,
          record {
            reads =
                read-append base value ds last 0
                ∙ rw (q.reads, inverse (num % base) (mod_below num)) (recompose num);
            few = omega (arith, longer, q.few);
            some_digit = λ more. omega (arith, longer);
            visible = AllVisible-append ds last q.visible (low, high, tt);
          },
        )
  ]

-- The values of the characters of a decimal and of a hexadecimal number
abbrev pub dec_value : ℕ → ℕ
dec_value c = c - 48

abbrev pub hex_value : ℕ → ℕ
hex_value c = if ltb c 65 then c - 48 else c - 55

hex_inverse : (d : ℕ) → d < 16 → hex_value (hex_digit d) ≡ d
unfolding hex_digit
hex_inverse d h = ground arith

hex_shown : (d : ℕ) → d < 16 → (32 ≤ hex_digit d) × (hex_digit d < 256)
unfolding hex_digit
hex_shown d h = ground arith

twenty : (num : ℕ) → num < 2 ^ 64 → EndsIn 10 20 num
twenty num h = omega arith

sixteen : (num : ℕ) → num < 2 ^ 64 → EndsIn 16 16 num
sixteen num h = omega arith

-- The text of a number of 64 bits, of at most 20 digits.
pub record Numeral (base : ℕ) (value : ℕ → ℕ) (num : ℕ) (ds : List ℕ) : Type 0 where
  pub reads : read_number base value 0 ds ≡ num
  pub few : length ds ≤ 20
  pub some_digit : 1 ≤ length ds
  pub visible : AllVisible ds

zero_text : (base : ℕ) (value : ℕ → ℕ) → value 48 ≡ 0 → Numeral base value 0 (48 ∷ [])
zero_text base value e = record {
  reads = rw e (grind arith);
  few = omega arith;
  some_digit = omega arith;
  visible = omega arith;
}

-- What `console_print_dec` prints.
pub print_dec-Numeral :
    (fuel num : ℕ) (c : Console)
    → num < 2 ^ 64
    → 20 ≤ fuel
    → (ds : List ℕ) × (print_dec fuel num c ≡ some (print_chars ds c)) × Numeral 10 dec_value num ds
unfolding print_dec print_chars
print_dec-Numeral fuel num c small enough = elim (Bool-cases (num == 0)) [
  | inl e ↦
      let none_left = ==→eq num 0 e in
      (48 ∷ [], rw e refl, rw none_left (zero_text 10 dec_value refl))
  | inr e ↦
      let (ds, found, q) =
        digits_loop-Digits 10 (λ d. 48 + d) dec_value (omega arith) (λ d h. omega arith)
          (λ d h. omega arith) fuel 20 num [] enough (twenty num small) in
      let text = dec_loop_lem fuel num [] ∙ found ∙ ap some (append-nil ds) in
      (
        ds,
        rw (e, text) refl,
        record {
          reads = q.reads;
          few = q.few;
          some_digit = q.some_digit (==→ne num 0 e);
          visible = q.visible;
        },
      )
]

-- What `console_print_hex` prints behind the "0x".
pub print_hex-Numeral :
    (fuel num : ℕ) (c : Console)
    → num < 2 ^ 64
    → 16 ≤ fuel
    → (ds : List ℕ) × (print_hex fuel num c ≡ some (print_chars (48 ∷ 120 ∷ ds) c))
      × Numeral 16 hex_value num ds
unfolding print_hex
print_hex-Numeral fuel num c small enough = elim (Bool-cases (num == 0)) [
  | inl e ↦
      let none_left = ==→eq num 0 e in
      (48 ∷ [], rw e refl, rw none_left (zero_text 16 hex_value refl))
  | inr e ↦
      let (ds, found, q) =
        digits_loop-Digits 16 hex_digit hex_value (omega arith) hex_inverse hex_shown fuel 16 num []
          enough (sixteen num small) in
      let text = hex_loop_lem fuel num [] ∙ found ∙ ap some (append-nil ds) in
      (
        ds,
        rw (e, text) refl,
        record {
          reads = q.reads;
          few = omega (arith, q.few);
          some_digit = q.some_digit (==→ne num 0 e);
          visible = q.visible;
        },
      )
]
