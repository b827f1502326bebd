-- ===== src/Base/Bits.antt =====
-- The bits of a byte: `x |= 1 << k`, `x &= ~(1 << k)` and `x & (1 << k)`, with their laws, which
-- a table over all bytes and positions proves.
use Prim.Native.Nat.{ℕ, zero, suc, ◌-◌, ◌^◌, ◌<◌, bit_and, bit_or, bit_xor}
use mathlib.Core.Path.{◌≡◌, refl, subst}
use mathlib.Core.Logic.{inl, inr}
use mathlib.Core.Bool.{Bool, true, false, not, ◌&&◌}
use native.Mathlib.Omega.{arith}
use f_rat_os.Base.Tests.{ltb, ◌==◌, if◌then◌else◌, ==→eq, Bool-cases}

unfoldable pub byte_set : ℕ → ℕ → ℕ
byte_set x k = bit_or x (2 ^ k)

unfoldable pub byte_clear : ℕ → ℕ → ℕ
byte_clear x k = bit_and x (255 - 2 ^ k)

unfoldable pub byte_toggle : ℕ → ℕ → ℕ
byte_toggle x k = bit_xor x (2 ^ k)

unfoldable pub byte_test : ℕ → ℕ → Bool
byte_test x k = not (bit_and x (2 ^ k) == 0)

-- A test passes at every number under `n`, by evaluation.
unfoldable pub passes_under : (test : ℕ → Bool) (n : ℕ) → Bool
passes_under test zero = true
passes_under test (suc n) = test n && passes_under test n

pub passes_under-at :
    (test : ℕ → Bool) (n : ℕ) → passes_under test n ≡ true → (k : ℕ) → k < n → test k ≡ true
unfolding passes_under
passes_under-at test zero all k small = elim small [ ]
passes_under-at test (suc n) all k small =
    let (here, below) = both (test n) (passes_under test n) all in
    elim (Bool-cases (n == k)) [
      | inl e ↦ subst (λ (i : ℕ). test i ≡ true) (==→eq n k e) here
      | inr e ↦ passes_under-at test n below k (ground arith)
    ]
  where
    both : (a b : Bool) → (a && b) ≡ true → (a ≡ true) × (b ≡ true)
    both a b h = ground arith

abbrev same : Bool → Bool → Bool
same true b = b
same false b = not b

same→eq : (a b : Bool) → same a b ≡ true → a ≡ b
same→eq a b h = ground arith

abbrev set_law : ℕ → ℕ → ℕ → Bool
set_law k j x = same (byte_test (byte_set x k) j) (if k == j then true else byte_test x j)

abbrev clear_law : ℕ → ℕ → ℕ → Bool
clear_law k j x = same (byte_test (byte_clear x k) j) (if k == j then false else byte_test x j)

abbrev toggle_law : ℕ → ℕ → ℕ → Bool
toggle_law k j x =
    same (byte_test (byte_toggle x k) j) (if k == j then not (byte_test x j) else byte_test x j)

abbrev laws : ℕ → ℕ → ℕ → Bool
laws k j x =
    set_law k j x
    && (clear_law k j x
        && (toggle_law k j x
            && (ltb (byte_set x k) 256 && (ltb (byte_clear x k) 256 && ltb (byte_toggle x k) 256))))

table : passes_under (λ k. passes_under (λ j. passes_under (λ x. laws k j x) 256) 8) 8 ≡ true
unfolding passes_under byte_set byte_clear byte_toggle byte_test
table = refl

byte_laws : (x k j : ℕ) → x < 256 → k < 8 → j < 8 → laws k j x ≡ true
byte_laws x k j hx hk hj =
    passes_under-at (λ x. laws k j x) 256
      (passes_under-at (λ j. passes_under (λ x. laws k j x) 256) 8
        (passes_under-at (λ k. passes_under (λ j. passes_under (λ x. laws k j x) 256) 8) 8 table k
          hk)
        j hj)
      x hx

module _ (x k : ℕ) (hx : x < 256) (hk : k < 8) where
  pub byte_set-lt : byte_set x k < 256
  byte_set-lt = ground (arith, byte_laws x k 0)

  pub byte_clear-lt : byte_clear x k < 256
  byte_clear-lt = ground (arith, byte_laws x k 0)

  pub byte_test-set :
      (j : ℕ) → j < 8 → byte_test (byte_set x k) j ≡ (if k == j then true else byte_test x j)
  byte_test-set j hj = ground (arith, byte_laws x k j)

  pub byte_test-clear :
      (j : ℕ) → j < 8 → byte_test (byte_clear x k) j ≡ (if k == j then false else byte_test x j)
  byte_test-clear j hj = ground (arith, byte_laws x k j)

  pub byte_toggle-lt : byte_toggle x k < 256
  byte_toggle-lt = ground (arith, byte_laws x k 0)

  pub byte_test-toggle :
      (j : ℕ)
      → j < 8
      → byte_test (byte_toggle x k) j ≡ (if k == j then not (byte_test x j) else byte_test x j)
  byte_test-toggle j hj = ground (arith, byte_laws x k j)
