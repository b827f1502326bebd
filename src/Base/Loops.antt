-- ===== src/Base/Loops.antt =====
-- Counted loops: `for (i = i0; i < i0 + n; i++) s = body(i, s)`, with its invariant rule.
use Prim.Native.Nat.{ℕ, zero, suc, ◌+◌, ◌≤◌, ◌<◌}
use mathlib.Core.Path.{◌≡◌, subst}
use native.Mathlib.Omega.{arith}

module _ {ℓ} {S : Type ℓ} (body : ℕ → S → S) where
  -- `rounds` rounds from `i` on
  unfoldable pub count_up : (rounds i : ℕ) → S → S
  count_up zero i s = s
  count_up (suc n) i s = count_up n (i + 1) (body i s)

  pub count_up_inv {κ} :
      (P : ℕ → S → Type κ) (n i : ℕ) (s : S)
      → ((k : ℕ) (t : S) → i ≤ k → k < i + n → P k t → P (k + 1) (body k t))
      → P i s
      → (j : ℕ) → i + n ≡ j
      → P j (count_up n i s)
  unfolding count_up
  count_up_inv P zero i s keep h j e = let e' : i ≡ j = omega arith in subst (λ k. P k s) e' h
  count_up_inv P (suc n) i s keep h j e =
      count_up_inv P n (i + 1) (body i s) (λ k t lo hi. keep k t (omega arith) (omega arith))
        (keep i s (omega arith) (omega arith) h) j (omega arith)
