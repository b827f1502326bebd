-- ===== src/Kheap/Search.antt =====
-- The first-fit search of kernel/kheap.c.
use f_rat_os.Base.{
  Bool, Bool-cases, List, Option, [], ap, arith, false, inl, inr, leb, length, not, refl, some, suc,
  true, zero, ℕ, ◌&&◌, ◌++◌, ◌<◌, ◌==◌, ◌∷◌, ◌≡◌, ◌⊎◌,
}
use f_rat_os.Kheap.{Heap, find_free_block, find_free_from, is_used, validate_block}

-- The list from the block at `current` on has the blocks `bs`, all of them sound.
abbrev pub Blocks : Heap → (current : ℕ) → List ℕ → Type 0
Blocks h current [] = current ≡ 0
Blocks h current (b ∷ bs) =
    (current ≡ b) × (validate_block b h ≡ true) × Blocks h (h.header b).next bs

-- The block is free and has room for `size` bytes.
abbrev pub fits : Heap → (size block : ℕ) → Bool
fits h size block = not (is_used (h.header block)) && leb size (h.header block).size

abbrev pub NoneFits : Heap → (size : ℕ) → List ℕ → Type 0
NoneFits h size [] = Unit {0}
NoneFits h size (b ∷ bs) = (fits h size b ≡ false) × NoneFits h size bs

-- `b` is the first block of `bs` that fits: none of `xs` before it does.
pub record FirstFit (h : Heap) (size : ℕ) (bs : List ℕ) (b : ℕ) : Type 0 where
  pub xs : List ℕ
  pub ys : List ℕ
  pub parts : bs ≡ xs ++ (b ∷ ys)
  pub before : NoneFits h size xs
  pub fit : fits h size b ≡ true

sound_nonzero : (b : ℕ) (h : Heap) → validate_block b h ≡ true → (b == 0) ≡ false
unfolding validate_block
sound_nonzero b h e = ground arith

-- One look of the search.
module _ (n size b : ℕ) (h : Heap) (sound : validate_block b h ≡ true) where
  look_fits : fits h size b ≡ true → find_free_from (suc n) size b h ≡ some b
  unfolding find_free_from
  look_fits e = rw (sound_nonzero b h sound, sound, e)

  look_on :
      fits h size b ≡ false
      → find_free_from (suc n) size b h ≡ find_free_from n size (h.header b).next h
  unfolding find_free_from
  look_on e = rw (sound_nonzero b h sound, sound, e)

look_end : (n size : ℕ) (h : Heap) → find_free_from (suc n) size 0 h ≡ some 0
unfolding find_free_from
look_end n size h = refl

abbrev SearchResult : (bs : List ℕ) (size : ℕ) (h : Heap) (r : Option ℕ) → Type 0
SearchResult bs size h r =
    ((r ≡ some 0) × NoneFits h size bs) ⊎ ((b : ℕ) × (r ≡ some b) × FirstFit h size bs b)

search_from :
    (bs : List ℕ) (n size current : ℕ) (h : Heap)
    → Blocks h current bs
    → length bs < n
    → SearchResult bs size h (find_free_from n size current h)
search_from bs zero size current h c room = absurd (omega arith)
search_from [] (suc n) size current h c room = rw c (inl (look_end n size h, tt))
search_from (b ∷ bs) (suc n) size current h (here, sound, rest) room =
    rw here (elim (Bool-cases (fits h size b)) [
      | inl yes_fits ↦ inr (
        b,
        look_fits n size b h sound yes_fits,
        record { xs = []; ys = bs; parts = refl; before = tt; fit = yes_fits },
      )
      | inr no_fit ↦
          rw (look_on n size b h sound no_fit)
            (later (search_from bs n size (h.header b).next h rest (omega arith)) no_fit)
    ])
  where
    later :
        {r : Option ℕ}
        → SearchResult bs size h r
        → fits h size b ≡ false
        → SearchResult (b ∷ bs) size h r
    later (inl (e, none_fit)) no_fit = inl (e, (no_fit, none_fit))
    later (inr (p, e, f)) no_fit = inr (
      p,
      e,
      record {
        xs = b ∷ f.xs;
        ys = f.ys;
        parts = ap (λ (l : List ℕ). b ∷ l) f.parts;
        before = (no_fit, f.before);
        fit = f.fit;
      },
    )

-- Of a heap whose list has the sound blocks `bs`, fewer than the fuel, the search of `kmalloc`
-- ends: with 0 if no block is free and large enough, and else with the first that is.
pub find_free_block-FirstFit :
    (bs : List ℕ) (fuel size : ℕ) (h : Heap)
    → Blocks h h.first_block bs
    → length bs < fuel
    → ((find_free_block fuel size h ≡ some 0) × NoneFits h size bs)
      ⊎ ((b : ℕ) × (find_free_block fuel size h ≡ some b) × FirstFit h size bs b)
unfolding find_free_block
find_free_block-FirstFit bs fuel size h c room = search_from bs fuel size h.first_block h c room
