-- ===== src/Kheap/Cut.antt =====
-- `split_block` and the merge of `coalesce_blocks` in kernel/kheap.c keep the blocks in their places.
use f_rat_os.Base.{
  ==_self, Bool-cases, List, add64, ap, arith, false, if◌then◌else◌, inl, inr, not, refl, sym, true,
  ℕ, ◌&&◌, ◌+◌, ◌-◌, ◌<◌, ◌==◌, ◌^◌, ◌∙◌, ◌∷◌, ◌≡◌, ◌≢◌, ◌≤◌, ◌⊎◌,
}
use f_rat_os.Kheap.{BlockHeader, Heap, block_magic, is_used, merge_next, split_block}
use f_rat_os.Kheap.Split.{CanSplit, after_split, split_header}
use f_rat_os.Kheap.Tiles.{
  IsBlock, SameUse, Tail, Tail-le, Tail-link, Tail-reprev, used-SameUse, used_blocks,
}

-- The block at `b`, and the rest behind it, of a heap that ends below 2 ^ 64
module _ (h : Heap) (p b : ℕ) (ys : List ℕ) (e : ℕ) (whole : Tail h.header p b b (b ∷ ys) e)
    (low : 0 < b) (word : e < 2 ^ 64) where
  behind : b + 36 + (h.header b).size ≤ e
  behind =
      let (_, _, _, rest) = whole in
      omega (arith, Tail-le h.header b (h.header b).next (b + 36 + (h.header b).size) ys e rest)

  next_place : ((h.header b).next ≡ 0) ⊎ ((h.header b).next ≡ b + 36 + (h.header b).size)
  next_place =
      let (_, _, _, rest) = whole in
      elim (Tail-link h.header b (h.header b).next (b + 36 + (h.header b).size) ys e rest) [
        | inl (l, _) ↦ inl l
        | inr (l, _) ↦ inr l
      ]

  module _ (n : ℕ) (least : 1 ≤ n) (big : CanSplit b n h) where
    apart : (h.header b).next ≢ b
    apart = ground (arith, next_place)

    off : (h.header b).next ≢ b + 36 + n
    off = ground (arith, next_place)

    at_split : (x : ℕ) → (split_block b n h).header x ≡ after_split b n h x
    at_split x = split_header b n h big (omega (arith, behind)) apart off x

    pub split-below : (x : ℕ) → x < b → (split_block b n h).header x ≡ h.header x
    split-below x under = at_split x ∙ ground (arith, next_place)

    split_here : (split_block b n h).header b ≡ record (h.header b) { next = b + 36 + n; size = n }
    split_here = at_split b ∙ simp (==_self b) refl

    split_new : (split_block b n h).header (b + 36 + n) ≡ record {
      size = (h.header b).size - n - 36;
      flags = 0;
      next = (h.header b).next;
      prev = b;
      magic = block_magic;
    }
    split_new =
        let moved : (b + 36 + n == b) ≡ false = ground arith in
        let other : (b + 36 + n == (h.header b).next) ≡ false = ground (arith, off) in
        at_split (b + 36 + n) ∙ simp (moved, other, ==_self (b + 36 + n)) refl

    split_next :
        b + 36 + (h.header b).size < e
        → (h.header b).next ≡ b + 36 + (h.header b).size
        → (split_block b n h).header (b + 36 + (h.header b).size)
          ≡ record (h.header (b + 36 + (h.header b).size)) { prev = b + 36 + n }
    split_next inside l = at_split (b + 36 + (h.header b).size) ∙ ground (arith, l)

    split_far : (x : ℕ) → b + 36 + (h.header b).size < x → (split_block b n h).header x ≡ h.header x
    split_far x far = at_split x ∙ ground (arith, next_place)

    new-IsBlock : IsBlock ((split_block b n h).header (b + 36 + n)) b
    new-IsBlock =
        let large : n + 52 ≤ (h.header b).size = omega arith in
        rw split_new
          (record { magic_set = refl; some_size = omega arith; flag = omega arith; back = refl })

    here-IsBlock : IsBlock ((split_block b n h).header b) p
    here-IsBlock =
        let (_, _, q, _) = whole in
        rw split_here
          (record { magic_set = q.magic_set; some_size = least; flag = q.flag; back = q.back })

    rest_linked :
        Tail
          (split_block b n h).header
          (b + 36 + n)
          (h.header b).next
          (b + 36 + (h.header b).size)
          ys
          e
    rest_linked =
        let (_, _, _, rest) = whole in
        Tail-reprev h.header (split_block b n h).header b (b + 36 + n) (h.header b).next
          (b + 36 + (h.header b).size) ys e
          (λ inside.
            split_next inside
              (elim (Tail-link h.header b (h.header b).next (b + 36 + (h.header b).size) ys e
                rest) [ inl (_, stop) ↦ absurd (omega arith) | inr (l, _) ↦ l ]))
          (λ x far near. split_far x far) rest

    -- The block stays with `n` bytes, and a new one follows.
    pub split-Tail : Tail (split_block b n h).header p b b (b ∷ (b + 36 + n) ∷ ys) e
    split-Tail =
        let place : b + 36 + n + 36 + ((h.header b).size - n - 36) ≡ b + 36 + (h.header b).size =
          omega arith in
        (
          refl,
          refl,
          here-IsBlock,
          rw split_here (refl, refl, new-IsBlock, rw (split_new, place) rest_linked),
        )

    split-SameUse : (x : ℕ) → b + 36 + n < x → SameUse (h.header x) ((split_block b n h).header x)
    split-SameUse x far =
        let here : (x == b) ≡ false = ground arith in
        let new : (x == b + 36 + n) ≡ false = ground arith in
        elim (Bool-cases ((x == (h.header b).next) && not (x == 0))) [
          | inl c ↦ simp (at_split x, here, c) (refl, refl)
          | inr c ↦ simp (at_split x, here, new, c) (refl, refl)
        ]

    -- The new block is free.
    pub split-used :
        used_blocks (split_block b n h).header ((b + 36 + n) ∷ ys) ≡ used_blocks h.header ys
    split-used =
        let (_, _, _, rest) = whole in
        let large : n + 52 ≤ (h.header b).size = omega arith in
        rw split_new (
          used-SameUse h.header (split_block b n h).header b (h.header b).next
            (b + 36 + (h.header b).size) ys e (λ x far. split-SameUse x (omega arith)) rest)

    pub split-size : ((split_block b n h).header b).size ≡ n
    split-size = ap (λ (x : BlockHeader). x.size) split_here

-- Two blocks, at `b` and behind it, and the rest
module _ (h : Heap) (p b c : ℕ) (ys : List ℕ) (e : ℕ) (whole : Tail h.header p b b (b ∷ c ∷ ys) e)
    (low : 0 < b) (word : e < 2 ^ 64) where
  second : ((h.header b).next ≡ c) × (c ≡ b + 36 + (h.header b).size)
  second = let (_, _, _, (l, here, _, _)) = whole in (l ∙ sym here, here)

  second-IsBlock : IsBlock (h.header c) b
  second-IsBlock = let (_, _, _, (_, here, q, _)) = whole in rw here q

  second_rest : Tail h.header c (h.header c).next (c + 36 + (h.header c).size) ys e
  second_rest = let (_, _, _, (_, here, _, rest)) = whole in rw here rest

  merge_room : c + 36 + (h.header c).size ≤ e
  merge_room =
      omega
        (arith, Tail-le h.header c (h.header c).next (c + 36 + (h.header c).size) ys e second_rest)

  third_place : ((h.header c).next ≡ 0) ⊎ ((h.header c).next ≡ c + 36 + (h.header c).size)
  third_place =
      elim (Tail-link h.header c (h.header c).next (c + 36 + (h.header c).size) ys e second_rest) [
        | inl (l, _) ↦ inl l
        | inr (l, _) ↦ inr l
      ]

  at_merge :
      (x : ℕ)
      → (merge_next b h).header x ≡ (
          if x == b
          then record (h.header b) {
            size = (h.header b).size + (36 + (h.header c).size);
            next = (h.header c).next;
          }
          else if (x == (h.header c).next) && not (x == 0)
          then record (h.header x) { prev = b }
          else h.header x)
  unfolding merge_next
  at_merge x =
      let (link, place) = second in
      let sum : add64 (h.header b).size (add64 36 (h.header c).size)
          ≡ (h.header b).size + (36 + (h.header c).size) =
        omega (arith, merge_room) in
      let apart : ((h.header c).next == b) ≡ false = ground (arith, third_place, place) in
      simp (link, sum) (ground (arith, apart))

  pub merge-below : (x : ℕ) → x < b → (merge_next b h).header x ≡ h.header x
  merge-below x under =
      let (link, place) = second in at_merge x ∙ ground (arith, third_place, place)

  merge_here : (merge_next b h).header b ≡ record (h.header b) {
    size = (h.header b).size + (36 + (h.header c).size);
    next = (h.header c).next;
  }
  merge_here = at_merge b ∙ simp (==_self b) refl

  merge_third :
      (h.header c).next ≡ c + 36 + (h.header c).size
      → (merge_next b h).header (c + 36 + (h.header c).size)
        ≡ record (h.header (c + 36 + (h.header c).size)) { prev = b }
  merge_third l =
      let (link, place) = second in at_merge (c + 36 + (h.header c).size) ∙ ground (arith, l, place)

  merge_far : (x : ℕ) → c + 36 + (h.header c).size < x → (merge_next b h).header x ≡ h.header x
  merge_far x far = let (link, place) = second in at_merge x ∙ ground (arith, third_place, place)

  -- The first block has the room of both.
  pub merge-Tail : Tail (merge_next b h).header p b b (b ∷ ys) e
  merge-Tail =
      let (_, _, q, _) = whole in
      let (link, place) = second in
      let end : b + 36 + ((h.header b).size + (36 + (h.header c).size))
          ≡ c + 36 + (h.header c).size =
        omega arith in
      let more = q.some_size in
      (
        refl,
        refl,
        rw merge_here (record {
          magic_set = q.magic_set;
          some_size = omega arith;
          flag = q.flag;
          back = q.back;
        }),
        rw (merge_here, end)
            (Tail-reprev h.header (merge_next b h).header c b (h.header c).next
              (c + 36 + (h.header c).size) ys e
              (λ inside.
                merge_third
                  (elim (Tail-link h.header c (h.header c).next (c + 36 + (h.header c).size) ys e
                    second_rest) [ inl (_, stop) ↦ absurd (omega arith) | inr (l, _) ↦ l ]))
              (λ x far near. merge_far x far) second_rest),
      )

  pub merge-flags : ((merge_next b h).header b).flags ≡ (h.header b).flags
  merge-flags = ap (λ (x : BlockHeader). x.flags) merge_here

  pub merge-SameUse : (x : ℕ) → b < x → SameUse (h.header x) ((merge_next b h).header x)
  merge-SameUse x behind =
      let at = at_merge x in
      let other : (x == b) ≡ false = ground arith in
      elim (Bool-cases ((x == (h.header c).next) && not (x == 0))) [
        | inl e ↦ simp (at, other, e) (refl, refl)
        | inr e ↦ simp (at, other, e) (refl, refl)
      ]

  -- Both blocks were free, and so the blocks in use are as before.
  pub merge-used :
      (not (is_used (h.header b)) && not (is_used (h.header c))) ≡ true
      → used_blocks (merge_next b h).header (b ∷ ys) ≡ used_blocks h.header (b ∷ c ∷ ys)
  merge-used free =
      let (_, place) = second in
      let more = (second-IsBlock).some_size in
      let mine : is_used (h.header b) ≡ false = ground (arith, free) in
      let next : is_used (h.header c) ≡ false = ground (arith, free) in
      rw (merge-flags, mine, next)
        (used-SameUse h.header (merge_next b h).header c (h.header c).next
          (c + 36 + (h.header c).size) ys e (λ x low. merge-SameUse x (omega arith)) second_rest)
