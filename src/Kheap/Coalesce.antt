-- ===== src/Kheap/Coalesce.antt =====
-- `kheap_coalesce` of kernel/kheap.c comes to its end, with the blocks in their places.
use f_rat_os.Base.{
  Bool-cases, List, [], ap, arith, false, inl, inr, length, ne→==, not, refl, some, suc, sym, true,
  zero, ℕ, ◌&&◌, ◌<◌, ◌==◌, ◌^◌, ◌∙◌, ◌∷◌, ◌≡◌, ◌≢◌, ◌≤◌,
}
use f_rat_os.Kheap.{
  BlockHeader, Heap, coalesce_from, is_used, merge_next, split_block, validate_block,
}
use f_rat_os.Kheap.Tiles.{IsBlock, Tail, used_blocks}
use f_rat_os.Kheap.Cut.{merge-Tail, merge-below, merge-flags, merge-used}

-- What the work on the blocks leaves as it is
pub record Keeps (h h' : Heap) : Type 0 where
  pub same_start : h'.heap_start ≡ h.heap_start
  pub same_end : h'.heap_end ≡ h.heap_end
  pub same_first : h'.first_block ≡ h.first_block
  pub same_size : h'.heap_size ≡ h.heap_size
  pub same_initialized : h'.initialized ≡ h.initialized

pub Keeps-refl : (h : Heap) → Keeps h h
Keeps-refl h = record {
  same_start = refl;
  same_end = refl;
  same_first = refl;
  same_size = refl;
  same_initialized = refl;
}

pub Keeps-trans : (h h' h'' : Heap) → Keeps h h' → Keeps h' h'' → Keeps h h''
Keeps-trans h h' h'' s t = record {
  same_start = t.same_start ∙ s.same_start;
  same_end = t.same_end ∙ s.same_end;
  same_first = t.same_first ∙ s.same_first;
  same_size = t.same_size ∙ s.same_size;
  same_initialized = t.same_initialized ∙ s.same_initialized;
}

merge_next-Keeps : (b : ℕ) (h : Heap) → Keeps h (merge_next b h)
unfolding merge_next
merge_next-Keeps b h = record {
  same_start = ground arith;
  same_end = ground arith;
  same_first = ground arith;
  same_size = ground arith;
  same_initialized = ground arith;
}

pub split_block-Keeps : (b n : ℕ) (h : Heap) → Keeps h (split_block b n h)
unfolding split_block
split_block-Keeps b n h = record {
  same_start = ground arith;
  same_end = ground arith;
  same_first = ground arith;
  same_size = ground arith;
  same_initialized = ground arith;
}

-- A block passes `validate_block`.
pub IsBlock-valid :
    (b p : ℕ) (h : Heap) → 0 < b → IsBlock (h.header b) p → validate_block b h ≡ true
unfolding validate_block
IsBlock-valid b p h low q =
    let magic = q.magic_set in let more = q.some_size in ground (arith, magic, more)

-- One step of the loop.
module _ (n cur : ℕ) (h : Heap) where
  pub stop_here : cur ≡ 0 → coalesce_from (suc n) cur h ≡ some h
  unfolding coalesce_from
  stop_here e = rw e refl

  stop_last : (h.header cur).next ≡ 0 → coalesce_from (suc n) cur h ≡ some h
  unfolding coalesce_from
  stop_last e = ground (arith, e)

  module _ (p : ℕ) (low : 0 < cur) (q : IsBlock (h.header cur) p)
      (more : (h.header cur).next ≢ 0) where
    step_merge :
        (not (is_used (h.header cur)) && not (is_used (h.header (h.header cur).next))) ≡ true
        → coalesce_from (suc n) cur h ≡ coalesce_from n cur (merge_next cur h)
    unfolding coalesce_from
    step_merge free =
        let valid = IsBlock-valid cur p h low q in
        let here : (cur == 0) ≡ false = ground arith in
        simp (here, ne→== (h.header cur).next 0 more, valid, free) refl

    step_on :
        (not (is_used (h.header cur)) && not (is_used (h.header (h.header cur).next))) ≡ false
        → coalesce_from (suc n) cur h ≡ coalesce_from n (h.header cur).next h
    unfolding coalesce_from
    step_on busy =
        let valid = IsBlock-valid cur p h low q in
        let here : (cur == 0) ≡ false = ground arith in
        simp (here, ne→== (h.header cur).next 0 more, valid, busy) refl

-- Of two neighbours one is used.
abbrev pub Separated : (ℕ → BlockHeader) → List ℕ → Type 0
Separated f [] = Unit {0}
Separated f (b ∷ []) = Unit {0}
Separated f (b ∷ c ∷ bs) =
    ((not (is_used (f b)) && not (is_used (f c))) ≡ false) × Separated f (c ∷ bs)

-- What the loop makes of the blocks `ys` from the place `a` on
pub record Merged (h : Heap) (p cur a : ℕ) (ys : List ℕ) (e : ℕ) (h' : Heap) (bs : List ℕ)
    : Type 0 where
  pub tail : Tail h'.header p cur a bs e
  pub keeps : Keeps h h'
  pub below : (x : ℕ) → x < a → h'.header x ≡ h.header x
  pub fewer : length bs ≤ length ys
  pub separated : Separated h'.header bs
  pub first_flag : (h'.header a).flags ≡ (h.header a).flags
  pub used_kept : used_blocks h'.header bs ≡ used_blocks h.header ys

unchanged :
    (h : Heap) (p cur a : ℕ) (ys : List ℕ) (e : ℕ)
    → Tail h.header p cur a ys e
    → Separated h.header ys
    → Merged h p cur a ys e h ys
unchanged h p cur a ys e t s = record {
  tail = t;
  keeps = Keeps-refl h;
  below = λ x under. refl;
  fewer = omega arith;
  separated = s;
  first_flag = refl;
  used_kept = refl;
}

-- A block in front of merged ones, which is not free with their first
Merged-cons :
    (h h' : Heap) (p b c : ℕ) (zs bs : List ℕ) (e : ℕ)
    → Tail h.header p b b (b ∷ c ∷ zs) e
    → (not (is_used (h.header b)) && not (is_used (h.header c))) ≡ false
    → Merged h b c c (c ∷ zs) e h' bs
    → Merged h p b b (b ∷ c ∷ zs) e h' (b ∷ bs)
Merged-cons h h' p b c zs bs e (l, here, q, (link, place, r, rest)) busy m =
    let more = q.some_size in
    let same : h'.header b ≡ h.header b = m.below b (omega arith) in
    let pair : (not (is_used (h'.header b)) && not (is_used (h'.header c))) ≡ false =
      rw (same, m.first_flag) busy in
    record {
      tail = (refl, refl, rw same q, rw (same, link, ← place) m.tail);
      keeps = m.keeps;
      below = λ x under. m.below x (omega arith);
      fewer = omega (arith, m.fewer);
      separated = separated_cons bs m.tail m.separated pair;
      first_flag = ap (λ (x : BlockHeader). x.flags) same;
      used_kept = rw (same, m.used_kept) refl;
    }
  where
    separated_cons :
        (bs : List ℕ)
        → Tail h'.header b c c bs e
        → Separated h'.header bs
        → (not (is_used (h'.header b)) && not (is_used (h'.header c))) ≡ false
        → Separated h'.header (b ∷ bs)
    separated_cons [] t s pair = tt
    separated_cons (d ∷ ds) (l, here, q, rest) s pair = (rw here pair, s)

-- The loop from the block at `b` on, with one unit of fuel for each block
pub coalesce_from-Merged :
    (n : ℕ) (h : Heap) (p b : ℕ) (ys : List ℕ) (e : ℕ)
    → 0 < b
    → e < 2 ^ 64
    → length ys < n
    → Tail h.header p b b (b ∷ ys) e
    → (h' : Heap) × (bs : List ℕ) × (coalesce_from n b h ≡ some h')
      × Merged h p b b (b ∷ ys) e h' bs
coalesce_from-Merged zero h p b ys e low word room t = absurd (omega arith)
coalesce_from-Merged (suc n) h p b [] e low word room t =
    let (_, _, _, (link, _)) = t in
    (h, b ∷ [], stop_last n b h link, unchanged h p b b (b ∷ []) e t tt)
coalesce_from-Merged (suc n) h p b (c ∷ zs) e low word room t =
    let (_, _, q, (link, place, r, rest)) = t in
    let next : (h.header b).next ≡ c = link ∙ sym place in
    let size = q.some_size in
    let more : (h.header b).next ≢ 0 = omega arith in
    elim (Bool-cases (not (is_used (h.header b)) && not (is_used (h.header (h.header b).next)))) [
      | inl free ↦
          let t' = merge-Tail h p b c zs e t low word in
          let (h', bs, runs, m) =
            coalesce_from-Merged n (merge_next b h) p b zs e low word (omega arith) t' in
          (
            h',
            bs,
            step_merge n b h p low q more free ∙ runs,
            record {
              tail = m.tail;
              keeps = Keeps-trans h (merge_next b h) h' (merge_next-Keeps b h) m.keeps;
              below = λ x under. m.below x under ∙ merge-below h p b c zs e t low word x under;
              fewer = omega (arith, m.fewer);
              separated = m.separated;
              first_flag = m.first_flag ∙ merge-flags h p b c zs e t low word;
              used_kept = m.used_kept ∙ merge-used h p b c zs e t low word (rw (← next) free);
            },
          )
      | inr busy ↦
          let t' : Tail h.header b c c (c ∷ zs) e = (refl, refl, rw place r, rw place rest) in
          let (h', bs, runs, m) =
            coalesce_from-Merged n h b c zs e (omega arith) word (omega arith) t' in
          (
            h',
            b ∷ bs,
            step_on n b h p low q more busy ∙ ap (λ x. coalesce_from n x h) next ∙ runs,
            Merged-cons h h' p b c zs bs e t (rw (← next) busy) m,
          )
    ]
