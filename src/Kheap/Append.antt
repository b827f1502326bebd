-- ===== src/Kheap/Append.antt =====
-- The new block of `kheap_expand` of kernel/kheap.c at the end of a list that fills the heap.
use f_rat_os.Base.{
  ==_self, List, [], ap, arith, false, length, refl, some, suc, sym, zero, ℕ, ◌++◌, ◌+◌, ◌<◌, ◌==◌,
  ◌∙◌, ◌∷◌, ◌≡◌, ◌≤◌,
}
use f_rat_os.Kheap.{
  BlockHeader, Heap, append_block, block_magic, header_size, last_from, put_header, set_next,
  set_prev,
}
use f_rat_os.Kheap.Tiles.{
  Alike-of_eq, Front-Alike, Front-Tail, Front-used, IsBlock, IsHeap, SameUse-of_eq, Tail,
  Tail-Alike, Tail-parts, used-append, used_blocks,
}
use f_rat_os.Task.{update}
use mathlib.Core.List.{append_assoc}
use mathlib.Core.Path.{subst}

-- The last block of a list that begins with `b`
abbrev last_of : (b : ℕ) → List ℕ → ℕ
last_of b [] = b
last_of b (c ∷ ys) = last_of c ys

all_but_last : (b : ℕ) → List ℕ → List ℕ
all_but_last b [] = []
all_but_last b (c ∷ ys) = b ∷ all_but_last c ys

parts_of_last : (b : ℕ) (ys : List ℕ) → b ∷ ys ≡ all_but_last b ys ++ (last_of b ys ∷ [])
unfolding all_but_last
parts_of_last b [] = refl
parts_of_last b (c ∷ ys) = ap (λ (l : List ℕ). b ∷ l) (parts_of_last c ys)

last_from-Tail :
    (n : ℕ) (h : Heap) (p b : ℕ) (ys : List ℕ) (e : ℕ)
    → 0 < b
    → length ys < n
    → Tail h.header p b b (b ∷ ys) e
    → last_from n b h ≡ some (last_of b ys)
unfolding last_from
last_from-Tail zero h p b ys e low room t = absurd (omega arith)
last_from-Tail (suc n) h p b [] e low room (_, _, q, (link, _)) =
    let here : (b == 0) ≡ false = ground arith in simp (here, link) refl
last_from-Tail (suc n) h p b (c ∷ zs) e low room (_, _, q, (link, place, r, rest)) =
    let here : (b == 0) ≡ false = ground arith in
    let next : (h.header b).next ≡ c = link ∙ sym place in
    let more : (c == 0) ≡ false = ground arith in
    simp (here, next, more)
      (last_from-Tail n h b c zs e (omega arith) (omega arith)
        (refl, refl, rw place r, rw place rest))

-- A new block `made` at the end, behind the last one
module _ (f : ℕ → BlockHeader) (made : BlockHeader) (e : ℕ) where
  abbrev placed : ℕ → BlockHeader
  placed = update f e made

  abbrev led : (last : ℕ) → ℕ → BlockHeader
  led last = update placed last (record (placed last) { next = e })

  abbrev linked : (last : ℕ) → ℕ → BlockHeader
  linked last = update (led last) e (record (led last e) { prev = last })

  module _ (magic : made.magic ≡ block_magic) (sized : 1 ≤ made.size) (free : made.flags ≡ 0)
      (end : made.next ≡ 0) where
    linked-below : (last x : ℕ) → x < last → last < e → linked last x ≡ f x
    linked-below last x under before =
        let a : (x == e) ≡ false = ground arith in
        let b : (x == last) ≡ false = ground arith in simp (a, b) refl

    linked-last : (last : ℕ) → last < e → linked last last ≡ record (f last) { next = e }
    linked-last last before =
        let a : (last == e) ≡ false = ground arith in simp (a, ==_self last) refl

    linked-new : (last : ℕ) → last < e → linked last e ≡ record made { prev = last }
    linked-new last before = let a : (e == last) ≡ false = ground arith in simp (a, ==_self e) refl

    linked-Tail :
        (link a : ℕ) (xs : List ℕ) (last : ℕ)
        → Tail f 0 link a (xs ++ (last ∷ [])) e
        → Tail (linked last) 0 link a (xs ++ (last ∷ e ∷ [])) (e + header_size + made.size)
    linked-Tail link a xs last t =
        let (p, l, c, front, (to, here, q, (stop, place))) =
          Tail-parts f 0 link a xs (last ∷ []) e t in
        let before : last < e = omega arith in
        let there : l ≡ last = to ∙ sym here in
        let kept =
          Front-Alike f (linked last) 0 link a xs p l c
            (λ x from under.
              Alike-of_eq (f x) (linked last x) (linked-below last x (rw here under) before))
            front in
        let size : last + 36 + (f last).size ≡ e = rw here place in
        let new : IsBlock (linked last e) last = rw (linked-new last before) (record {
          magic_set = magic;
          some_size = sized;
          flag = rw free (omega arith);
          back = refl;
        }) in
        let old : IsBlock (linked last last) p =
          rw (linked-last last before, here)
            (record {
              magic_set = q.magic_set;
              some_size = q.some_size;
              flag = q.flag;
              back = q.back;
            }) in
        let both : Tail (linked last) p last last (last ∷ e ∷ []) (e + 36 + made.size) = (
          refl,
          refl,
          old,
          rw (linked-last last before, size)
              (refl, refl, new, rw (linked-new last before) (end, refl)),
        ) in
        Front-Tail (linked last) 0 link a xs (last ∷ e ∷ []) p l c (e + 36 + made.size) kept
          (rw (there, ← here) both)

    linked-used :
        (link a : ℕ) (xs : List ℕ) (last : ℕ)
        → Tail f 0 link a (xs ++ (last ∷ [])) e
        → used_blocks (linked last) (xs ++ (last ∷ e ∷ [])) ≡ used_blocks f (xs ++ (last ∷ []))
    linked-used link a xs last t =
        let (p, l, c, front, (to, here, q, (stop, place))) =
          Tail-parts f 0 link a xs (last ∷ []) e t in
        let before : last < e = omega arith in
        let kept =
          Front-used f (linked last) 0 link a xs p l c
            (λ x under.
              SameUse-of_eq (f x) (linked last x) (linked-below last x (rw here under) before))
            front in
        used-append (linked last) xs (last ∷ e ∷ [])
        ∙ rw (kept, linked-last last before, linked-new last before, free)
            (sym (used-append f xs (last ∷ [])))

-- What the new block at the end of the list leaves
pub record Appended (h h' : Heap) (bs : List ℕ) (size : ℕ) : Type 0 where
  pub tail :
      Tail h'.header 0 h'.first_block h'.heap_start
        (bs ++ (h.heap_end ∷ []))
        (h.heap_end + header_size + size)
  pub same_start : h'.heap_start ≡ h.heap_start
  pub same_end : h'.heap_end ≡ h.heap_end
  pub same_size : h'.heap_size ≡ h.heap_size
  pub same_initialized : h'.initialized ≡ h.initialized
  pub used_kept : used_blocks h'.header (bs ++ (h.heap_end ∷ [])) ≡ used_blocks h.header bs

-- A free block of `size` bytes, not yet linked
abbrev pub fresh : (size : ℕ) → BlockHeader
fresh size = record { size = size; flags = 0; next = 0; prev = 0; magic = block_magic }

append_first :
    (fuel size : ℕ) (h : Heap)
    → IsHeap h []
    → 1 ≤ size
    → (h' : Heap) × (append_block fuel (fresh size) h ≡ some h') × Appended h h' [] size
unfolding append_block
append_first fuel size h v sized =
    let (none_left, place) = v.tiles in
    let here = ==_self h.heap_end in
    (
      record (put_header h.heap_end (fresh size) h) { first_block = h.heap_end },
      simp none_left refl,
      record {
        tail = rw place (
          refl,
          refl,
          simp here
              (record { magic_set = refl; some_size = sized; flag = omega arith; back = refl }),
          simp here (refl, refl),
        );
        same_start = refl;
        same_end = refl;
        same_size = refl;
        same_initialized = refl;
        used_kept = simp here refl;
      },
    )

append_behind :
    (fuel size : ℕ) (h : Heap) (b : ℕ) (ys : List ℕ)
    → IsHeap h (b ∷ ys)
    → 1 ≤ size
    → length ys < fuel
    → (h' : Heap) × (append_block fuel (fresh size) h ≡ some h') × Appended h h' (b ∷ ys) size
unfolding append_block
append_behind fuel size h b ys v sized room =
    let (first, here, q, rest) = v.tiles in
    let e = h.heap_end in
    let made = put_header e (fresh size) h in
    let start = v.start_set in
    let at_start : h.first_block ≡ b = first ∙ sym here in
    let given : (h.first_block == 0) ≡ false = ground (arith, at_start) in
    let last = last_of b ys in
    let xs = all_but_last b ys in
    let t : Tail h.header 0 h.first_block h.heap_start (xs ++ (last ∷ [])) e =
      rw (← parts_of_last b ys) v.tiles in
    let found : last_from fuel h.first_block made ≡ some last =
      ap (λ x. last_from fuel x made) at_start
      ∙ last_from-Tail fuel made 0 b ys e (rw here start) room (
          Tail-Alike h.header made.header 0 b b (b ∷ ys) e
            (λ x from under.
              Alike-of_eq (h.header x) (made.header x)
                (let other : (x == e) ≡ false = ground arith in simp other refl))
            (refl, refl, rw here q, rw here rest)) in
    let whole : (b ∷ ys) ++ (e ∷ []) ≡ xs ++ (last ∷ e ∷ []) =
      ap (λ l. l ++ (e ∷ [])) (parts_of_last b ys) ∙ append_assoc xs (last ∷ []) (e ∷ []) in
    (
      set_prev e last (set_next last e made),
      simp (given, found) refl,
      record {
        tail =
            subst
              (λ l.
                Tail (linked h.header (fresh size) e last) 0 h.first_block h.heap_start l
                  (e + 36 + size))
              (sym whole)
              (linked-Tail h.header (fresh size) e refl sized refl refl h.first_block h.heap_start
                xs last t);
        same_start = refl;
        same_end = refl;
        same_size = refl;
        same_initialized = refl;
        used_kept =
            ap (used_blocks (linked h.header (fresh size) e last)) whole
            ∙ linked-used h.header (fresh size) e refl sized refl refl h.first_block h.heap_start xs
                last t
            ∙ ap (used_blocks h.header) (sym (parts_of_last b ys));
      },
    )

pub append_block-Appended :
    (fuel size : ℕ) (h : Heap) (bs : List ℕ)
    → IsHeap h bs
    → 1 ≤ size
    → length bs ≤ fuel
    → (h' : Heap) × (append_block fuel (fresh size) h ≡ some h') × Appended h h' bs size
append_block-Appended fuel size h [] v sized room = append_first fuel size h v sized
append_block-Appended fuel size h (b ∷ ys) v sized room =
    append_behind fuel size h b ys v sized (omega arith)
