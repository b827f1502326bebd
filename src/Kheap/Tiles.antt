-- ===== src/Kheap/Tiles.antt =====
-- The blocks of kernel/kheap.c, one behind the other from the start of the heap to its end.
use f_rat_os.Base.{
  Bool-cases, List, [], ap, arith, if◌then◌else◌, inl, inr, length, refl, sym, ℕ, ◌*◌, ◌++◌, ◌+◌,
  ◌<◌, ◌^◌, ◌∙◌, ◌∷◌, ◌≡◌, ◌≤◌, ◌⊎◌,
}
use f_rat_os.Kheap.{BlockHeader, Heap, block_magic, header_size, heap_max_size, is_used}

-- The header of a block whose back link is `prev`
pub record IsBlock (b : BlockHeader) (prev : ℕ) : Type 0 where
  pub magic_set : b.magic ≡ block_magic
  pub some_size : 1 ≤ b.size
  pub flag : b.flags < 2
  pub back : b.prev ≡ prev

-- From a place `a`, with the link and the back link that lead there, the blocks `bs` lie one behind
-- the other and are linked in this order, up to the place `a'` with such links.
abbrev pub Front : (ℕ → BlockHeader) → (prev link a : ℕ) → List ℕ → (prev' link' a' : ℕ) → Type 0
Front f prev link a [] prev' link' a' = (prev ≡ prev') × (link ≡ link') × (a ≡ a')
Front f prev link a (b ∷ bs) prev' link' a' =
    (link ≡ a)
    × (b ≡ a)
    × IsBlock (f a) prev
    × Front f a (f a).next (a + header_size + (f a).size) bs prev' link' a'

-- The same up to the end of the list, at the place `e`
abbrev pub Tail : (ℕ → BlockHeader) → (prev link a : ℕ) → List ℕ → (e : ℕ) → Type 0
Tail f prev link a [] e = (link ≡ 0) × (a ≡ e)
Tail f prev link a (b ∷ bs) e =
    (link ≡ a)
    × (b ≡ a)
    × IsBlock (f a) prev
    × Tail f a (f a).next (a + header_size + (f a).size) bs e

-- The blocks of a heap fill it, from a start below 2 ^ 62 on, and it has not passed its maximum.
pub record IsHeap (h : Heap) (bs : List ℕ) : Type 0 where
  pub tiles : Tail h.header 0 h.first_block h.heap_start bs h.heap_end
  pub start_set : 0 < h.heap_start
  pub start_low : h.heap_start < 2 ^ 62
  pub span : h.heap_end ≡ h.heap_start + h.heap_size
  pub limit : h.heap_size ≤ heap_max_size

pub heap_word : (h : Heap) (bs : List ℕ) → IsHeap h bs → h.heap_end < 2 ^ 64
heap_word h bs v =
    let span = v.span in let start = v.start_low in let limit = v.limit in omega arith

pub Tail-le :
    (f : ℕ → BlockHeader) (prev link a : ℕ) (bs : List ℕ) (e : ℕ)
    → Tail f prev link a bs e
    → a + 37 * length bs ≤ e
Tail-le f prev link a [] e (l, stop) = omega arith
Tail-le f prev link a (b ∷ bs) e (l, here, q, rest) =
    let more = q.some_size in omega (arith, Tail-le f a (f a).next (a + 36 + (f a).size) bs e rest)

pub Front-le :
    (f : ℕ → BlockHeader) (prev link a : ℕ) (bs : List ℕ) (prev' link' a' : ℕ)
    → Front f prev link a bs prev' link' a'
    → a + 37 * length bs ≤ a'
Front-le f prev link a [] prev' link' a' (p, l, stop) = omega arith
Front-le f prev link a (b ∷ bs) prev' link' a' (l, here, q, rest) =
    let more = q.some_size in
    omega (arith, Front-le f a (f a).next (a + 36 + (f a).size) bs prev' link' a' rest)

-- A header that differs in its flags at most
pub record Alike (b c : BlockHeader) : Type 0 where
  pub same_size : c.size ≡ b.size
  pub same_next : c.next ≡ b.next
  pub same_prev : c.prev ≡ b.prev
  pub same_magic : c.magic ≡ b.magic
  pub flag_kept : b.flags < 2 → c.flags < 2

pub Alike-of_eq : (b c : BlockHeader) → c ≡ b → Alike b c
Alike-of_eq b c e = record {
  same_size = ap (λ (x : BlockHeader). x.size) e;
  same_next = ap (λ (x : BlockHeader). x.next) e;
  same_prev = ap (λ (x : BlockHeader). x.prev) e;
  same_magic = ap (λ (x : BlockHeader). x.magic) e;
  flag_kept = λ low. rw e low;
}

IsBlock-Alike : (b c : BlockHeader) (prev : ℕ) → Alike b c → IsBlock b prev → IsBlock c prev
IsBlock-Alike b c prev s q = record {
  magic_set = s.same_magic ∙ q.magic_set;
  some_size = rw s.same_size q.some_size;
  flag = s.flag_kept q.flag;
  back = s.same_prev ∙ q.back;
}

-- Blocks stay while the headers between their two ends are alike.
pub Tail-Alike :
    (f g : ℕ → BlockHeader) (prev link a : ℕ) (bs : List ℕ) (e : ℕ)
    → ((x : ℕ) → a ≤ x → x < e → Alike (f x) (g x))
    → Tail f prev link a bs e
    → Tail g prev link a bs e
Tail-Alike f g prev link a [] e same t = t
Tail-Alike f g prev link a (b ∷ bs) e same (l, here, q, rest) =
    let next = (f a).next in
    let after = a + 36 + (f a).size in
    let behind = Tail-le f a next after bs e rest in
    let s = same a (omega arith) (omega arith) in
    (
      l,
      here,
      IsBlock-Alike (f a) (g a) prev s q,
      rw (s.same_next, s.same_size)
          (Tail-Alike f g a next after bs e (λ x low high. same x (omega arith) high) rest),
    )

pub Front-Alike :
    (f g : ℕ → BlockHeader) (prev link a : ℕ) (bs : List ℕ) (prev' link' a' : ℕ)
    → ((x : ℕ) → a ≤ x → x < a' → Alike (f x) (g x))
    → Front f prev link a bs prev' link' a'
    → Front g prev link a bs prev' link' a'
Front-Alike f g prev link a [] prev' link' a' same t = t
Front-Alike f g prev link a (b ∷ bs) prev' link' a' same (l, here, q, rest) =
    let next = (f a).next in
    let after = a + 36 + (f a).size in
    let behind = Front-le f a next after bs prev' link' a' rest in
    let s = same a (omega arith) (omega arith) in
    (
      l,
      here,
      IsBlock-Alike (f a) (g a) prev s q,
      rw (s.same_next, s.same_size)
          (Front-Alike f g a next after bs prev' link' a' (λ x low high. same x (omega arith) high)
            rest),
    )

-- The blocks in two parts
pub Front-Tail :
    (f : ℕ → BlockHeader) (prev link a : ℕ) (xs ys : List ℕ) (prev' link' a' e : ℕ)
    → Front f prev link a xs prev' link' a'
    → Tail f prev' link' a' ys e
    → Tail f prev link a (xs ++ ys) e
Front-Tail f prev link a [] ys prev' link' a' e (p, l, stop) t = rw (p, l, stop) t
Front-Tail f prev link a (x ∷ xs) ys prev' link' a' e (l, here, q, rest) t =
    (l, here, q, Front-Tail f a (f a).next (a + 36 + (f a).size) xs ys prev' link' a' e rest t)

pub Tail-parts :
    (f : ℕ → BlockHeader) (prev link a : ℕ) (xs ys : List ℕ) (e : ℕ)
    → Tail f prev link a (xs ++ ys) e
    → (prev' : ℕ) × (link' : ℕ) × (a' : ℕ) × Front f prev link a xs prev' link' a'
      × Tail f prev' link' a' ys e
Tail-parts f prev link a [] ys e t = (prev, link, a, (refl, refl, refl), t)
Tail-parts f prev link a (x ∷ xs) ys e (l, here, q, rest) =
    let (p', l', a', front, tail) = Tail-parts f a (f a).next (a + 36 + (f a).size) xs ys e rest in
    (p', l', a', (l, here, q, front), tail)

-- One block more at the end of the first part
pub Front-snoc :
    (f : ℕ → BlockHeader) (prev link a : ℕ) (xs : List ℕ) (prev' b : ℕ)
    → Front f prev link a xs prev' b b
    → IsBlock (f b) prev'
    → Front f prev link a (xs ++ (b ∷ [])) b (f b).next (b + header_size + (f b).size)
Front-snoc f prev link a [] prev' b (p, l, stop) q = (
  l ∙ sym stop,
  sym stop,
  rw (stop, p) q,
  (stop, ap (λ x. (f x).next) stop, ap (λ x. x + 36 + (f x).size) stop),
)
Front-snoc f prev link a (x ∷ xs) prev' b (l, here, q, rest) r =
    (l, here, q, Front-snoc f a (f a).next (a + 36 + (f a).size) xs prev' b rest r)

-- A new back link at the first block of the rest
pub Tail-reprev :
    (f g : ℕ → BlockHeader) (prev prev' link a : ℕ) (bs : List ℕ) (e : ℕ)
    → (a < e → g a ≡ record (f a) { prev = prev' })
    → ((x : ℕ) → a < x → x < e → g x ≡ f x)
    → Tail f prev link a bs e
    → Tail g prev' link a bs e
Tail-reprev f g prev prev' link a [] e first others t = t
Tail-reprev f g prev prev' link a (b ∷ bs) e first others (l, here, q, rest) =
    let next = (f a).next in
    let after = a + 36 + (f a).size in
    let behind = Tail-le f a next after bs e rest in
    let changed = first (omega arith) in
    let kept =
      Tail-Alike f g a next after bs e
        (λ x low high. Alike-of_eq (f x) (g x) (others x (omega arith) high)) rest in
    (
      l,
      here,
      rw changed
          (record { magic_set = q.magic_set; some_size = q.some_size; flag = q.flag; back = refl }),
      rw changed kept,
    )

-- The link to the rest leads to its first block, or is NULL at the end.
pub Tail-link :
    (f : ℕ → BlockHeader) (prev link a : ℕ) (bs : List ℕ) (e : ℕ)
    → Tail f prev link a bs e
    → ((link ≡ 0) × (a ≡ e)) ⊎ ((link ≡ a) × (a < e))
Tail-link f prev link a [] e t = inl t
Tail-link f prev link a (b ∷ bs) e (l, here, q, rest) =
    let behind = Tail-le f a (f a).next (a + 36 + (f a).size) bs e rest in inr (l, omega arith)

-- The same places by other names
pub Tail-at :
    (f : ℕ → BlockHeader) (prev l l' a a' : ℕ) (bs : List ℕ) (e e' : ℕ)
    → l' ≡ l
    → a' ≡ a
    → e' ≡ e
    → Tail f prev l a bs e
    → Tail f prev l' a' bs e'
Tail-at f prev l l' a a' bs e e' p q r t = rw (p, q, r) t

-- The blocks in use, with their sizes
abbrev pub used_blocks : (ℕ → BlockHeader) → List ℕ → List (ℕ × ℕ)
used_blocks f [] = []
used_blocks f (b ∷ bs) =
    if is_used (f b) then (b, (f b).size) ∷ used_blocks f bs else used_blocks f bs

abbrev pub SameUse : (b c : BlockHeader) → Type 0
SameUse b c = (c.flags ≡ b.flags) × (c.size ≡ b.size)

pub SameUse-of_eq : (b c : BlockHeader) → c ≡ b → SameUse b c
SameUse-of_eq b c e = (ap (λ (x : BlockHeader). x.flags) e, ap (λ (x : BlockHeader). x.size) e)

pub used-SameUse :
    (f g : ℕ → BlockHeader) (prev link a : ℕ) (bs : List ℕ) (e : ℕ)
    → ((x : ℕ) → a ≤ x → SameUse (f x) (g x))
    → Tail f prev link a bs e
    → used_blocks g bs ≡ used_blocks f bs
used-SameUse f g prev link a [] e same t = refl
used-SameUse f g prev link a (b ∷ bs) e same (l, here, q, rest) =
    let (flags, size) = same b (omega arith) in
    let more = q.some_size in
    let later =
      used-SameUse f g a (f a).next (a + 36 + (f a).size) bs e (λ x low. same x (omega arith))
        rest in
    rw (flags, size, later) refl

pub used-append :
    (f : ℕ → BlockHeader) (xs ys : List ℕ)
    → used_blocks f (xs ++ ys) ≡ used_blocks f xs ++ used_blocks f ys
used-append f [] ys = refl
used-append f (x ∷ xs) ys = elim (Bool-cases (is_used (f x))) [
  | inl e ↦ rw (e, used-append f xs ys) refl
  | inr e ↦ rw (e, used-append f xs ys) refl
]

pub Front-used :
    (f g : ℕ → BlockHeader) (prev link a : ℕ) (bs : List ℕ) (prev' link' a' : ℕ)
    → ((x : ℕ) → x < a' → SameUse (f x) (g x))
    → Front f prev link a bs prev' link' a'
    → used_blocks g bs ≡ used_blocks f bs
Front-used f g prev link a [] prev' link' a' same t = refl
Front-used f g prev link a (b ∷ bs) prev' link' a' same (l, here, q, rest) =
    let behind = Front-le f a (f a).next (a + 36 + (f a).size) bs prev' link' a' rest in
    let (flags, size) = same b (omega arith) in
    let later = Front-used f g a (f a).next (a + 36 + (f a).size) bs prev' link' a' same rest in
    rw (flags, size, later) refl
