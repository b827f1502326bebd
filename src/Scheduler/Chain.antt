-- ===== src/Scheduler/Chain.antt =====
-- Doubly linked lists in a store: what the `next` and `prev` fields of a queue's members say, and
-- how a write to one field moves it.
use f_rat_os.Base.{ℕ, ◌≡◌, refl, sym, ◌∙◌, ◌≢◌, List, [], ◌∷◌, ◌++◌}
use mathlib.Core.Path.{subst}

-- `a` is no member of the list.
abbrev pub NotIn : ℕ → List ℕ → Type 0
NotIn a [] = Unit {0}
NotIn a (p ∷ q) = (a ≢ p) × NotIn a q

abbrev pub Distinct : List ℕ → Type 0
Distinct [] = Unit {0}
Distinct (p ∷ q) = NotIn p q × Distinct q

-- The first member, or `after` if there is none.
abbrev pub first_of_list : (after : ℕ) → List ℕ → ℕ
first_of_list after [] = after
first_of_list after (p ∷ q) = p

-- The last member, or `before` if there is none.
abbrev pub last_of_list : (before : ℕ) → List ℕ → ℕ
last_of_list before [] = before
last_of_list before (p ∷ q) = last_of_list p q

-- The members of `q` are linked in order, between `before` and `after`.
abbrev pub Chain : (nx pv : ℕ → ℕ) (before after : ℕ) → List ℕ → Type 0
Chain nx pv before after [] = Unit {0}
Chain nx pv before after (p ∷ q) =
    (p ≢ 0) × (pv p ≡ before) × (nx p ≡ first_of_list after q) × Chain nx pv p after q

-- Nothing in the list is changed.
pub Chain-frame :
    (nx pv nx' pv' : ℕ → ℕ) (before after : ℕ) (q : List ℕ)
    → ((a : ℕ) → (NotIn a q → ⊥) → (nx' a ≡ nx a) × (pv' a ≡ pv a))
    → Chain nx pv before after q
    → Chain nx' pv' before after q
Chain-frame nx pv nx' pv' before after [] same c = tt
Chain-frame nx pv nx' pv' before after (p ∷ q) same (nz, b, e, c) = (
  nz,
  (same p (λ n. n.0 refl)).1 ∙ b,
  (same p (λ n. n.0 refl)).0 ∙ e,
  Chain-frame nx pv nx' pv' p after q (λ a h. same a (λ n. h n.1)) c,
)

pub Chain-append :
    (nx pv : ℕ → ℕ) (before after : ℕ) (xs ys : List ℕ)
    → Chain nx pv before (first_of_list after ys) xs
    → Chain nx pv (last_of_list before xs) after ys
    → Chain nx pv before after (xs ++ ys)
Chain-append nx pv before after [] ys c d = d
Chain-append nx pv before after (p ∷ []) ys c d = (c.0, c.1, c.2, d)
Chain-append nx pv before after (p ∷ r ∷ xs) ys c d =
    (c.0, c.1, c.2, Chain-append nx pv p after (r ∷ xs) ys c.3 d)

pub Chain-split :
    (nx pv : ℕ → ℕ) (before after : ℕ) (xs ys : List ℕ)
    → Chain nx pv before after (xs ++ ys)
    → Chain nx pv before (first_of_list after ys) xs × Chain nx pv (last_of_list before xs) after ys
Chain-split nx pv before after [] ys c = (tt, c)
Chain-split nx pv before after (p ∷ []) ys c = ((c.0, c.1, c.2, tt), c.3)
Chain-split nx pv before after (p ∷ r ∷ xs) ys c =
    let (d, e) = Chain-split nx pv p after (r ∷ xs) ys c.3 in ((c.0, c.1, c.2, d), e)

-- `a` is a member of the list.
abbrev pub In : ℕ → List ℕ → Type 0
In a q = NotIn a q → ⊥

pub In-left : (a : ℕ) (xs ys : List ℕ) → In a xs → In a (xs ++ ys)
In-left a [] ys h = absurd (h tt)
In-left a (x ∷ xs) ys h = λ n. In-left a xs ys (λ m. h (n.0, m)) n.1

pub NotIn-append : (a : ℕ) (xs ys : List ℕ) → NotIn a xs → NotIn a ys → NotIn a (xs ++ ys)
NotIn-append a [] ys h k = k
NotIn-append a (x ∷ xs) ys h k = (h.0, NotIn-append a xs ys h.1 k)

pub NotIn-split : (a : ℕ) (xs ys : List ℕ) → NotIn a (xs ++ ys) → NotIn a xs × NotIn a ys
NotIn-split a [] ys h = (tt, h)
NotIn-split a (x ∷ xs) ys h = let (l, r) = NotIn-split a xs ys h.1 in ((h.0, l), r)

-- A member is not what is no member.
pub In-ne : (a p : ℕ) (q : List ℕ) → NotIn p q → In a q → a ≢ p
In-ne a p q n i e = i (subst (λ x. NotIn x q) (sym e) n)

pub In-first : (p : ℕ) (q : List ℕ) → In p (p ∷ q)
In-first p q n = n.0 refl

pub In-last : (p : ℕ) (q : List ℕ) → In (last_of_list p q) (p ∷ q)
In-last p [] n = n.0 refl
In-last p (r ∷ q) n = In-last r q n.1

pub Distinct-split :
    (xs ys : List ℕ)
    → Distinct (xs ++ ys)
    → Distinct xs × Distinct ys × ((a : ℕ) → In a ys → NotIn a xs)
Distinct-split [] ys d = (tt, d, λ a i. tt)
Distinct-split (x ∷ xs) ys d =
    let (l, r, away) = Distinct-split xs ys d.1 in
    (
      ((NotIn-split x xs ys d.0).0, l),
      r,
      λ a i. (In-ne a x ys (NotIn-split x xs ys d.0).1 i, away a i),
    )

pub Distinct-join :
    (xs ys : List ℕ)
    → Distinct xs
    → Distinct ys
    → ((a : ℕ) → In a xs → NotIn a ys)
    → Distinct (xs ++ ys)
Distinct-join [] ys d e away = e
Distinct-join (x ∷ xs) ys d e away = (
  NotIn-append x xs ys d.0 (away x (In-first x xs)),
  Distinct-join xs ys d.1 e (λ a i. away a (λ n. i n.1)),
)

pub last-append :
    (before : ℕ) (xs ys : List ℕ)
    → last_of_list before (xs ++ ys) ≡ last_of_list (last_of_list before xs) ys
last-append before [] ys = refl
last-append before (x ∷ xs) ys = last-append x xs ys

-- The links inside are kept, the two at the ends are set anew.
pub Chain-move :
    (nx pv nx' pv' : ℕ → ℕ) (before before' after after' p : ℕ) (q : List ℕ)
    → Distinct (p ∷ q)
    → ((a : ℕ) → In a (p ∷ q) → a ≢ last_of_list p q → nx' a ≡ nx a)
    → nx' (last_of_list p q) ≡ after'
    → ((a : ℕ) → In a (p ∷ q) → a ≢ p → pv' a ≡ pv a)
    → pv' p ≡ before'
    → Chain nx pv before after (p ∷ q)
    → Chain nx' pv' before' after' (p ∷ q)
Chain-move nx pv nx' pv' before before' after after' p [] d sn en sp ep c = (c.0, ep, en, tt)
Chain-move nx pv nx' pv' before before' after after' p (r ∷ q) d sn en sp ep c = (
  c.0,
  ep,
  sn p (In-first p (r ∷ q)) (λ e. In-ne (last_of_list r q) p (r ∷ q) d.0 (In-last r q) (sym e))
      ∙ c.2,
  Chain-move nx pv nx' pv' p p after after' r q d.1 (λ a i. sn a (λ n. i n.1)) en
      (λ a i ne. sp a (λ n. i n.1) (In-ne a p (r ∷ q) d.0 i))
      (sp r (λ n. n.1.0 refl) (λ e. d.0.0 (sym e)) ∙ c.3.1) c.3,
)

pub Chain-last :
    (nx pv : ℕ → ℕ) (before after p : ℕ) (q : List ℕ)
    → Chain nx pv before after (p ∷ q)
    → nx (last_of_list p q) ≡ after
Chain-last nx pv before after p [] c = c.2
Chain-last nx pv before after p (r ∷ q) c = Chain-last nx pv p after r q c.3

pub Chain-zero :
    (nx pv : ℕ → ℕ) (before after : ℕ) (q : List ℕ) → Chain nx pv before after q → NotIn 0 q
Chain-zero nx pv before after [] c = tt
Chain-zero nx pv before after (p ∷ q) c = ((λ e. c.0 (sym e)), Chain-zero nx pv p after q c.3)

-- Two lists without a common member, seen from the other one.
pub Apart_sym : (xs ys : List ℕ) → ((a : ℕ) → In a ys → NotIn a xs) → (a : ℕ) → In a xs → NotIn a ys
Apart_sym xs [] away a i = tt
Apart_sym xs (y ∷ ys) away a i =
    (In-ne a y xs (away y (In-first y ys)) i, Apart_sym xs ys (λ b j. away b (λ n. j n.1)) a i)

-- The member before a list, or 0, is not in it.
pub before_away :
    (xs ys : List ℕ) → ((a : ℕ) → In a xs → NotIn a ys) → NotIn 0 ys → NotIn (last_of_list 0 xs) ys
before_away [] ys apart zero_away = zero_away
before_away (x ∷ xs) ys apart zero_away = apart (last_of_list x xs) (In-last x xs)

-- The first of a list that `a`, not 0, is not in, is not `a`.
pub first_away : (a : ℕ) (ys : List ℕ) → a ≢ 0 → NotIn a ys → a ≢ first_of_list 0 ys
first_away a [] z n = z
first_away a (y ∷ ys) z n = n.0

pub last_away : (a : ℕ) (ys : List ℕ) → a ≢ 0 → NotIn a ys → last_of_list 0 ys ≢ a
last_away a [] z n = λ e. z (sym e)
last_away a (y ∷ ys) z n = In-ne (last_of_list y ys) a (y ∷ ys) n (In-last y ys)
