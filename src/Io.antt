-- ===== src/Io.antt =====
-- kernel/io.h: port input and output, and what the console is given. The devices are a script of
-- the reads to come, in order, each with its port and the answer. A run that needs more answers than
-- the script has is still waiting, and one that reads another port than the script has next is none
-- that the script tells of: both are `none`.
use f_rat_os.Base.{Bool, List, Option, [], if◌then◌else◌, none, some, ℕ, ◌++◌, ◌==◌, ◌∷◌}

pub record World : Type 0 where
  pub reads : List (ℕ × ℕ)
  pub writes : List (ℕ × ℕ)
  pub printed : List ℕ

abbrev pub Io : Type 0 → Type 0
Io A = World → Option (A × World)

abbrev pub pure : {A : Type 0} → A → Io A
pure a w = some (a, w)

infixl 5 ◌>>=◌ ◌>>◌
abbrev pub ◌>>=◌ : {A B : Type 0} → Io A → (A → Io B) → Io B
◌>>=◌ m f w = elim (m w) [ none ↦ none | some (a, w') ↦ f a w' ]

abbrev pub ◌>>◌ : {A B : Type 0} → Io A → Io B → Io B
m >> n = m >>= λ _. n

-- The answer to the next read, if it is of this port
take_read : (port : ℕ) → List (ℕ × ℕ) → World → Option (ℕ × World)
take_read port [] w = none
take_read port ((p, r) ∷ rs) w = if p == port then some (r, record w { reads = rs }) else none

-- `inb`
unfoldable pub inb : ℕ → Io ℕ
unfolding take_read
inb port w = take_read port w.reads w

-- `outb`; the last write stands last.
unfoldable pub outb : ℕ → ℕ → Io (Unit {0})
outb port value w = some (tt, record w { writes = w.writes ++ ((port, value) ∷ []) })

-- `console_print` of a string of one character
unfoldable pub print_char : ℕ → Io (Unit {0})
print_char c w = some (tt, record w { printed = w.printed ++ (c ∷ []) })

-- What is left of the answers once a loop `while (test(inb(port))) {}` ends.
unfoldable pub skip_while : (ℕ → Bool) → (port : ℕ) → List (ℕ × ℕ) → Option (List (ℕ × ℕ))
skip_while test port [] = none
skip_while test port ((p, r) ∷ rs) =
    let rest = skip_while test port rs in
    if p == port then (if test r then rest else some rs) else none

unfoldable pub wait_while : (ℕ → Bool) → ℕ → Io (Unit {0})
wait_while test port w = elim (skip_while test port w.reads) [
  | none ↦ none
  | some rs ↦ some (tt, record w { reads = rs })
]
