-- ===== src/Fifo.antt =====
-- A bounded queue, oldest item first: what the keyboard's ring buffer promises.
use f_rat_os.Base.{ℕ, List, [], ◌∷◌, ◌++◌, ltb, if◌then◌else◌, length}

abbrev pub Fifo : Type 0
Fifo = List ℕ

-- An item is dropped if `cap` items wait.
unfoldable pub enqueue : (cap : ℕ) → Fifo → ℕ → Fifo
enqueue cap q x = if ltb (length q) cap then q ++ (x ∷ []) else q

unfoldable pub dequeue : Fifo → ℕ × Fifo
dequeue [] = (0, [])
dequeue (x ∷ q) = (x, q)
