-- ===== src/Keyboard/Buffer.antt =====
-- The ring buffer of kernel/keyboard.c refines a bounded queue.
use f_rat_os.Base.{
  ℕ, zero, suc, ◌+◌, ◌-◌, ◌%◌, ◌≤◌, ◌<◌, ◌≡◌, refl, ap, ◌∙◌, ◌≢◌, Option, none, some, List, [], ◌∷◌,
  ◌++◌, arith, length, get_or, set, length-set, get_or-set_self, get_or-set_ne,
}
use f_rat_os.Fifo.{Fifo, dequeue, enqueue}
use f_rat_os.Keyboard.{
  Keyboard, buffer_pop, buffer_push, flush_buffer, getchar, has_key, keyboard_buffer_size,
}

-- The buffer has its 256 bytes, the positions lie in it, and the write position follows the
-- `count` characters that wait from the read position on.
pub record IsRing (k : Keyboard) : Type 0 where
  pub size : length k.buffer ≡ keyboard_buffer_size
  pub read_in : k.read_pos < keyboard_buffer_size
  pub count_in : k.count ≤ keyboard_buffer_size
  pub write_at : k.write_pos ≡ (k.read_pos + k.count) % keyboard_buffer_size

-- The `n` characters from position `r` on.
abbrev pub waiting : List ℕ → (r n : ℕ) → Fifo
waiting buf r zero = []
waiting buf r (suc n) = get_or buf r 0 ∷ waiting buf ((r + 1) % 256) n

-- What waits in the buffer, oldest first.
abbrev pub contents : Keyboard → Fifo
contents k = waiting k.buffer k.read_pos k.count

length-waiting : (buf : List ℕ) (r n : ℕ) → length (waiting buf r n) ≡ n
length-waiting buf r zero = refl
length-waiting buf r (suc n) = ap suc (length-waiting buf ((r + 1) % 256) n)

waiting_pos :
    (buf : List ℕ) (r n : ℕ)
    → n ≢ 0
    → waiting buf r n ≡ get_or buf r 0 ∷ waiting buf ((r + 1) % 256) (n - 1)
waiting_pos buf r zero h = absurd (h refl)
waiting_pos buf r (suc n) h = ap (λ m. waiting buf r (suc m)) (omega arith)

waiting_zero : (buf : List ℕ) (r n : ℕ) → n ≡ 0 → waiting buf r n ≡ []
waiting_zero buf r zero h = refl
waiting_zero buf r (suc n) h = absurd (omega arith)

-- Writing behind what waits appends a character.
waiting-set :
    (buf : List ℕ) (x w r n : ℕ)
    → length buf ≡ 256
    → r < 256
    → n < 256
    → w ≡ (r + n) % 256
    → waiting (set buf w x) r (suc n) ≡ waiting buf r n ++ (x ∷ [])
waiting-set buf x w r zero size hr hn at =
    let e : w ≡ r = omega arith in rw e (ap (λ c. c ∷ []) (get_or-set_self buf r x 0 (omega arith)))
waiting-set buf x w r (suc n) size hr hn at =
    rw
      (
        get_or-set_ne buf w r x 0 (omega arith),
        waiting-set buf x w ((r + 1) % 256) n size (omega arith) (omega arith) (omega arith),
      )
      refl

module _ {k : Keyboard} (v : IsRing k) where
  pub length-contents : length (contents k) ≡ k.count
  length-contents = length-waiting k.buffer k.read_pos k.count

  pub buffer_push-IsRing : (x : ℕ) → IsRing (buffer_push k x)
  unfolding buffer_push
  buffer_push-IsRing x = ground (arith, length-set k.buffer k.write_pos x)

  pub buffer_pop-IsRing : IsRing (buffer_pop k).1
  unfolding buffer_pop
  buffer_pop-IsRing = ground arith

  pub buffer_push_refines :
      (x : ℕ) → contents (buffer_push k x) ≡ enqueue keyboard_buffer_size (contents k) x
  unfolding buffer_push enqueue
  buffer_push_refines x = ground (
    arith,
    length-contents,
    waiting-set k.buffer x k.write_pos k.read_pos k.count v.size v.read_in,
    v.write_at,
  )

  pub buffer_pop_refines : ((buffer_pop k).0, contents (buffer_pop k).1) ≡ dequeue (contents k)
  unfolding buffer_pop dequeue
  buffer_pop_refines = ground (arith, waiting_pos k.buffer k.read_pos k.count)

-- What reaches the buffer: a character from the handler, a read by `keyboard_getchar`, or a flush.
pub data BufferCall : Type 0 where
  put : ℕ → BufferCall
  get : BufferCall
  flush : BufferCall

-- The driver's answers to a sequence of calls: at a read, the character, or `none` if it waits.
unfoldable pub run : List BufferCall → Keyboard → List (Option ℕ)
run [] k = []
run (put x ∷ cs) k = run cs (buffer_push k x)
run (get ∷ cs) k = elim (getchar k) [ none ↦ none ∷ run cs k | some (c, k') ↦ some c ∷ run cs k' ]
run (flush ∷ cs) k = run cs (flush_buffer k)

-- The answers of a queue of at most 256 characters.
unfoldable pub run_fifo : List BufferCall → Fifo → List (Option ℕ)
run_fifo [] q = []
run_fifo (put x ∷ cs) q = run_fifo cs (enqueue keyboard_buffer_size q x)
run_fifo (get ∷ cs) [] = none ∷ run_fifo cs []
run_fifo (get ∷ cs) (x ∷ q) = some x ∷ run_fifo cs q
run_fifo (flush ∷ cs) q = run_fifo cs []

module _ {k : Keyboard} (v : IsRing k) where
  flush_buffer-IsRing : IsRing (flush_buffer k)
  unfolding flush_buffer
  flush_buffer-IsRing = ground arith

  -- A read of the queue that waits, by what the buffer holds.
  getchar_refines :
      (cs : List BufferCall)
      → ((k' : Keyboard) → IsRing k' → run cs k' ≡ run_fifo cs (contents k'))
      → run (get ∷ cs) k ≡ run_fifo (get ∷ cs) (contents k)
  unfolding run run_fifo getchar has_key buffer_pop
  getchar_refines cs rest = ground (
    arith,
    rest k v,
    rest (buffer_pop k).1 (buffer_pop-IsRing v),
    waiting_zero k.buffer k.read_pos k.count,
    waiting_pos k.buffer k.read_pos k.count,
  )

-- No sequence of calls tells the ring buffer of 256 bytes from a queue of at most 256 characters:
-- reads come in the order of arrival, and a character is dropped exactly if 256 wait.
pub run_refines :
    (cs : List BufferCall) (k : Keyboard) → IsRing k → run cs k ≡ run_fifo cs (contents k)
unfolding run run_fifo flush_buffer
run_refines [] k v = refl
run_refines (put x ∷ cs) k v =
    run_refines cs (buffer_push k x) (buffer_push-IsRing v x)
    ∙ ap (run_fifo cs) (buffer_push_refines v x)
run_refines (get ∷ cs) k v = getchar_refines v cs (run_refines cs)
run_refines (flush ∷ cs) k v = run_refines cs (flush_buffer k) (flush_buffer-IsRing v)
