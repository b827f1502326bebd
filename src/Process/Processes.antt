-- ===== src/Process/Processes.antt =====
-- The list of processes in kernel/process.c.
use f_rat_os.Base.{
  ==_self, List, Option, [], add32, ap, arith, false, length, ne→==, refl, some, suc, zero, ℕ, ◌+◌,
  ◌<◌, ◌==◌, ◌^◌, ◌∙◌, ◌∷◌, ◌≡◌, ◌≢◌,
}
use f_rat_os.Kheap.{Heap, kmalloc}
use f_rat_os.Process.{Process, System, process_size}
use f_rat_os.Process.Create.{
  count_from, find_pid_from, link_process, new_process, process_count, process_create,
  process_find_by_pid,
}

-- The list from the process at `p` on has the processes `ps`.
abbrev pub Processes : System → (p : ℕ) → List ℕ → Type 0
Processes k p [] = p ≡ 0
Processes k p (q ∷ qs) = (p ≡ q) × (q ≢ 0) × Processes k (k.process q).next qs

abbrev pub Without : ℕ → List ℕ → Type 0
Without p [] = Unit {0}
Without p (q ∷ qs) = (q ≢ p) × Without p qs

module _ (p : ℕ) (name : Option (List ℕ)) (k : System) where
  link-head : (link_process p name k).process_list_head ≡ p
  unfolding link_process
  link-head = refl

  link-new : k.process_list_head ≢ p → (link_process p name k).process p ≡ new_process name k
  unfolding link_process
  link-new apart = let other = ne→== k.process_list_head p apart in ground (arith, other)

  link-next : (q : ℕ) → q ≢ p → ((link_process p name k).process q).next ≡ (k.process q).next
  unfolding link_process
  link-next q apart = let other = ne→== q p apart in ground (arith, other)

  link-Processes :
      (qs : List ℕ) (q : ℕ)
      → Without p qs
      → Processes k q qs
      → Processes (link_process p name k) q qs
  link-Processes [] q out c = c
  link-Processes (r ∷ rs) q (apart, out) (here, some_r, rest) =
      (here, some_r, rw (link-next r apart) (link-Processes rs (k.process r).next out rest))

heap-Processes :
    (qs : List ℕ) (q : ℕ) (h : Heap) (k : System)
    → Processes k q qs
    → Processes (record k { heap = h }) q qs
heap-Processes [] q h k c = c
heap-Processes (r ∷ rs) q h k (here, some_r, rest) =
    (here, some_r, heap-Processes rs (k.process r).next h k rest)

create-returns_process :
    (fuel p : ℕ) (name : Option (List ℕ)) (h : Heap) (k : System)
    → kmalloc fuel process_size k.heap ≡ some (p, h)
    → (p == 0) ≡ false
    → process_create fuel name 0 k ≡ some (p, link_process p name (record k { heap = h }))
unfolding process_create
create-returns_process fuel p name h k got some_process = cc

-- `process_find_by_pid` at a process with that number, and `process_count` along the list.
find_here :
    (n pid p : ℕ) (k : System)
    → p ≢ 0
    → (k.process p).pid ≡ pid
    → find_pid_from (suc n) pid p k ≡ some p
unfolding find_pid_from
find_here n pid p k some_process e = rw (ne→== p 0 some_process, e, ==_self pid) refl

count-Processes :
    (ps : List ℕ) (n count p : ℕ) (k : System)
    → Processes k p ps
    → length ps < n
    → count + length ps < 2 ^ 32
    → count_from n count p k ≡ some (count + length ps)
unfolding count_from
count-Processes ps zero count p k c room word = absurd (omega arith)
count-Processes [] (suc n) count p k c room word =
    let end : count ≡ count + 0 = omega arith in rw c (ap some end)
count-Processes (q ∷ qs) (suc n) count p k (here, some_q, rest) room word =
    let more : add32 count 1 ≡ count + 1 = omega arith in
    let sum : count + 1 + length qs ≡ count + length (q ∷ qs) = omega arith in
    rw (here, ne→== q 0 some_q, more)
      (count-Processes qs n (count + 1) (k.process q).next k rest (omega arith) (omega arith)
        ∙ ap some sum)

-- `process_create` without an entry point, with memory for a process that is not in the list `ps`
-- of processes: it returns the process, the list is `p` and then `ps`, the search for its number
-- finds it, and the count of processes, which are fewer than 2 ^ 32, is the length of the list,
-- with more fuel than that.
pub process_create-Processes :
    (fuel p : ℕ) (name : Option (List ℕ)) (ps : List ℕ) (h : Heap) (k : System)
    → kmalloc fuel process_size k.heap ≡ some (p, h)
    → p ≢ 0
    → Processes k k.process_list_head ps
    → Without p ps
    → k.process_list_head ≢ p
    → length ps + 1 < 2 ^ 32
    → (k' : System) × (process_create fuel name 0 k ≡ some (p, k'))
      × Processes k' k'.process_list_head (p ∷ ps)
      × ((n : ℕ) → process_find_by_pid (suc n) k.next_pid k' ≡ some p)
      × ((n : ℕ) → length ps + 1 < n → process_count n k' ≡ some (length ps + 1))
unfolding process_find_by_pid process_count
process_create-Processes fuel p name ps h k got some_process c out apart word =
    let given : System = record k { heap = h } in
    let k' = link_process p name given in
    let first = link-head p name given in
    let made = link-new p name given apart in
    let rest = heap-Processes ps k.process_list_head h k c in
    let tail : Processes k' (k'.process p).next ps =
      rw made (link-Processes p name given ps k.process_list_head out rest) in
    (
      k',
      create-returns_process fuel p name h k got (ne→== p 0 some_process),
      (first, some_process, tail),
      λ n.
          ap (λ q. find_pid_from (suc n) k.next_pid q k') first
          ∙ find_here n k.next_pid p k' some_process (ap (λ (x : Process). x.pid) made),
      λ n room.
          count-Processes (p ∷ ps) n 0 k'.process_list_head k' (first, some_process, tail)
            (omega arith) (omega arith)
          ∙ ap some (omega arith),
    )
