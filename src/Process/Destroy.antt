-- ===== src/Process/Destroy.antt =====
-- `process_destroy` of kernel/process.c.
use f_rat_os.Base.{
  Bool-cases, Option, Option-cases, arith, false, if◌then◌else◌, inl, inr, ne→==, none, refl, some,
  suc, zero, ℕ, ◌==◌, ◌≡◌, ◌≢◌, ◌⊎◌,
}
use f_rat_os.Kheap.{Heap, kfree, kmalloc}
use f_rat_os.Process.{
  System, destroy_threads, free_at, process_destroy, stack_bytes, thread_create, thread_destroy,
  thread_of, thread_size, unlink_thread,
}
use f_rat_os.Process.Lists.{thread_create-links}

-- The only thread of the process `p` stands behind `q` by its back link, as it does in the queue.
pub record Stuck (p t q : ℕ) (k : System) : Type 0 where
  pub head : (k.process p).thread_list ≡ t
  pub owner : (thread_of k t).process ≡ p
  pub last : (thread_of k t).next ≡ 0
  pub behind : (thread_of k t).prev ≡ q

module _ (p t q : ℕ) (some_q : (q == 0) ≡ false) (apart : (t == q) ≡ false) where
  unlink_thread-Stuck : (k : System) → Stuck p t q k → Stuck p t q (unlink_thread t k)
  unfolding unlink_thread
  unlink_thread-Stuck k s = record {
    head = ground (arith, s.head, s.owner, s.last, s.behind, some_q, apart);
    owner = ground (arith, s.head, s.owner, s.last, s.behind, some_q, apart);
    last = ground (arith, s.head, s.owner, s.last, s.behind, some_q, apart);
    behind = ground (arith, s.head, s.owner, s.last, s.behind, some_q, apart);
  }

  heap-Stuck : (k : System) (h : Heap) → Stuck p t q k → Stuck p t q (record k { heap = h })
  heap-Stuck k h s = record { head = s.head; owner = s.owner; last = s.last; behind = s.behind }

  -- A call that does not come back, or comes back with the process stuck as before.
  abbrev StaysStuck : Option System → Type 0
  StaysStuck r = (r ≡ none) ⊎ ((k : System) × (r ≡ some k) × Stuck p t q k)

  free_at-StaysStuck : (fuel ptr : ℕ) (k : System) → Stuck p t q k → StaysStuck (free_at fuel ptr k)
  free_at-StaysStuck fuel ptr k s = elim (Option-cases (kfree fuel ptr k.heap)) [
    | inl e ↦ inl (cc e)
    | inr (h, e) ↦ inr (record k { heap = h }, cc e, heap-Stuck k h s)
  ]

  then-StaysStuck :
      (r : Option System) (f : System → Option System)
      → StaysStuck r
      → ((k : System) → Stuck p t q k → StaysStuck (f k))
      → StaysStuck (elim r [ none ↦ none | some k ↦ f k ])
  then-StaysStuck r f (inl e) next = rw e (inl refl)
  then-StaysStuck r f (inr (k, e, s)) next = rw e (next k s)

  stack-StaysStuck :
      (fuel stack : ℕ) (k : System)
      → Stuck p t q k
      → StaysStuck (if stack == 0 then some k else free_at fuel stack k)
  stack-StaysStuck fuel stack k s = elim (Bool-cases (stack == 0)) [
    | inl e ↦ rw e (inr (k, refl, s))
    | inr e ↦ rw e (free_at-StaysStuck fuel stack k s)
  ]

  thread_destroy-StaysStuck :
      (t == 0) ≡ false
      → (fuel : ℕ) (k : System) → Stuck p t q k
      → StaysStuck (thread_destroy fuel t k)
  unfolding thread_destroy
  thread_destroy-StaysStuck some_thread fuel k s =
      let cut = unlink_thread t k in
      rw some_thread (
        then-StaysStuck _ (λ k'. free_at fuel t k')
          (stack-StaysStuck fuel (thread_of cut t).stack_base cut (unlink_thread-Stuck k s))
          (λ k' s'. free_at-StaysStuck fuel t k' s'))

  destroy_threads-none :
      (t == 0) ≡ false
      → (rounds fuel : ℕ) (k : System) → Stuck p t q k
      → destroy_threads rounds fuel p k ≡ none
  unfolding destroy_threads
  destroy_threads-none some_thread zero fuel k s = refl
  destroy_threads-none some_thread (suc n) fuel k s =
      rw (s.head, some_thread)
        (elim (thread_destroy-StaysStuck some_thread fuel k s) [
          | inl e ↦ rw e refl
          | inr (k', e, s') ↦ rw e (destroy_threads-none some_thread n fuel k' s')
        ])

-- A process whose list has one thread, with a back link to another, as the queue of the scheduler
-- leaves it: `process_destroy` of it never returns, whatever the fuel. It takes the thread out of
-- the list by its back link, and so never out of the head of the list.
pub process_destroy-Stuck :
    (fuel p t q : ℕ) (k : System)
    → p ≢ 0
    → t ≢ 0
    → q ≢ 0
    → t ≢ q
    → Stuck p t q k
    → process_destroy fuel p k ≡ none
unfolding process_destroy
process_destroy-Stuck fuel p t q k owner some_thread some_q apart s =
    let stuck =
      destroy_threads-none p t q (ne→== q 0 some_q) (ne→== t q apart) (ne→== t 0 some_thread) fuel
        fuel k s in
    rw (ne→== p 0 owner, stuck) refl

-- So a process that gets its thread, under the conditions of `thread_create-links`, while another
-- thread waits in the queue, cannot be destroyed in the state that `thread_create` leaves:
-- `process_destroy` of it goes on for ever.
pub thread_create-process_destroy :
    (fuel p entry_point priority t stack : ℕ) (h h' : Heap) (k : System)
    → p ≢ 0
    → kmalloc fuel thread_size k.heap ≡ some (t, h)
    → t ≢ 0
    → kmalloc fuel stack_bytes h ≡ some (stack, h')
    → stack ≢ 0
    → t ≢ k.sched.ready_queue_tail
    → k.sched.ready_queue_tail ≢ 0
    → (k' : System) × (thread_create fuel p entry_point priority k ≡ some (t, k'))
      × ((fuel' : ℕ) → process_destroy fuel' p k' ≡ none)
thread_create-process_destroy fuel p entry_point priority t stack h h' k owner got some_thread
      got_stack some_stack fresh waits =
    let (k', returned, head, _, owned, _, last, behind) =
      thread_create-links fuel p entry_point priority t stack h h' k owner got some_thread got_stack
        some_stack fresh in
    (
      k',
      returned,
      λ fuel'.
          process_destroy-Stuck fuel' p t k.sched.ready_queue_tail k' owner some_thread waits fresh
            (record { head = head; owner = owned; last = last; behind = behind }),
    )
