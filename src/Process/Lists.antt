-- ===== src/Process/Lists.antt =====
-- The thread list of a process and the ready queue, which share the links of a thread in
-- kernel/process.c and kernel/scheduler.c.
use f_rat_os.Base.{add32, ap, arith, false, ne→==, refl, some, ℕ, ◌==◌, ◌∙◌, ◌≡◌, ◌≢◌}
use f_rat_os.Kheap.{Heap, kmalloc}
use f_rat_os.Scheduler.{add_thread}
use f_rat_os.Process.{
  System, create_with, enqueue_thread, fill_thread, link_thread, name_thread, put_thread,
  stack_bytes, thread_create, thread_of, thread_size,
}

-- A thread that is linked to its process and put into the queue.
module _ (t : ℕ) (k : System) (some_thread : (t == 0) ≡ false)
    (fresh : (t == k.sched.ready_queue_tail) ≡ false) where
  enqueue-next : (thread_of (enqueue_thread t k) t).next ≡ 0
  unfolding enqueue_thread add_thread
  enqueue-next = ground (arith, some_thread, fresh)

  enqueue-prev : (thread_of (enqueue_thread t k) t).prev ≡ k.sched.ready_queue_tail
  unfolding enqueue_thread add_thread
  enqueue-prev = ground (arith, some_thread, fresh)

  enqueue-process : (thread_of (enqueue_thread t k) t).process ≡ (thread_of k t).process
  unfolding enqueue_thread add_thread
  enqueue-process = ground (arith, some_thread, fresh)

  enqueue-tail : (enqueue_thread t k).sched.ready_queue_tail ≡ t
  unfolding enqueue_thread add_thread
  enqueue-tail = ground (arith, some_thread, fresh)

module _ (t p : ℕ) (k : System) where
  link-tail : (link_thread t p k).sched.ready_queue_tail ≡ k.sched.ready_queue_tail
  unfolding link_thread
  link-tail = ground arith

  link-process : (thread_of (link_thread t p k) t).process ≡ (thread_of k t).process
  unfolding link_thread
  link-process = ground arith

  link-list : ((link_thread t p k).process p).thread_list ≡ t
  unfolding link_thread
  link-list = ground arith

  link-count : ((link_thread t p k).process p).thread_count ≡ add32 (k.process p).thread_count 1
  unfolding link_thread
  link-count = ground arith

-- The thread of `thread_create` with all its fields but the links; `h` is the heap then.
abbrev filled : (t p stack entry_point priority : ℕ) → Heap → System → System
filled t p stack entry_point priority h k =
    let named = name_thread t p k in
    fill_thread t stack entry_point priority
      (put_thread t (record (thread_of named t) { stack_base = stack }) (record named { heap = h }))

abbrev created : (t p stack entry_point priority : ℕ) → Heap → System → System
created t p stack entry_point priority h k =
    enqueue_thread t (link_thread t p (filled t p stack entry_point priority h k))

module _ (t p stack entry_point priority : ℕ) (h : Heap) (k : System) where
  filled-tail :
      (filled t p stack entry_point priority h k).sched.ready_queue_tail ≡ k.sched.ready_queue_tail
  unfolding name_thread fill_thread
  filled-tail = refl

  filled-process : (thread_of (filled t p stack entry_point priority h k) t).process ≡ p
  unfolding name_thread fill_thread
  filled-process = ground arith

  filled-count :
      ((filled t p stack entry_point priority h k).process p).thread_count
      ≡ (k.process p).thread_count
  unfolding name_thread fill_thread
  filled-count = refl

create_with-returns :
    (fuel t p entry_point priority stack : ℕ) (h : Heap) (k : System)
    → kmalloc fuel stack_bytes k.heap ≡ some (stack, h)
    → (stack == 0) ≡ false
    → create_with fuel t p entry_point priority k
      ≡ some (t, created t p stack entry_point priority h k)
unfolding create_with name_thread
create_with-returns fuel t p entry_point priority stack h k got some_stack = cc

create-returns :
    (fuel p entry_point priority t stack : ℕ) (h h' : Heap) (k : System)
    → (p == 0) ≡ false
    → kmalloc fuel thread_size k.heap ≡ some (t, h)
    → (t == 0) ≡ false
    → kmalloc fuel stack_bytes h ≡ some (stack, h')
    → (stack == 0) ≡ false
    → thread_create fuel p entry_point priority k
      ≡ some (t, created t p stack entry_point priority h' (record k { heap = h }))
unfolding thread_create
create-returns fuel p entry_point priority t stack h h' k owner got some_thread got_stack
      some_stack =
    simp (owner, got, some_thread)
      (create_with-returns fuel t p entry_point priority stack h' (record k { heap = h }) got_stack
        some_stack)

-- `thread_create` with memory for the thread and its stack, for a process, and with a thread that is
-- not the tail of the ready queue: it returns the thread, the process has it for the head of its
-- list and counts one more, and it is the tail of the queue. But the queue has taken its links: the
-- list of the process ends behind the new thread, so it has lost those that it had before, and the
-- back link of its head leads to the old tail.
pub thread_create-links :
    (fuel p entry_point priority t stack : ℕ) (h h' : Heap) (k : System)
    → p ≢ 0
    → kmalloc fuel thread_size k.heap ≡ some (t, h)
    → t ≢ 0
    → kmalloc fuel stack_bytes h ≡ some (stack, h')
    → stack ≢ 0
    → t ≢ k.sched.ready_queue_tail
    → (k' : System) × (thread_create fuel p entry_point priority k ≡ some (t, k'))
      × ((k'.process p).thread_list ≡ t)
      × ((k'.process p).thread_count ≡ add32 (k.process p).thread_count 1)
      × ((thread_of k' t).process ≡ p)
      × (k'.sched.ready_queue_tail ≡ t)
      × ((thread_of k' t).next ≡ 0)
      × ((thread_of k' t).prev ≡ k.sched.ready_queue_tail)
unfolding enqueue_thread
thread_create-links fuel p entry_point priority t stack h h' k owner got some_thread got_stack
      some_stack fresh =
    let taken : System = record k { heap = h } in
    let full = filled t p stack entry_point priority h' taken in
    let linked = link_thread t p full in
    let tail : linked.sched.ready_queue_tail ≡ k.sched.ready_queue_tail =
      link-tail t p full ∙ filled-tail t p stack entry_point priority h' taken in
    let nonzero = ne→== t 0 some_thread in
    let fresh_now : (t == linked.sched.ready_queue_tail) ≡ false =
      rw tail (ne→== t k.sched.ready_queue_tail fresh) in
    (
      created t p stack entry_point priority h' taken,
      create-returns fuel p entry_point priority t stack h h' k (ne→== p 0 owner) got nonzero
          got_stack (ne→== stack 0 some_stack),
      link-list t p full,
      link-count t p full
          ∙ ap (λ n. add32 n 1) (filled-count t p stack entry_point priority h' taken),
      enqueue-process t linked nonzero fresh_now
          ∙ link-process t p full
          ∙ filled-process t p stack entry_point priority h' taken,
      enqueue-tail t linked nonzero fresh_now,
      enqueue-next t linked nonzero fresh_now,
      enqueue-prev t linked nonzero fresh_now ∙ tail,
    )
