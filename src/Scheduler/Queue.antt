-- ===== src/Scheduler/Queue.antt =====
-- The ready queue of kernel/scheduler.c as the list of its threads, in order.
use f_rat_os.Base.{
  ℕ, ◌+◌, ◌^◌, ◌<◌, ◌≡◌, sym, ap, ◌∙◌, ◌≢◌, List, [], ◌∷◌, ◌++◌, arith, length, length-append,
}
use f_rat_os.Scheduler.{Sched, add_thread, remove_thread}
use f_rat_os.Scheduler.Chain.{
  Apart_sym, Chain, Chain-append, Chain-frame, Chain-last, Chain-move, Chain-split, Chain-zero,
  Distinct, Distinct-join, Distinct-split, In, In-first, In-last, In-ne, NotIn, before_away,
  first_away, first_of_list, last-append, last_away, last_of_list,
}
use f_rat_os.Scheduler.Links.{Added, Removed, add-Added, nexts, prevs, remove-Removed, states}
use f_rat_os.Task.{is_ready, ready}
use mathlib.Core.Path.{subst}

-- `p` is in the queue, and TASK_STATE_READY.
abbrev pub AllReady : Sched → List ℕ → Type 0
AllReady s [] = Unit {0}
AllReady s (p ∷ q) = (states s p ≡ ready) × AllReady s q

-- The links, the ends and the count of the queue are those of the list `q`, without repetition.
pub record IsQueue (s : Sched) (q : List ℕ) : Type 0 where
  pub head : s.ready_queue_head ≡ first_of_list 0 q
  pub tail : s.ready_queue_tail ≡ last_of_list 0 q
  pub count : s.ready_count ≡ length q
  pub word : length q < 2 ^ 32
  pub links : Chain (nexts s) (prevs s) 0 0 q
  pub distinct : Distinct q

-- `s` and `s'` agree on the queue.
pub IsQueue-frame :
    (s r : Sched) (q : List ℕ)
    → r.ready_queue_head ≡ s.ready_queue_head
    → r.ready_queue_tail ≡ s.ready_queue_tail
    → r.ready_count ≡ s.ready_count
    → ((a : ℕ) → In a q → (nexts r a ≡ nexts s a) × (prevs r a ≡ prevs s a))
    → IsQueue s q
    → IsQueue r q
IsQueue-frame s r q h t c l v = record {
  head = h ∙ v.head;
  tail = t ∙ v.tail;
  count = c ∙ v.count;
  word = v.word;
  links = Chain-frame (nexts s) (prevs s) (nexts r) (prevs r) 0 0 q l v.links;
  distinct = v.distinct;
}

-- The last of a linked list is not 0 unless the list is empty.
pub last-nonzero :
    (nx pv : ℕ → ℕ) (before after p : ℕ) (q : List ℕ)
    → Chain nx pv before after (p ∷ q)
    → last_of_list p q ≢ 0
last-nonzero nx pv before after p [] c = c.0
last-nonzero nx pv before after p (r ∷ q) c = last-nonzero nx pv p after r q c.3

-- Who is not in the list is not its last member.
pub last_other : (p r : ℕ) (q : List ℕ) → NotIn p (r ∷ q) → last_of_list r q ≢ p
last_other p r q n = In-ne (last_of_list r q) p (r ∷ q) n (In-last r q)

module _ (p : ℕ) (s r : Sched) (nz : p ≢ 0) (k : Added p s r) where
  add-links :
      (q : List ℕ)
      → s.ready_queue_tail ≡ last_of_list 0 q
      → NotIn p q
      → Distinct q
      → Chain (nexts s) (prevs s) 0 0 q
      → Chain (nexts r) (prevs r) 0 0 (q ++ (p ∷ []))
  add-links [] t n d c = (nz, k.prev_self ∙ t, k.next_self, tt)
  add-links (x ∷ xs) t n d c =
      let full : s.ready_queue_tail ≢ 0 =
        λ e. last-nonzero (nexts s) (prevs s) 0 0 x xs c (sym t ∙ e) in
      Chain-append (nexts r) (prevs r) 0 0 (x ∷ xs) (p ∷ [])
        (Chain-move (nexts s) (prevs s) (nexts r) (prevs r) 0 0 0 p x xs d
          (λ a i ne. k.next_other a (In-ne a p (x ∷ xs) n i) (λ e. ne (e ∙ t)))
          (ap (nexts r) (sym t) ∙ k.next_tail full)
          (λ a i ne. k.prev_other a (In-ne a p (x ∷ xs) n i))
          (k.prev_other x (λ e. n.0 (sym e)) ∙ c.1) c)
        (nz, k.prev_self ∙ t, k.next_self, tt)

  pub add-IsQueue :
      (q : List ℕ) → NotIn p q → length q + 1 < 2 ^ 32 → IsQueue s q → IsQueue r (q ++ (p ∷ []))
  add-IsQueue q n w v = record {
    head = add-head q v;
    tail = k.tail ∙ sym (last-append 0 q (p ∷ []));
    count = omega (arith, k.count, v.count, length-append q (p ∷ []));
    word = omega (arith, w, length-append q (p ∷ []));
    links = add-links q v.tail n v.distinct v.links;
    distinct = Distinct-join q (p ∷ []) v.distinct (tt, tt) (λ a i. (In-ne a p q n i, tt));
  }
    where
      add-head : (q : List ℕ) → IsQueue s q → r.ready_queue_head ≡ first_of_list 0 (q ++ (p ∷ []))
      add-head [] v = k.head_first v.tail
      add-head (x ∷ xs) v =
          k.head_rest (λ e. last-nonzero (nexts s) (prevs s) 0 0 x xs v.links (sym v.tail ∙ e))
          ∙ v.head

module _ (p : ℕ) (s r : Sched) (k : Removed p s r) where
  -- The part of the queue before the removed thread.
  remove-before :
      (xs : List ℕ)
      → prevs s p ≡ last_of_list 0 xs
      → Distinct xs
      → ((a : ℕ) → In a xs → (a ≢ p) × (a ≢ nexts s p))
      → Chain (nexts s) (prevs s) 0 p xs
      → Chain (nexts r) (prevs r) 0 (nexts s p) xs
  remove-before [] b d away c = tt
  remove-before (x ∷ xs) b d away c =
      let full : prevs s p ≢ 0 = λ e. last-nonzero (nexts s) (prevs s) 0 p x xs c (sym b ∙ e) in
      Chain-move (nexts s) (prevs s) (nexts r) (prevs r) 0 0 p (nexts s p) x xs d
        (λ a i ne. k.next_other a (away a i).0 (λ h. ne (h ∙ b)))
        (ap (nexts r) (sym b) ∙ k.next_prev full)
        (λ a i ne. k.prev_other a (away a i).0 (away a i).1)
        (k.prev_other x (away x (In-first x xs)).0 (away x (In-first x xs)).1 ∙ c.1) c

  -- The part after it.
  remove-after :
      (ys : List ℕ)
      → nexts s p ≡ first_of_list 0 ys
      → NotIn p ys
      → NotIn (prevs s p) ys
      → Distinct ys
      → Chain (nexts s) (prevs s) p 0 ys
      → Chain (nexts r) (prevs r) (prevs s p) 0 ys
  remove-after [] e n b d c = tt
  remove-after (y ∷ ys) e n b d c =
      let next_same : (a : ℕ) → In a (y ∷ ys) → nexts r a ≡ nexts s a =
        λ a i. k.next_other a (In-ne a p (y ∷ ys) n i) (In-ne a (prevs s p) (y ∷ ys) b i) in
      Chain-move (nexts s) (prevs s) (nexts r) (prevs r) p (prevs s p) 0 0 y ys d
        (λ a i ne. next_same a i)
        (next_same (last_of_list y ys) (In-last y ys) ∙ Chain-last (nexts s) (prevs s) p 0 y ys c)
        (λ a i ne. k.prev_other a (In-ne a p (y ∷ ys) n i) (λ h. ne (h ∙ e)))
        (ap (prevs r) (sym e) ∙ k.prev_next (λ z. c.0 (sym e ∙ z))) c

  remove-head :
      (xs ys : List ℕ)
      → prevs s p ≡ last_of_list 0 xs
      → nexts s p ≡ first_of_list 0 ys
      → Chain (nexts s) (prevs s) 0 p xs
      → s.ready_queue_head ≡ first_of_list 0 (xs ++ (p ∷ ys))
      → r.ready_queue_head ≡ first_of_list 0 (xs ++ ys)
  remove-head [] ys b n c h = k.head_first b ∙ n
  remove-head (x ∷ xs) ys b n c h =
      k.head_rest (λ e. last-nonzero (nexts s) (prevs s) 0 p x xs c (sym b ∙ e)) ∙ h

  remove-tail :
      (xs ys : List ℕ)
      → prevs s p ≡ last_of_list 0 xs
      → nexts s p ≡ first_of_list 0 ys
      → Chain (nexts s) (prevs s) p 0 ys
      → s.ready_queue_tail ≡ last_of_list p ys
      → r.ready_queue_tail ≡ last_of_list (last_of_list 0 xs) ys
  remove-tail xs [] b n c h = k.tail_last n ∙ b
  remove-tail xs (y ∷ ys) b n c h = k.tail_rest (λ e. c.0 (sym n ∙ e)) ∙ h

  pub remove-IsQueue : (xs ys : List ℕ) → IsQueue s (xs ++ (p ∷ ys)) → IsQueue r (xs ++ ys)
  remove-IsQueue xs ys v =
      let (c, d) = Chain-split (nexts s) (prevs s) 0 0 xs (p ∷ ys) v.links in
      let (dx, dy, away) = Distinct-split xs (p ∷ ys) v.distinct in
      let n : nexts s p ≡ first_of_list 0 ys = d.2 in
      let b : prevs s p ≡ last_of_list 0 xs = d.1 in
      let apart : (a : ℕ) → In a xs → NotIn a (p ∷ ys) = λ a i. Apart_sym xs (p ∷ ys) away a i in
      let off : NotIn (prevs s p) ys =
        subst (λ x. NotIn x ys) (sym b)
          (before_away xs ys (λ a i. (apart a i).1) (Chain-zero (nexts s) (prevs s) p 0 ys d.3)) in
      record {
        head = remove-head xs ys b n c v.head;
        tail =
            remove-tail xs ys b n d.3 (v.tail ∙ last-append 0 xs (p ∷ ys))
            ∙ sym (last-append 0 xs ys);
        count =
            omega (arith, k.count, v.count, v.word, length-append xs (p ∷ ys), length-append xs ys);
        word = omega (arith, v.word, length-append xs (p ∷ ys), length-append xs ys);
        links =
            Chain-append (nexts r) (prevs r) 0 0 xs ys
              (subst (λ x. Chain (nexts r) (prevs r) 0 x xs) n
                (remove-before xs b dx
                  (λ a i. (
                    (apart a i).0,
                    (λ e.
                        first_away a ys (In-ne a 0 xs (Chain-zero (nexts s) (prevs s) 0 p xs c) i)
                          (apart a i).1 (e ∙ n)),
                  ))
                  c))
              (subst (λ x. Chain (nexts r) (prevs r) x 0 ys) b
                (remove-after ys n dy.0 off dy.1 d.3));
        distinct = Distinct-join xs ys dx dy.1 (λ a i. (apart a i).1);
      }

-- `scheduler_add_thread` of a ready thread that is not in the queue puts it at the end: if the queue
-- is the list `q` and has room for one more in 32 bits, it is then `q` followed by the thread.
pub add_thread-IsQueue :
    (p : ℕ) (s : Sched) (q : List ℕ)
    → p ≢ 0
    → states s p ≡ ready
    → NotIn p q
    → length q + 1 < 2 ^ 32
    → IsQueue s q
    → IsQueue (add_thread p s) (q ++ (p ∷ []))
add_thread-IsQueue p s q nz e n w v =
    add-IsQueue p s (add_thread p s) nz
      (add-Added p s nz (ap is_ready e) (λ h. last_away p q nz n (sym v.tail ∙ h))) q n w v

-- `scheduler_remove_thread` of a thread of the queue, wherever it stands, takes it out and keeps the others in order,
-- with the links, the ends and the count of the queue of the others.
pub remove_thread-IsQueue :
    (p : ℕ) (s : Sched) (xs ys : List ℕ)
    → IsQueue s (xs ++ (p ∷ ys))
    → IsQueue (remove_thread p s) (xs ++ ys)
remove_thread-IsQueue p s xs ys v =
    let (c, d) = Chain-split (nexts s) (prevs s) 0 0 xs (p ∷ ys) v.links in
    let (dx, dy, away) = Distinct-split xs (p ∷ ys) v.distinct in
    remove-IsQueue p s (remove_thread p s)
      (remove-Removed p s d.0 (λ e. last_away p xs d.0 (away p (In-first p ys)) (sym d.1 ∙ e))
        (λ e. first_away p ys d.0 dy.0 (sym e ∙ d.2)))
      xs ys v
