-- ===== src/Pmm/Calls.antt =====
-- Any sequence of calls of kernel/pmm.c keeps its invariant.
use f_rat_os.Base.{ℕ, zero, suc, refl, inl, inr, List, [], ◌∷◌, arith, Bool-cases}
use f_rat_os.Pmm.{
  Pmm, alloc_frame, alloc_frames, free_frame, free_frames, mark_used, mark_used_range,
}
use f_rat_os.Pmm.Alloc.{alloc_frame-IsValid}
use f_rat_os.Pmm.Frames.{alloc_frames-first_fit, alloc_frames-refused}
use f_rat_os.Pmm.Valid.{
  IsValid, free_frame-IsValid, free_frames-IsValid, mark_used-IsValid, mark_used_range-IsValid,
}

alloc_frames-IsValid : {s : Pmm} (v : IsValid s) (count : ℕ) → IsValid (alloc_frames s count).1
alloc_frames-IsValid {s} v zero = rw (alloc_frames-refused v 0 (inr refl)) v
alloc_frames-IsValid {s} v (suc n) = elim (Bool-cases s.initialized) [
  | inr off ↦ rw (alloc_frames-refused v (suc n) (inl off)) v
  | inl on ↦ elim (alloc_frames-first_fit v (suc n) on (omega arith)) [
    | inl (no_run, e) ↦ rw e v
    | inr (r, f, e, k, w) ↦ w
  ]
]

-- A call of the allocator that changes its state, with its arguments.
pub data Call : Type 0 where
  call_alloc_frame : Call
  call_alloc_frames : ℕ → Call
  call_free_frame : ℕ → Call
  call_free_frames : ℕ → ℕ → Call
  call_mark_used : ℕ → Call
  call_mark_used_range : ℕ → ℕ → Call

unfoldable pub run : List Call → Pmm → Pmm
run [] s = s
run (call_alloc_frame ∷ cs) s = run cs (alloc_frame s).1
run (call_alloc_frames n ∷ cs) s = run cs (alloc_frames s n).1
run (call_free_frame a ∷ cs) s = run cs (free_frame s a)
run (call_free_frames a n ∷ cs) s = run cs (free_frames s a n)
run (call_mark_used a ∷ cs) s = run cs (mark_used s a)
run (call_mark_used_range a n ∷ cs) s = run cs (mark_used_range s a n)

-- From a valid allocator every sequence of calls, with any arguments, leads to a valid one: the
-- free counter is the number of clear bits below highest_page, which is no more than the bitmap has
-- bits, free and used pages add up to the total, on 64 bits, and every byte of the bitmap is one.
pub run-IsValid : (cs : List Call) (s : Pmm) → IsValid s → IsValid (run cs s)
unfolding run
run-IsValid [] s v = v
run-IsValid (call_alloc_frame ∷ cs) s v = run-IsValid cs (alloc_frame s).1 (alloc_frame-IsValid v)
run-IsValid (call_alloc_frames n ∷ cs) s v =
    run-IsValid cs (alloc_frames s n).1 (alloc_frames-IsValid v n)
run-IsValid (call_free_frame a ∷ cs) s v = run-IsValid cs (free_frame s a) (free_frame-IsValid v a)
run-IsValid (call_free_frames a n ∷ cs) s v =
    run-IsValid cs (free_frames s a n) (free_frames-IsValid v a n)
run-IsValid (call_mark_used a ∷ cs) s v = run-IsValid cs (mark_used s a) (mark_used-IsValid v a)
run-IsValid (call_mark_used_range a n ∷ cs) s v =
    run-IsValid cs (mark_used_range s a n) (mark_used_range-IsValid v a n)
