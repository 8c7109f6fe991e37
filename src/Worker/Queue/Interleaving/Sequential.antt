-- ===== src/Worker/Queue/Interleaving/Sequential.antt =====
-- A `pop` that no other worker disturbs.
use rust_kernel_engine.Base.{
  ℕ, ◌≡◌, refl, List, [], ◌∷◌, Option, none, some, Option-cases, arith, inl, inr,
}
use rust_kernel_engine.Worker.ArrayQueue.{ArrayQueue}
use rust_kernel_engine.Worker.LockFree
use rust_kernel_engine.Worker.LockFree.{LockFreeQueue, Store}
use rust_kernel_engine.Worker.Queue.{Task, WorkStealingQueue, steal, pop}
use rust_kernel_engine.Worker.Queue.Interleaving.{
  Pc, idle, trying, returned, update, tries, System, Step, starts, finds, misses, gives_up, Reach,
  here, later,
}

update_here : (pc : ℕ → Pc) (i : ℕ) (p : Pc) → update pc i p i ≡ p
update_here pc i p = ground arith

module _ (aq : ArrayQueue Task) (workers : ℕ → WorkStealingQueue) where
  Reach-trans :
      {s t u : System aq} → Reach aq workers s t → Reach aq workers t u → Reach aq workers s u
  Reach-trans r here = r
  Reach-trans r (later r' step) = later (Reach-trans r r') step

  -- A state in which worker `i` has come back from its calls with the result `r`.
  abbrev pub Returns : ℕ → System aq → Option Task × Store aq → Type 0
  Returns i s r = (t : System aq) × Reach aq workers s t × (t.store ≡ r.1) × (t.pc i ≡ returned r.0)

  Returns-later :
      (i : ℕ) {s t : System aq} (r : Option Task × Store aq)
      → Step aq workers s t
      → Returns i t r
      → Returns i s r
  Returns-later i r step (u, reach, store, pc) = (u, Reach-trans (later here step) reach, store, pc)

  steal-Returns :
      (i : ℕ) (qs : List LockFreeQueue) (s : System aq)
      → s.pc i ≡ trying qs
      → Returns i s (steal aq qs s.store)
  unfolding steal
  steal-Returns i [] s e = (_, later here (gives_up i e), refl, update_here s.pc i (returned none))
  steal-Returns i (q ∷ qs) s e = elim (Option-cases (LockFree.pop aq q s.store).0) [
    | inl empty ↦
        rw (empty, steal)
          (Returns-later i _ (misses i q qs e empty)
            (steal-Returns i qs _ (update_here s.pc i (trying qs))))
    | inr (task, found) ↦
        rw (found, steal)
          (
            _,
            later here (finds i q qs task e found),
            refl,
            update_here s.pc i (returned (some task)),
          )
  ]

  -- If no other worker makes a step meanwhile, a worker outside of `pop` can run through a whole
  -- call and come back with the task that `pop` returns and the queues that it leaves.
  pub pop-Returns :
      (i : ℕ) (s : System aq) → s.pc i ≡ idle → Returns i s (pop aq (workers i) s.store)
  unfolding pop steal
  pop-Returns i s e =
      Returns-later i _ (starts i e)
        (steal-Returns i (tries (workers i)) _ (update_here s.pc i (trying (tries (workers i)))))
