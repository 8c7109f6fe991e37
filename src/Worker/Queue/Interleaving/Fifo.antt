-- ===== src/Worker/Queue/Interleaving/Fifo.antt =====
-- The order of the tasks in each queue of src/worker/queue.rs, whatever the workers do.
use rust_kernel_engine.Base.{
  ℕ, ◌≡◌, sym, ap, ◌∙◌, List, [], ◌∷◌, ◌++◌, append_assoc, append-nil, arith, ◌≡⟨◌⟩◌, ◌∎,
}
use rust_kernel_engine.Worker.ArrayQueue.{ArrayQueue, IsFifo}
use rust_kernel_engine.Worker.LockFree
use rust_kernel_engine.Worker.LockFree.{LockFreeQueue, Store}
use rust_kernel_engine.Worker.LockFree.Laws.{items_at}
use rust_kernel_engine.Worker.LockFree.Order.{seen_at, popped, pushed, items_at-pop, items_at-push}
use rust_kernel_engine.Worker.Queue.{Task, WorkStealingQueue, push}
use rust_kernel_engine.Worker.Queue.Interleaving.{
  System, Step, starts, finds, misses, gives_up, leaves, accepts, refuses, Reach, here, later,
}

module _ (aq : ArrayQueue Task) (fifo : IsFifo aq) (workers : ℕ → WorkStealingQueue) where
  -- The task that a step takes out of the queue `h`, and the one that it puts in.
  abbrev pub taken_by : LockFreeQueue → {s t : System aq} → Step aq workers s t → List Task
  taken_by h (starts i e) = []
  taken_by h (finds i q qs task e found) = seen_at q h (task ∷ [])
  taken_by h (misses i q qs e empty) = []
  taken_by h (gives_up i e) = []
  taken_by h (leaves i found e) = []
  taken_by h (accepts i task done) = []
  taken_by h (refuses i task back e) = []

  abbrev pub put_by : LockFreeQueue → {s t : System aq} → Step aq workers s t → List Task
  put_by h (starts i e) = []
  put_by h (finds i q qs task e found) = []
  put_by h (misses i q qs e empty) = []
  put_by h (gives_up i e) = []
  put_by h (leaves i found e) = []
  put_by h (accepts i task done) = seen_at (workers i).local_queue h (task ∷ [])
  put_by h (refuses i task back e) = []

  -- The tasks of a whole run, the oldest first.
  abbrev pub all_taken : LockFreeQueue → {s t : System aq} → Reach aq workers s t → List Task
  all_taken h here = []
  all_taken h (later r step) = all_taken h r ++ taken_by h step

  abbrev pub all_put : LockFreeQueue → {s t : System aq} → Reach aq workers s t → List Task
  all_put h here = []
  all_put h (later r step) = all_put h r ++ put_by h step

  abbrev items : Store aq → LockFreeQueue → List Task
  items store h = items_at aq fifo store h

  seen_at-nil : (q h : LockFreeQueue) → seen_at {A = Task} q h [] ≡ []
  seen_at-nil q h = ground arith

  Step-Fifo :
      (h : LockFreeQueue) {s t : System aq} (step : Step aq workers s t)
      → items s.store h ++ put_by h step ≡ taken_by h step ++ items t.store h
  unfolding push
  Step-Fifo h (starts i e) = append-nil _
  Step-Fifo h {s} (finds i q qs task e found) =
      append-nil _
      ∙ (items_at-pop aq fifo q h s.store
          ∙ ap (λ o. seen_at q h (popped o) ++ items (LockFree.pop aq q s.store).1 h) found)
  Step-Fifo h {s} (misses i q qs e empty) =
      append-nil _
      ∙ (items_at-pop aq fifo q h s.store
          ∙ ap (λ l. l ++ items (LockFree.pop aq q s.store).1 h)
              (ap (λ o. seen_at q h (popped o)) empty ∙ seen_at-nil q h))
  Step-Fifo h (gives_up i e) = append-nil _
  Step-Fifo h (leaves i found e) = append-nil _
  Step-Fifo h {s} (accepts i task done) =
      let w = (workers i).local_queue in
      ap (λ o. items s.store h ++ seen_at w h (pushed task o)) (sym done)
      ∙ sym (items_at-push aq fifo w h task s.store)
  Step-Fifo h {s} (refuses i task back e) =
      let w = (workers i).local_queue in
      ap (λ l. items s.store h ++ l)
        (sym (ap (λ o. seen_at w h (pushed task o)) e ∙ seen_at-nil w h))
      ∙ sym (items_at-push aq fifo w h task s.store)

  -- However the calls of the workers interleave, every queue keeps its order: the tasks in it at the
  -- start, followed by those accepted since, are those taken from it, followed by those in it now.
  pub Reach-Fifo :
      (h : LockFreeQueue) {s t : System aq} (r : Reach aq workers s t)
      → items_at aq fifo s.store h ++ all_put h r ≡ all_taken h r ++ items_at aq fifo t.store h
  Reach-Fifo h here = append-nil _
  Reach-Fifo h {s} (later {t} {u} r step) =
      items s.store h ++ (all_put h r ++ put_by h step)
      ≡⟨ sym (append_assoc (items s.store h) (all_put h r) (put_by h step)) ⟩
        (items s.store h ++ all_put h r) ++ put_by h step
      ≡⟨ ap (λ l. l ++ put_by h step) (Reach-Fifo h r) ⟩
        (all_taken h r ++ items t.store h) ++ put_by h step
      ≡⟨ append_assoc (all_taken h r) (items t.store h) (put_by h step) ⟩
        all_taken h r ++ (items t.store h ++ put_by h step)
      ≡⟨ ap (λ l. all_taken h r ++ l) (Step-Fifo h step) ⟩
        all_taken h r ++ (taken_by h step ++ items u.store h)
      ≡⟨ sym (append_assoc (all_taken h r) (taken_by h step) (items u.store h)) ⟩
        (all_taken h r ++ taken_by h step) ++ items u.store h ∎
