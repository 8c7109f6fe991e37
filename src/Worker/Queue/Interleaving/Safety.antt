-- ===== src/Worker/Queue/Interleaving/Safety.antt =====
-- Every interleaving against a bag of tasks.
use mathlib.Core.List.{Perm, perm_middle}
use mathlib.Core.List.Perm
use mathlib.Core.Option.{some-injective}
use mathlib.Core.Quot
use mathlib.Core.Quot.{Quot, Quot-set}
use rust_kernel_engine.Base.{
  ℕ, ◌≡◌, refl, sym, ap, ◌∙◌, List, [], ◌∷◌, ◌++◌, none, some, append-nil,
}
use rust_kernel_engine.Worker.ArrayQueue.{ArrayQueue, IsFifo}
use rust_kernel_engine.Worker.LockFree
use rust_kernel_engine.Worker.LockFree.{LockFreeQueue, Store}
use rust_kernel_engine.Worker.LockFree.Laws.{
  took, missed, accepted, refused, all_items, pop-Takes, push-Puts,
}
use rust_kernel_engine.Worker.Queue.{Task, WorkStealingQueue, push}
use rust_kernel_engine.Worker.Queue.Interleaving.{
  System, Step, starts, finds, misses, gives_up, leaves, accepts, refuses, Reach, here, later,
}

-- The specification: a bag of tasks, which forgets the queues and the order.
abbrev pub Bag : Type 0
Bag = Quot (Perm {A = Task})

abbrev pub put : Task → Bag → Bag
put task =
    Quot.lift Quot-set (λ tasks. Quot.mk (task ∷ tasks)) (λ xs ys p. Quot.sound (Perm.cons task p))

-- What a worker does to the bag at once: nothing, handing a task out, or taking one in.
pub data Event : Type 0 where
  internal : Event
  hands_out : Task → Event
  takes_in : Task → Event

-- What each event does to the bag: handing out takes this task away, and nothing else.
abbrev pub BagStep : Event → Bag → Bag → Type 0
BagStep internal b b' = b' ≡ b
BagStep (hands_out task) b b' = b ≡ put task b'
BagStep (takes_in task) b b' = b' ≡ put task b

module _ (aq : ArrayQueue Task) (fifo : IsFifo aq) (workers : ℕ → WorkStealingQueue) where
  abbrev items : Store aq → List Task
  items store = all_items aq fifo store

  abbrev pub bag : System aq → Bag
  bag s = Quot.mk (items s.store)

  -- The event of a step: a worker that finds a task hands it out, one whose task is accepted takes it
  -- in; a miss, a refusal, the start and the end of a `pop` are internal.
  abbrev pub event_of : {s t : System aq} → Step aq workers s t → Event
  event_of (starts i e) = internal
  event_of (finds i q qs task e found) = hands_out task
  event_of (misses i q qs e empty) = internal
  event_of (gives_up i e) = internal
  event_of (leaves i found e) = internal
  event_of (accepts i task done) = takes_in task
  event_of (refuses i task back e) = internal

  pop-some :
      (q : LockFreeQueue) (store : Store aq) {task : Task}
      → (LockFree.pop aq q store).0 ≡ some task
      → Perm (items store) (task ∷ items (LockFree.pop aq q store).1)
  pop-some q store e = elim (pop-Takes aq fifo q store).0 [
    | took x found p ↦ rw (some-injective _ _ (sym e ∙ found)) p
    | missed none_found _ ↦ absurd (cc)
  ]

  pop-none :
      (q : LockFreeQueue) (store : Store aq)
      → (LockFree.pop aq q store).0 ≡ none
      → (LockFree.pop aq q store).1 ≡ store
  pop-none q store e = elim (pop-Takes aq fifo q store).0 [
    | took x found p ↦ absurd (cc)
    | missed _ same ↦ same
  ]

  push-none :
      (w : WorkStealingQueue) (task : Task) (store : Store aq)
      → (push aq w task store).0 ≡ none
      → Perm (items (push aq w task store).1) (task ∷ items store)
  unfolding push
  push-none w task store e = elim (push-Puts aq fifo w.local_queue task store) [
    | accepted _ p ↦ p
    | refused back _ ↦ absurd (cc)
  ]

  push-some :
      (w : WorkStealingQueue) (task : Task) (store : Store aq) {back : Task}
      → (push aq w task store).0 ≡ some back
      → items (push aq w task store).1 ≡ items store
  unfolding push
  push-some w task store e = elim (push-Puts aq fifo w.local_queue task store) [
    | accepted done _ ↦ absurd (cc)
    | refused _ same ↦ same
  ]

  -- Every step of the workers, seen through the bag of all tasks in all queues, does what its event
  -- does to a bag: a `pop` that finds a task takes exactly this task away, a `push` that is accepted
  -- adds exactly its task, and every other step leaves the bag as it is.
  pub Step-BagStep :
      {s t : System aq} (step : Step aq workers s t) → BagStep (event_of step) (bag s) (bag t)
  Step-BagStep (starts i e) = refl
  Step-BagStep {s} (finds i q qs task e found) = Quot.sound (pop-some q s.store found)
  Step-BagStep {s} (misses i q qs e empty) =
      ap (λ store. Quot.mk (items store)) (pop-none q s.store empty)
  Step-BagStep (gives_up i e) = refl
  Step-BagStep (leaves i found e) = refl
  Step-BagStep {s} (accepts i task done) = Quot.sound (push-none (workers i) task s.store done)
  Step-BagStep {s} (refuses i task back e) = ap Quot.mk (push-some (workers i) task s.store e)

  -- The tasks of a start, and what came and went since.
  abbrev pub Balances : List Task → System aq → Type 0
  Balances tasks s = Perm (tasks ++ s.taken_in) (s.handed_out ++ items s.store)

  Step-Balances :
      (tasks : List Task) {s t : System aq}
      → Step aq workers s t
      → Balances tasks s
      → Balances tasks t
  Step-Balances tasks (starts i e) h = h
  Step-Balances tasks {s} (finds i q qs task e found) h = Perm.trans h (
      Perm.trans (Perm.append_left s.handed_out (pop-some q s.store found))
        (perm_middle s.handed_out _))
  Step-Balances tasks {s} (misses i q qs e empty) h = rw (pop-none q s.store empty) h
  Step-Balances tasks (gives_up i e) h = h
  Step-Balances tasks (leaves i found e) h = h
  Step-Balances tasks {s} (accepts i task done) h = Perm.trans (perm_middle tasks s.taken_in) (
      Perm.trans (Perm.cons task h) (
        Perm.trans (Perm.symm (perm_middle s.handed_out _))
          (Perm.append_left s.handed_out (Perm.symm (push-none (workers i) task s.store done)))))
  Step-Balances tasks {s} (refuses i task back e) h = rw (push-some (workers i) task s.store e) h

  -- However the calls of the workers interleave, no task is lost and none is handed out twice: the
  -- tasks of the start with those accepted since are, as multisets, those handed out with those
  -- still in the queues.
  pub Reach-Balances :
      {s t : System aq}
      → s.taken_in ≡ []
      → s.handed_out ≡ []
      → Reach aq workers s t
      → Perm (items s.store ++ t.taken_in) (t.handed_out ++ items t.store)
  Reach-Balances {s} e f here = rw (e, f, append-nil) (Perm.refl _)
  Reach-Balances {s} e f (later r step) = Step-Balances (items s.store) step (Reach-Balances e f r)
