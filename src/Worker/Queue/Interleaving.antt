-- ===== src/Worker/Queue/Interleaving.antt =====
-- `WorkStealingQueue::push` and `pop` of src/worker/queue.rs when workers run at the same time: a
-- `pop` is one atomic call after another, each on one queue, and the calls of all workers interleave
-- in any order. The queues that a call has still to try are its program counter.
pub mod Emptiness
pub mod Fifo
pub mod Progress
pub mod Safety
pub mod Sequential
use rust_kernel_engine.Base.{ℕ, ◌≡◌, List, [], ◌∷◌, Option, none, some, ◌==◌, if◌then◌else◌}
use rust_kernel_engine.Worker.ArrayQueue.{ArrayQueue}
use rust_kernel_engine.Worker.LockFree
use rust_kernel_engine.Worker.LockFree.{LockFreeQueue, Store}
use rust_kernel_engine.Worker.Queue.{Task, WorkStealingQueue, push}

-- Where a worker is: outside of `pop`, in it with some queues to try, or back with what it found.
pub data Pc : Type 0 where
  idle : Pc
  trying : List LockFreeQueue → Pc
  returned : Option Task → Pc

abbrev pub update : (ℕ → Pc) → ℕ → Pc → ℕ → Pc
update pc i p j = if i == j then p else pc j

-- The workers by their number. What has been accepted and handed out is recorded, the newest first.
pub record System (aq : ArrayQueue Task) : Type 0 where
  pub store : Store aq
  pub pc : ℕ → Pc
  pub taken_in : List Task
  pub handed_out : List Task

-- The queues in the order of `pop`: the worker's own, then the others.
abbrev pub tries : WorkStealingQueue → List LockFreeQueue
tries w = w.local_queue ∷ w.shared_queues

module _ (aq : ArrayQueue Task) (workers : ℕ → WorkStealingQueue) where
  pub data Step (s : System aq) : System aq → Type 0 where
    starts :
        (i : ℕ)
        → s.pc i ≡ idle
        → Step s (record s { pc = update s.pc i (trying (tries (workers i))) })
    finds :
        (i : ℕ) (q : LockFreeQueue) (qs : List LockFreeQueue) (task : Task)
        → s.pc i ≡ trying (q ∷ qs)
        → (LockFree.pop aq q s.store).0 ≡ some task
        → Step s (record s {
          store = (LockFree.pop aq q s.store).1;
          pc = update s.pc i (returned (some task));
          handed_out = task ∷ s.handed_out;
        })
    misses :
        (i : ℕ) (q : LockFreeQueue) (qs : List LockFreeQueue)
        → s.pc i ≡ trying (q ∷ qs)
        → (LockFree.pop aq q s.store).0 ≡ none
        → Step s
            (record s { store = (LockFree.pop aq q s.store).1; pc = update s.pc i (trying qs) })
    gives_up :
        (i : ℕ) → s.pc i ≡ trying [] → Step s (record s { pc = update s.pc i (returned none) })
    leaves :
        (i : ℕ) (found : Option Task)
        → s.pc i ≡ returned found
        → Step s (record s { pc = update s.pc i idle })
    accepts :
        (i : ℕ) (task : Task)
        → (push aq (workers i) task s.store).0 ≡ none
        → Step s (record s {
          store = (push aq (workers i) task s.store).1;
          taken_in = task ∷ s.taken_in;
        })
    refuses :
        (i : ℕ) (task back : Task)
        → (push aq (workers i) task s.store).0 ≡ some back
        → Step s (record s { store = (push aq (workers i) task s.store).1 })

  pub data Reach (s : System aq) : System aq → Type 0 where
    here : Reach s s
    later : {t u : System aq} → Reach s t → Step t u → Reach s u
