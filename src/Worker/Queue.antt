-- ===== src/Worker/Queue.antt =====
-- `Task` and `WorkStealingQueue` of src/worker/queue.rs.
pub mod Topology
pub mod Stealing
pub mod Conservation
pub mod Interleaving
use rust_kernel_engine.Base.{
  ℕ, zero, suc, ◌+◌, ℤ, List, [], ◌∷◌, ◌++◌, true, false, Option, none, some, Outcome, ok, ◌>>=◌,
  ◌==◌, if◌then◌else◌, get_elem?, panic,
}
use rust_kernel_engine.Worker.ArrayQueue.{ArrayQueue}
use rust_kernel_engine.Worker.LockFree
use rust_kernel_engine.Worker.LockFree.{LockFreeQueue, Store, clone}

pub data Task : Type 0 where
  new_connection : (fd : ℤ) → Task
  process_request : (fd : ℤ) (payload : List ℕ) → Task
  send_response : (fd : ℤ) (response : List ℕ) → Task
  close_connection : (fd : ℤ) → Task
  shutdown : Task

pub record WorkStealingQueue : Type 0 where
  pub local_queue : LockFreeQueue
  pub shared_queues : List LockFreeQueue

-- The innermost loop of `new`: clones of the queues but the one at index `i`; `j` counts.
share_others : ℕ → ℕ → List LockFreeQueue → List LockFreeQueue
share_others i j [] = []
share_others i j (queue ∷ queues) =
    let rest = share_others i (suc j) queues in if i == j then rest else clone queue ∷ rest

-- The second loop of `new`: `rounds` workers from index `i` on. The index never leaves the list.
build_workers : List LockFreeQueue → ℕ → ℕ → Outcome (List WorkStealingQueue)
unfolding share_others
build_workers all_queues zero i = ok []
build_workers all_queues (suc rounds) i = elim (get_elem? all_queues i) [
  | none ↦ panic
  | some queue ↦ do
    rest ← build_workers all_queues rounds (suc i)
    ok (record { local_queue = clone queue; shared_queues = share_others i 0 all_queues } ∷ rest)
]

module _ (aq : ArrayQueue Task) where
  -- The first loop of `new`.
  make_queues : ℕ → ℕ → Store aq → Outcome (List LockFreeQueue × Store aq)
  make_queues zero capacity store = ok ([], store)
  make_queues (suc rounds) capacity store = do
    made ← LockFree.new aq capacity store
    rest ← make_queues rounds capacity made.1
    ok (made.0 ∷ rest.0, rest.1)

  unfoldable pub new : ℕ → ℕ → Store aq → Outcome (List WorkStealingQueue × Store aq)
  unfolding make_queues build_workers LockFree.new
  new num_workers capacity store = do
    made ← make_queues num_workers capacity store
    queues ← build_workers made.0 num_workers 0
    ok (queues, made.1)

  unfoldable pub push : WorkStealingQueue → Task → Store aq → Option Task × Store aq
  push w task store = LockFree.push aq w.local_queue task store

  -- The loop over the queues of the other workers.
  unfoldable pub steal : List LockFreeQueue → Store aq → Option Task × Store aq
  steal [] store = (none, store)
  steal (queue ∷ queues) store =
      let (found, store') = LockFree.pop aq queue store in
      elim found [ some task ↦ (some task, store') | none ↦ steal queues store' ]

  unfoldable pub pop : WorkStealingQueue → Store aq → Option Task × Store aq
  pop w store =
      let (found, store') = LockFree.pop aq w.local_queue store in
      elim found [ some task ↦ (some task, store') | none ↦ steal w.shared_queues store' ]

unfoldable pub local : WorkStealingQueue → LockFreeQueue
local w = w.local_queue
