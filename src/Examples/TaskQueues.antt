-- ===== src/Examples/TaskQueues.antt =====
-- Examples for src/worker/queue.rs, with a queue that is a list and its bound.
use rust_kernel_engine.Base.{
  ℕ, zero, suc, pos, ◌≡◌, refl, List, [], ◌∷◌, ◌++◌, true, false, Option, none, some, Outcome, ok,
  panic, if◌then◌else◌, arith, length, ltb, ◌==◌, Bool-cases, inl, inr,
}
use rust_kernel_engine.Worker.ArrayQueue.{
  ArrayQueue, IsFifo, Pops, nothing, front, Pushes, full, back,
}
use rust_kernel_engine.Worker.LockFree
use rust_kernel_engine.Worker.LockFree.{LockFreeQueue, Store, clone}
use rust_kernel_engine.Worker.Queue.{Task, new_connection, shutdown, WorkStealingQueue, steal, pop}
use rust_kernel_engine.Worker.Queue.Conservation.{pushes, pops, Call}
use rust_kernel_engine.Os.{Reply}
use rust_kernel_engine.Worker.Thread.{worker_thread}
use rust_kernel_engine.Worker.Thread.Drains.{Drains, worker_thread-Drains}

pub record Bounded : Type 0 where
  pub items : List Task
  pub cap : ℕ

abbrev push_bounded : Task → Bounded → Option Task × Bounded
push_bounded x q =
    if ltb (length q.items) q.cap
    then (none, record q { items = q.items ++ x ∷ [] })
    else (some x, q)

abbrev pop_list : List Task → ℕ → Option Task × Bounded
pop_list [] cap = (none, record { items = []; cap = cap })
pop_list (x ∷ xs) cap = (some x, record { items = xs; cap = cap })

abbrev new_bounded : ℕ → Outcome Bounded
new_bounded zero = panic
new_bounded (suc c) = ok (record { items = []; cap = suc c })

abbrev pub bounded : ArrayQueue Task
bounded = record {
  Queue = Bounded;
  new = new_bounded;
  push = push_bounded;
  pop = λ q. pop_list q.items q.cap;
  is_empty = λ q. length q.items == 0;
  is_full = λ q. length q.items == q.cap;
  len = λ q. length q.items;
  capacity = λ q. q.cap;
}

push_Pushes :
    (x : Task) (q : Bounded)
    → Pushes q.cap x q.items (push_bounded x q).0 (push_bounded x q).1.items
push_Pushes x q = elim (Bool-cases (ltb (length q.items) q.cap)) [
  | inl e ↦ back e (rw (e, push_bounded) refl) (rw (e, push_bounded) refl)
  | inr e ↦ full e (rw (e, push_bounded) refl) (rw (e, push_bounded) refl)
]

pop_Pops : (xs : List Task) (cap : ℕ) → Pops xs (pop_list xs cap).0 (pop_list xs cap).1.items
pop_Pops [] cap = nothing refl refl refl
pop_Pops (x ∷ xs) cap = front x refl refl

pop_nothing :
    (xs : List Task) (cap : ℕ)
    → (pop_list xs cap).0 ≡ none
    → (pop_list xs cap).1 ≡ record { items = xs; cap = cap }
pop_nothing [] cap e = refl
pop_nothing (x ∷ xs) cap e = cc

pop_cap : (xs : List Task) (cap : ℕ) → (pop_list xs cap).1.cap ≡ cap
pop_cap [] cap = refl
pop_cap (x ∷ xs) cap = refl

push_cap : (x : Task) (q : Bounded) → (push_bounded x q).1.cap ≡ q.cap
push_cap x q = ground arith

pub bounded-IsFifo : IsFifo bounded
bounded-IsFifo = record {
  contents = λ q. q.items;
  new_zero = refl;
  new_empty = λ c. (record { items = []; cap = suc c }, refl, refl, refl);
  push_lem = push_Pushes;
  pop_lem = λ q. pop_Pops q.items q.cap;
  pop_nothing = λ q. pop_nothing q.items q.cap;
  push_capacity = push_cap;
  pop_capacity = λ q. pop_cap q.items q.cap;
  len_lem = λ q. refl;
  is_empty_lem = λ q. refl;
  is_full_lem = λ q. refl;
}

abbrev pub handle : ℕ → LockFreeQueue
handle i = record { queue = i }

abbrev pub middle : WorkStealingQueue
middle = record { local_queue = handle 1; shared_queues = handle 0 ∷ handle 2 ∷ [] }

-- Queue 1 is empty, queue 2 has the only task.
abbrev pub queues : Store bounded
queues =
    record { items = []; cap = 2 }
    ∷ record { items = []; cap = 2 }
    ∷ record { items = new_connection (pos 7) ∷ []; cap = 2 }
    ∷ []

stolen : (pop bounded middle queues).0 ≡ some (new_connection (pos 7))
unfolding pop steal LockFree.pop
stolen = refl

-- The first test of the source: a queue of ten.
test_lock_free_queue :
    (LockFree.is_empty bounded (handle 1) queues ≡ true)
    × (LockFree.len bounded (handle 2) queues ≡ 1)
    × (LockFree.is_full bounded (handle 2) queues ≡ false)
    × ((LockFree.push bounded (handle 1) shutdown queues).0 ≡ none)
unfolding LockFree.is_empty LockFree.len LockFree.is_full LockFree.push
test_lock_free_queue = (refl, refl, refl, refl)

abbrev calls : List Call
calls = pops middle ∷ pushes middle shutdown ∷ pops middle ∷ pops middle ∷ []

abbrev silent : Reply
silent = record { ret = pos 0; bytes = []; events = []; cpus = [] }

-- The worker takes the task of queue 2, then finds nothing.
drained :
    (worker_thread bounded (λ t call. silent) 4 5 middle (true ∷ true ∷ []) queues []).0.taken
    ≡ new_connection (pos 7) ∷ []
unfolding worker_thread pop steal LockFree.pop
drained = refl

worker_thread-Drains_example :
    Drains bounded bounded-IsFifo queues
      (worker_thread bounded (λ t call. silent) 4 5 middle (true ∷ true ∷ []) queues []).0
worker_thread-Drains_example =
    worker_thread-Drains bounded bounded-IsFifo (λ t call. silent) 4 5 middle (true ∷ true ∷ [])
      queues []
