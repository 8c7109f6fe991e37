-- ===== src/Worker/ArrayQueue.antt =====
-- `crossbeam::queue::ArrayQueue`, which src/worker/queue.rs wraps: an interface with the documented
-- behaviour of each atomic call, a bounded FIFO queue.
use rust_kernel_engine.Base.{
  ℕ, suc, ◌≡◌, List, [], ◌∷◌, ◌++◌, Bool, true, Option, none, some, Outcome, ok, panic, ltb, ◌==◌,
  length,
}

-- `push` gives the item back if the queue is full. `new` panics at capacity 0.
pub record ArrayQueue (T : Type 0) : Type 1 where
  pub Queue : Type 0
  pub new : ℕ → Outcome Queue
  pub push : T → Queue → Option T × Queue
  pub pop : Queue → Option T × Queue
  pub is_empty : Queue → Bool
  pub is_full : Queue → Bool
  pub len : Queue → ℕ
  pub capacity : Queue → ℕ

pub data Pops {T : Type 0} (xs : List T) (o : Option T) (ys : List T) : Type 0 where
  nothing : xs ≡ [] → o ≡ none → ys ≡ [] → Pops xs o ys
  front : (x : T) → xs ≡ x ∷ ys → o ≡ some x → Pops xs o ys

pub data Pushes {T : Type 0} (cap : ℕ) (x : T) (xs : List T) (o : Option T) (ys : List T)
    : Type 0 where
  full : ltb (length xs) cap ≡ Bool.false → o ≡ some x → ys ≡ xs → Pushes cap x xs o ys
  back : ltb (length xs) cap ≡ true → o ≡ none → ys ≡ xs ++ x ∷ [] → Pushes cap x xs o ys

-- The documented behaviour, against the items in a queue, oldest first.
pub record IsFifo {T : Type 0} (aq : ArrayQueue T) : Type 0 where
  pub contents : aq.Queue → List T
  pub new_zero : aq.new 0 ≡ panic
  pub new_empty :
      (c : ℕ)
      → (q : aq.Queue) × (aq.new (suc c) ≡ ok q) × (contents q ≡ []) × (aq.capacity q ≡ suc c)
  pub push_lem :
      (x : T) (q : aq.Queue)
      → Pushes (aq.capacity q) x (contents q) (aq.push x q).0 (contents (aq.push x q).1)
  pub pop_lem : (q : aq.Queue) → Pops (contents q) (aq.pop q).0 (contents (aq.pop q).1)
  pub pop_nothing : (q : aq.Queue) → (aq.pop q).0 ≡ none → (aq.pop q).1 ≡ q
  pub push_capacity : (x : T) (q : aq.Queue) → aq.capacity (aq.push x q).1 ≡ aq.capacity q
  pub pop_capacity : (q : aq.Queue) → aq.capacity (aq.pop q).1 ≡ aq.capacity q
  pub len_lem : (q : aq.Queue) → aq.len q ≡ length (contents q)
  pub is_empty_lem : (q : aq.Queue) → aq.is_empty q ≡ (aq.len q == 0)
  pub is_full_lem : (q : aq.Queue) → aq.is_full q ≡ (aq.len q == aq.capacity q)
