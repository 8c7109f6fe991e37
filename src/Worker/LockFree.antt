-- ===== src/Worker/LockFree.antt =====
-- `LockFreeQueue` of src/worker/queue.rs. The queues that `Arc` shares lie in a store, and a
-- `LockFreeQueue` holds the address of one; a clone holds the same address. An `Arc` always points
-- into the store: a call through any other address changes nothing and finds an empty queue.
pub mod Laws
pub mod Order
use rust_kernel_engine.Base.{
  ℕ, List, [], ◌∷◌, ◌++◌, Bool, true, false, Option, none, some, Outcome, ok, panic, ◌>>=◌, length,
  get_elem?, set,
}
use rust_kernel_engine.Worker.ArrayQueue.{ArrayQueue}

pub record LockFreeQueue : Type 0 where
  pub queue : ℕ

unfoldable pub clone : LockFreeQueue → LockFreeQueue
clone q = record { queue = q.queue }

module _ {T : Type 0} (aq : ArrayQueue T) where
  abbrev pub Store : Type 0
  Store = List aq.Queue

  unfoldable pub new : ℕ → Store → Outcome (LockFreeQueue × Store)
  new capacity store = do
    queue ← aq.new capacity
    ok (record { queue = length store }, store ++ queue ∷ [])

  -- `none` is `Ok(())`; `some item` gives the item back.
  unfoldable pub push : LockFreeQueue → T → Store → Option T × Store
  push q item store = elim (get_elem? store q.queue) [
    | none ↦ (some item, store)
    | some queue ↦ let (back, queue') = aq.push item queue in (back, set store q.queue queue')
  ]

  unfoldable pub pop : LockFreeQueue → Store → Option T × Store
  pop q store = elim (get_elem? store q.queue) [
    | none ↦ (none, store)
    | some queue ↦ let (item, queue') = aq.pop queue in (item, set store q.queue queue')
  ]

  -- A query of the queue that a handle points to.
  query {ℓ} : {A : Type ℓ} → (aq.Queue → A) → A → LockFreeQueue → Store → A
  query f dangling q store = elim (get_elem? store q.queue) [
    | none ↦ dangling
    | some queue ↦ f queue
  ]

  unfoldable pub is_empty : LockFreeQueue → Store → Bool
  unfolding query
  is_empty = query aq.is_empty true

  unfoldable pub is_full : LockFreeQueue → Store → Bool
  unfolding query
  is_full = query aq.is_full true

  unfoldable pub len : LockFreeQueue → Store → ℕ
  unfolding query
  len = query aq.len 0

  unfoldable pub capacity : LockFreeQueue → Store → ℕ
  unfolding query
  capacity = query aq.capacity 0
