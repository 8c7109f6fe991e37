-- ===== src/Worker/LockFree/Order.antt =====
-- The order of the items in each queue of a store, `LockFreeQueue` of src/worker/queue.rs.
use rust_kernel_engine.Base.{
  ℕ, ◌≡◌, refl, sym, ◌∙◌, inl, inr, List, [], ◌∷◌, ◌++◌, true, Option, none, some, ◌==◌, ==_iff,
  if◌then◌else◌, get_elem?, set, get_elem?-set, append-nil, Option-cases, Bool-cases, subst,
}
use rust_kernel_engine.Worker.ArrayQueue.{
  ArrayQueue, IsFifo, Pops, nothing, front, Pushes, full, back,
}
use rust_kernel_engine.Worker.LockFree.{LockFreeQueue, Store, push, pop}
use rust_kernel_engine.Worker.LockFree.Laws.{items_at}

-- What a call on the queue `q` means for the queue `h`.
abbrev pub seen_at {ℓ} : {A : Type ℓ} → LockFreeQueue → LockFreeQueue → List A → List A
seen_at q h items = if q.queue == h.queue then items else []

abbrev pub popped {ℓ} : {A : Type ℓ} → Option A → List A
popped none = []
popped (some x) = x ∷ []

-- An item that `push` did not give back.
abbrev pub pushed {ℓ} : {A : Type ℓ} → A → Option A → List A
pushed x none = x ∷ []
pushed x (some y) = []

module _ {T : Type 0} (aq : ArrayQueue T) (fifo : IsFifo aq) where
  open fifo use {contents}

  Pops-popped : {xs ys : List T} {o : Option T} → Pops xs o ys → xs ≡ popped o ++ ys
  Pops-popped (nothing empty none_found same) = rw (none_found) (empty ∙ sym same)
  Pops-popped (front x whole found) = rw found whole

  Pushes-pushed :
      {cap : ℕ} {x : T} {xs ys : List T} {o : Option T}
      → Pushes cap x xs o ys
      → ys ≡ xs ++ pushed x o
  Pushes-pushed (full _ given_back same) = rw given_back (same ∙ sym (append-nil _))
  Pushes-pushed (back _ done longer) = rw done longer

  -- A queue of the store is replaced.
  items_at-set :
      (store : Store aq) (q h : LockFreeQueue) (queue queue' : aq.Queue)
      → get_elem? store q.queue ≡ some queue
      → items_at aq fifo (set store q.queue queue') h
        ≡ (if q.queue == h.queue then contents queue' else items_at aq fifo store h)
  items_at-set store q h queue queue' e =
      rw (get_elem?-set store q.queue queue' e h.queue, items_at)
        (elim (Bool-cases (q.queue == h.queue)) [
          | inl same ↦ rw same refl
          | inr other ↦ rw other refl
        ])

  items_at_same :
      (store : Store aq) (q h : LockFreeQueue) (queue : aq.Queue)
      → get_elem? store q.queue ≡ some queue
      → (q.queue == h.queue) ≡ true
      → items_at aq fifo store h ≡ contents queue
  items_at_same store q h queue e same =
      let e' = subst (λ k. get_elem? store k ≡ some queue) ((==_iff q.queue h.queue).0 same) e in
      rw (e', items_at) refl

  -- The items of a queue are what a `pop` took from it, in front of those that are left.
  pub items_at-pop :
      (q h : LockFreeQueue) (store : Store aq)
      → items_at aq fifo store h
        ≡ seen_at q h (popped (pop aq q store).0) ++ items_at aq fifo (pop aq q store).1 h
  unfolding pop
  items_at-pop q h store = elim (Option-cases (get_elem? store q.queue)) [
    | inl e ↦
        rw (e, pop)
          (elim (Bool-cases (q.queue == h.queue)) [
            | inl same ↦ rw same refl
            | inr other ↦ rw other refl
          ])
    | inr (queue, e) ↦
        rw (e, pop, items_at-set store q h queue (aq.pop queue).1 e)
          (elim (Bool-cases (q.queue == h.queue)) [
            | inl same ↦
                rw same (items_at_same store q h queue e same ∙ Pops-popped (fifo.pop_lem queue))
            | inr other ↦ rw other refl
          ])
  ]

  -- A `push` adds what it accepts behind the items of its queue.
  pub items_at-push :
      (q h : LockFreeQueue) (x : T) (store : Store aq)
      → items_at aq fifo (push aq q x store).1 h
        ≡ items_at aq fifo store h ++ seen_at q h (pushed x (push aq q x store).0)
  unfolding push
  items_at-push q h x store = elim (Option-cases (get_elem? store q.queue)) [
    | inl e ↦
        rw (e, push)
          (elim (Bool-cases (q.queue == h.queue)) [
            | inl same ↦ rw same (sym (append-nil _))
            | inr other ↦ rw other (sym (append-nil _))
          ])
    | inr (queue, e) ↦
        rw (e, push, items_at-set store q h queue (aq.push x queue).1 e)
          (elim (Bool-cases (q.queue == h.queue)) [
            | inl same ↦
                rw (same, items_at_same store q h queue e same)
                  (Pushes-pushed (fifo.push_lem x queue))
            | inr other ↦ rw other (sym (append-nil _))
          ])
  ]
