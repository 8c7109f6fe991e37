-- ===== src/Worker/LockFree/Laws.antt =====
-- The store of queues under one call.
use mathlib.Core.List.{Perm, perm_middle}
use mathlib.Core.List.Perm
use mathlib.Core.Option.{some-injective}
use rust_kernel_engine.Base.{
  ℕ, zero, suc, ◌≡◌, refl, sym, ap, ◌∙◌, inl, inr, List, [], ◌∷◌, ◌++◌, Option, none, some,
  get_elem?, set, append_assoc, Option-cases,
}
use rust_kernel_engine.Worker.ArrayQueue.{
  ArrayQueue, IsFifo, Pops, nothing, front, Pushes, full, back,
}
use rust_kernel_engine.Worker.LockFree.{LockFreeQueue, Store, push, pop}

module _ {T : Type 0} (aq : ArrayQueue T) (fifo : IsFifo aq) where
  open fifo use {contents}

  -- The items of all queues, queue by queue.
  abbrev pub all_items : Store aq → List T
  all_items [] = []
  all_items (q ∷ qs) = contents q ++ all_items qs

  -- A call that takes an item out of one queue takes it out of the store.
  all_items-take :
      (store : Store aq) (i : ℕ) (q q' : aq.Queue) (x : T)
      → get_elem? store i ≡ some q
      → contents q ≡ x ∷ contents q'
      → Perm (all_items store) (x ∷ all_items (set store i q'))
  all_items-take [] i q q' x e h = absurd (cc)
  all_items-take (p ∷ store) zero q q' x e h =
      let whole : contents p ≡ x ∷ contents q' = ap contents (some-injective _ _ e) ∙ h in
      rw whole (Perm.refl _)
  all_items-take (p ∷ store) (suc i) q q' x e h =
      Perm.trans (Perm.append_left _ (all_items-take store i q q' x e h))
        (perm_middle (contents p) _)

  all_items-put :
      (store : Store aq) (i : ℕ) (q q' : aq.Queue) (x : T)
      → get_elem? store i ≡ some q
      → contents q' ≡ contents q ++ x ∷ []
      → Perm (all_items (set store i q')) (x ∷ all_items store)
  all_items-put [] i q q' x e h = absurd (cc)
  all_items-put (p ∷ store) zero q q' x e h =
      let same : contents p ≡ contents q = ap contents (some-injective _ _ e) in
      rw (h, same, append_assoc) (perm_middle (contents q) (all_items store))
  all_items-put (p ∷ store) (suc i) q q' x e h =
      Perm.trans (Perm.append_left _ (all_items-put store i q q' x e h))
        (perm_middle (contents p) _)

  all_items-keep :
      (store : Store aq) (i : ℕ) (q q' : aq.Queue)
      → get_elem? store i ≡ some q
      → contents q' ≡ contents q
      → all_items (set store i q') ≡ all_items store
  all_items-keep [] i q q' e h = absurd (cc)
  all_items-keep (p ∷ store) zero q q' e h =
      ap (λ c. c ++ all_items store) (h ∙ sym (ap contents (some-injective _ _ e)))
  all_items-keep (p ∷ store) (suc i) q q' e h =
      ap (λ r. contents p ++ r) (all_items-keep store i q q' e h)

  set-get_elem? :
      (store : Store aq) (i : ℕ) (q : aq.Queue) → get_elem? store i ≡ some q → set store i q ≡ store
  set-get_elem? [] i q e = refl
  set-get_elem? (p ∷ store) zero q e = ap (λ r. r ∷ store) (sym (some-injective _ _ e))
  set-get_elem? (p ∷ store) (suc i) q e = ap (λ r. p ∷ r) (set-get_elem? store i q e)

  -- The items in the queue that a handle points to, oldest first.
  abbrev pub items_at : Store aq → LockFreeQueue → List T
  items_at store q = elim (get_elem? store q.queue) [ none ↦ [] | some queue ↦ contents queue ]

  abbrev pub head? : List T → Option T
  head? [] = none
  head? (x ∷ xs) = some x

  -- What a `pop` may do to the store: take one item out of it, or find nothing and change nothing.
  pub data Takes (store : Store aq) (o : Option T) (store' : Store aq) : Type 0 where
    took :
        (x : T) → o ≡ some x → Perm (all_items store) (x ∷ all_items store') → Takes store o store'
    missed : o ≡ none → store' ≡ store → Takes store o store'

  pop_in-Takes :
      (store : Store aq) (i : ℕ) (q : aq.Queue)
      → get_elem? store i ≡ some q
      → Pops (contents q) (aq.pop q).0 (contents (aq.pop q).1)
      → Takes store (aq.pop q).0 (set store i (aq.pop q).1) × ((aq.pop q).0 ≡ head? (contents q))
  pop_in-Takes store i q e (nothing empty none_found _) = (
    missed none_found (rw (fifo.pop_nothing q none_found) (set-get_elem? store i q e)),
    none_found ∙ sym (ap head? empty),
  )
  pop_in-Takes store i q e (front x whole found) =
      (took x found (all_items-take store i q _ x e whole), found ∙ sym (ap head? whole))

  -- A `pop` hands out the oldest item of its queue.
  pub pop-Takes :
      (q : LockFreeQueue) (store : Store aq)
      → Takes store (pop aq q store).0 (pop aq q store).1
        × ((pop aq q store).0 ≡ head? (items_at store q))
  unfolding pop
  pop-Takes q store = elim (Option-cases (get_elem? store q.queue)) [
    | inl e ↦ rw (e, pop, items_at) (missed refl refl, refl)
    | inr (queue, e) ↦
        rw (e, pop, items_at) (pop_in-Takes store q.queue queue e (fifo.pop_lem queue))
  ]

  -- What a `push` may do: put the item into the store, or give it back.
  pub data Puts (x : T) (store : Store aq) (o : Option T) (store' : Store aq) : Type 0 where
    accepted : o ≡ none → Perm (all_items store') (x ∷ all_items store) → Puts x store o store'
    refused : o ≡ some x → all_items store' ≡ all_items store → Puts x store o store'

  push_in-Puts :
      (x : T) (store : Store aq) (i : ℕ) (q : aq.Queue)
      → get_elem? store i ≡ some q
      → Pushes (aq.capacity q) x (contents q) (aq.push x q).0 (contents (aq.push x q).1)
      → Puts x store (aq.push x q).0 (set store i (aq.push x q).1)
  push_in-Puts x store i q e (full _ back_again same) =
      refused back_again (all_items-keep store i q _ e same)
  push_in-Puts x store i q e (back _ done longer) =
      accepted done (all_items-put store i q _ x e longer)

  pub push-Puts :
      (q : LockFreeQueue) (x : T) (store : Store aq)
      → Puts x store (push aq q x store).0 (push aq q x store).1
  unfolding push
  push-Puts q x store = elim (Option-cases (get_elem? store q.queue)) [
    | inl e ↦ rw (e, push) (refused refl refl)
    | inr (queue, e) ↦ rw (e, push) (push_in-Puts x store q.queue queue e (fifo.push_lem x queue))
  ]
