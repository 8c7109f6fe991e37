-- ===== src/Worker/Queue/Topology.antt =====
-- The queues that `WorkStealingQueue::new` wires together.
use mathlib.Core.List.{Perm}
use mathlib.Core.List.Perm
use rust_kernel_engine.Base.{
  ℕ, zero, suc, ◌+◌, ◌-◌, ◌<◌, ◌≤◌, ◌≡◌, refl, ap, subst, ◌∙◌, inl, inr, List, [], ◌∷◌, ◌++◌, some,
  true, false, ◌==◌, arith, All, All-append, Bool-cases, ok, panic, length, length-append,
  get_elem?,
}
use rust_kernel_engine.Worker.ArrayQueue.{ArrayQueue, IsFifo}
use rust_kernel_engine.Worker.LockFree
use rust_kernel_engine.Worker.LockFree.{LockFreeQueue, Store, clone}
use rust_kernel_engine.Worker.Queue.{
  Task, WorkStealingQueue, share_others, build_workers, make_queues, new,
}

-- `base`, `base + 1`, … , `n` addresses.
abbrev pub addresses : ℕ → ℕ → List LockFreeQueue
addresses base zero = []
addresses base (suc n) = record { queue = base } ∷ addresses (suc base) n

length-addresses : (base n : ℕ) → length (addresses base n) ≡ n
length-addresses base zero = refl
length-addresses base (suc n) = ap suc (length-addresses (suc base) n)

-- A worker at index `i` of `n`: its own queue, and every other queue once.
pub record IsWired (n i : ℕ) (w : WorkStealingQueue) : Type 0 where
  pub own : w.local_queue ≡ record { queue = i }
  pub others : Perm (w.local_queue ∷ w.shared_queues) (addresses 0 n)

share_all : (i j base n : ℕ) → i < j → share_others i j (addresses base n) ≡ addresses base n
unfolding share_others clone
share_all i j base zero h = refl
share_all i j base (suc n) h = ground (arith, share_all i (suc j) (suc base) n)

share_others-perm :
    (i j base n : ℕ)
    → j ≤ i
    → i < j + n
    → Perm
        (record { queue = base + (i - j) } ∷ share_others i j (addresses base n))
        (addresses base n)
unfolding share_others clone
share_others-perm i j base zero h k = absurd (omega arith)
share_others-perm i j base (suc n) h k = elim (Bool-cases (i == j)) [
  | inl e ↦
      rw (e, share_others, share_all i (suc j) (suc base) n (ground arith), here e) (Perm.refl _)
  | inr ne ↦
      rw (ne, share_others, there ne)
        (Perm.trans (Perm.swap (record { queue = base }) _ _)
          (Perm.cons _ (share_others-perm i (suc j) (suc base) n (ground arith) (omega arith))))
]
  where
    here : (i == j) ≡ true → base + (i - j) ≡ base
    here e = ground arith

    there : (i == j) ≡ false → base + (i - j) ≡ suc base + (i - suc j)
    there e = ground arith

-- The workers from index `i` on.
abbrev pub AreWired : ℕ → ℕ → List WorkStealingQueue → Type 0
AreWired n i [] = Unit
AreWired n i (w ∷ ws) = IsWired n i w × AreWired n (suc i) ws

get-addresses :
    (base n i : ℕ) → i < n → get_elem? (addresses base n) i ≡ some (record { queue = base + i })
get-addresses base zero i h = elim h [ ]
get-addresses base (suc n) zero h = ground arith
get-addresses base (suc n) (suc i) h = get-addresses (suc base) n i (omega arith) ∙ ground arith

get-addresses_zero : (n i : ℕ) → i < n → get_elem? (addresses 0 n) i ≡ some (record { queue = i })
get-addresses_zero n i h =
    let e : 0 + i ≡ i = omega arith in
    get-addresses 0 n i h ∙ ap (λ k. some (record { queue = k })) e

share_others_zero :
    (n i : ℕ)
    → i < n
    → Perm (record { queue = i } ∷ share_others i 0 (addresses 0 n)) (addresses 0 n)
share_others_zero n i h =
    let e : 0 + (i - 0) ≡ i = omega arith in
    subst (λ k. Perm (record { queue = k } ∷ share_others i 0 (addresses 0 n)) (addresses 0 n)) e
      (share_others-perm i 0 0 n (omega arith) (omega arith))

build_workers-AreWired :
    (n rounds i : ℕ)
    → i + rounds ≤ n
    → (ws : List WorkStealingQueue) × (build_workers (addresses 0 n) rounds i ≡ ok ws)
      × (length ws ≡ rounds)
      × AreWired n i ws
unfolding build_workers clone
build_workers-AreWired n zero i h = ([], refl, refl, tt)
build_workers-AreWired n (suc rounds) i h =
    let (ws, built, count, wired) = build_workers-AreWired n rounds (suc i) (omega arith) in
    let w : WorkStealingQueue = record {
      local_queue = record { queue = i };
      shared_queues = share_others i 0 (addresses 0 n);
    } in
    (
      w ∷ ws,
      rw (get-addresses_zero n i (omega arith), build_workers, built) refl,
      ap suc count,
      (record { own = refl; others = share_others_zero n i (omega arith) }, wired),
    )

module _ (aq : ArrayQueue Task) (fifo : IsFifo aq) where
  open fifo use {contents}

  -- A store of empty queues of one capacity.
  abbrev pub AreEmpty : ℕ → Store aq → Type 0
  AreEmpty cap = All (λ q. (contents q ≡ []) × (aq.capacity q ≡ cap))

  make_queues-addresses :
      (n cap : ℕ) (store : Store aq)
      → (store' : Store aq) × (make_queues aq n (suc cap) store
          ≡ ok (addresses (length store) n, store'))
        × (length store' ≡ length store + n)
        × (AreEmpty (suc cap) store → AreEmpty (suc cap) store')
  unfolding make_queues LockFree.new
  make_queues-addresses zero cap store = (store, refl, omega arith, λ e. e)
  make_queues-addresses (suc n) cap store =
      let (q, made, empty, capacity) = fifo.new_empty cap in
      let (store', rest, count, keep) = make_queues-addresses n cap (store ++ q ∷ []) in
      let longer : length (store ++ q ∷ []) ≡ suc (length store) =
        omega (arith, length-append store (q ∷ [])) in
      (
        store',
        rw (made, rest, longer) refl,
        omega (arith, length-append store (q ∷ [])),
        λ e. keep (All-append _ store (q ∷ []) e ((empty, capacity), tt)),
      )

  -- With a positive capacity, `new` makes one queue for each of the workers, all of them empty and of
  -- the capacity that was asked for. The worker at index `i` owns the queue at address `i`, and its
  -- own queue with the shared ones are all the queues, each of them once.
  pub new-AreWired :
      (n cap : ℕ)
      → (ws : List WorkStealingQueue) × (store : Store aq) × (new aq n (suc cap) []
          ≡ ok (ws, store))
        × (length ws ≡ n)
        × (length store ≡ n)
        × AreWired n 0 ws
        × AreEmpty (suc cap) store
  unfolding new
  new-AreWired n cap =
      let (store, made, count, empty) = make_queues-addresses n cap [] in
      let (ws, built, many, wired) = build_workers-AreWired n n 0 (omega arith) in
      (ws, store, rw (made, built) refl, many, omega arith, wired, empty tt)

  -- With capacity 0 the first queue panics, unless no worker is asked for.
  pub new_zero_panics : (n : ℕ) → new aq (suc n) 0 [] ≡ panic
  unfolding new
  new_zero_panics n = rw fifo.new_zero refl
