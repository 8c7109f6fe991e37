-- ===== src/Worker/Queue/Interleaving/Emptiness.antt =====
-- What a `pop` of src/worker/queue.rs that finds nothing says about the queues, when others run too.
use rust_kernel_engine.Base.{
  ℕ, ◌≡◌, refl, sym, ap, ◌∙◌, subst, ◌⊎◌, inl, inr, List, [], ◌∷◌, ◌++◌, true, false, none, some,
  ◌==◌, ==_iff, All, All-append, append_assoc, append-nil, Bool-cases,
}
use rust_kernel_engine.Worker.ArrayQueue.{ArrayQueue, IsFifo}
use rust_kernel_engine.Worker.LockFree
use rust_kernel_engine.Worker.LockFree.{LockFreeQueue, Store}
use rust_kernel_engine.Worker.LockFree.Laws.{items_at, head?, took, missed, pop-Takes}
use rust_kernel_engine.Worker.Queue.{Task, WorkStealingQueue}
use rust_kernel_engine.Worker.Queue.Interleaving.{
  Pc, idle, trying, returned, update, tries, System, Step, starts, finds, misses, gives_up, leaves,
  accepts, refuses, Reach, here, later,
}
use rust_kernel_engine.Worker.Queue.Interleaving.Progress.{begins}

All-map {ℓ κ μ} :
    {A : Type ℓ} {P : A → Type κ} {Q : A → Type μ} (xs : List A)
    → ((x : A) → P x → Q x)
    → All P xs
    → All Q xs
All-map [] f h = tt
All-map (x ∷ xs) f h = (f x h.0, All-map xs f h.1)

module _ (aq : ArrayQueue Task) (fifo : IsFifo aq) (workers : ℕ → WorkStealingQueue) where
  -- At some moment of the run, after the last `pop` that worker `i` began, a predicate held.
  abbrev pub Since : ℕ → (System aq → Type 0) → {s t : System aq} → Reach aq workers s t → Type 0
  Since i P {s} here = P s
  Since i P (later {t} {u} r step) = P u ⊎ ((begins aq workers i step ≡ 0) × Since i P r)

  abbrev pub IsEmptyAt : LockFreeQueue → System aq → Type 0
  IsEmptyAt q s = items_at aq fifo s.store q ≡ []

  -- A queue that worker `i` has seen empty in its present `pop`.
  abbrev Saw : ℕ → {s t : System aq} → Reach aq workers s t → LockFreeQueue → Type 0
  Saw i r q = Since i (IsEmptyAt q) r

  -- The queues that a worker has passed were empty.
  abbrev Passed : ℕ → {s t : System aq} → Reach aq workers s t → Pc → Type 0
  Passed i r idle = Unit
  Passed i r (trying qs) =
      (before : List LockFreeQueue) × (tries (workers i) ≡ before ++ qs) × All (Saw i r) before
  Passed i r (returned none) = All (Saw i r) (tries (workers i))
  Passed i r (returned (some task)) = Unit

  -- A step that begins no `pop` of the worker forgets nothing.
  Passed-keep :
      (i : ℕ) {s t u : System aq} (r : Reach aq workers s t) (step : Step aq workers t u) (pc : Pc)
      → begins aq workers i step ≡ 0
      → Passed i r pc
      → Passed i (later r step) pc
  Passed-keep i r step idle e h = tt
  Passed-keep i r step (trying qs) e (before, split, h) =
      (before, split, All-map before (λ q saw. inr (e, saw)) h)
  Passed-keep i r step (returned none) e h = All-map (tries (workers i)) (λ q saw. inr (e, saw)) h
  Passed-keep i r step (returned (some task)) e h = tt

  -- Worker `j` goes on to `p`: for another worker `i` nothing changes.
  Passed-update :
      (i j : ℕ) (p : Pc) {s t u : System aq} (r : Reach aq workers s t) (step : Step aq workers t u)
      → ((j == i) ≡ false → begins aq workers i step ≡ 0)
      → Passed i r (t.pc i)
      → ((j == i) ≡ true → Passed i (later r step) p)
      → Passed i (later r step) (update t.pc j p i)
  Passed-update i j p {s} {t} r step quiet h own = elim (Bool-cases (j == i)) [
    | inl same ↦ rw same (own same)
    | inr other ↦ rw other (Passed-keep i r step (t.pc i) (quiet other) h)
  ]

  head?-none : (xs : List Task) → head? aq fifo xs ≡ none → xs ≡ []
  head?-none [] e = refl
  head?-none (x ∷ xs) e = cc

  -- A queue in which `pop` found nothing is empty, and stays as it was.
  items_at-pop_none :
      (q : LockFreeQueue) (store : Store aq)
      → (LockFree.pop aq q store).0 ≡ none
      → items_at aq fifo (LockFree.pop aq q store).1 q ≡ []
  items_at-pop_none q store e =
      let (takes, oldest) = pop-Takes aq fifo q store in
      elim takes [
        | took x found p ↦ absurd (cc)
        | missed _ same ↦ ap (λ st. items_at aq fifo st q) same ∙ head?-none _ (sym oldest ∙ e)
      ]

  Passed-own :
      (i j : ℕ) (p : Pc) {s t : System aq} (r : Reach aq workers s t)
      → (j == i) ≡ true
      → t.pc j ≡ p
      → Passed i r (t.pc i)
      → Passed i r p
  Passed-own i j p {s} {t} r same e h =
      subst (Passed i r) (subst (λ k. t.pc k ≡ p) ((==_iff j i).0 same) e) h

  Passed-misses :
      (i : ℕ) (q : LockFreeQueue) (qs : List LockFreeQueue) {s t u : System aq}
      (r : Reach aq workers s t) (step : Step aq workers t u)
      → begins aq workers i step ≡ 0
      → IsEmptyAt q u
      → Passed i r (trying (q ∷ qs))
      → Passed i (later r step) (trying qs)
  Passed-misses i q qs r step quiet empty (before, split, h) = (
    before ++ q ∷ [],
    split ∙ sym (append_assoc before (q ∷ []) qs),
    All-append _ before (q ∷ []) (All-map before (λ q' saw. inr (quiet, saw)) h) (inl empty, tt),
  )

  Passed-gives_up :
      (i : ℕ) {s t u : System aq} (r : Reach aq workers s t) (step : Step aq workers t u)
      → begins aq workers i step ≡ 0
      → Passed i r (trying [])
      → Passed i (later r step) (returned none)
  Passed-gives_up i r step quiet (before, split, h) =
      subst (All (Saw i (later r step))) (sym (split ∙ append-nil before))
        (All-map before (λ q saw. inr (quiet, saw)) h)

  Step-Passed :
      (i : ℕ) {s t u : System aq} (r : Reach aq workers s t) (step : Step aq workers t u)
      → Passed i r (t.pc i)
      → Passed i (later r step) (u.pc i)
  Step-Passed i r (starts j e) h =
      Passed-update i j (trying (tries (workers j))) r (starts j e) (λ other. rw other refl) h
        λ same. ([], ap (λ k. tries (workers k)) (sym ((==_iff j i).0 same)), tt)
  Step-Passed i r (finds j q qs task e found) h =
      Passed-update i j (returned (some task)) r (finds j q qs task e found) (λ other. refl) h
        λ same. tt
  Step-Passed i {s} {t} r (misses j q qs e empty) h =
      Passed-update i j (trying qs) r (misses j q qs e empty) (λ other. refl) h
        λ same.
          Passed-misses i q qs r (misses j q qs e empty) refl (items_at-pop_none q t.store empty)
            (Passed-own i j (trying (q ∷ qs)) r same e h)
  Step-Passed i r (gives_up j e) h =
      Passed-update i j (returned none) r (gives_up j e) (λ other. refl) h
        λ same. Passed-gives_up i r (gives_up j e) refl (Passed-own i j (trying []) r same e h)
  Step-Passed i r (leaves j found e) h =
      Passed-update i j idle r (leaves j found e) (λ other. refl) h λ same. tt
  Step-Passed i {s} {t} r (accepts j task done) h =
      Passed-keep i r (accepts j task done) (t.pc i) refl h
  Step-Passed i {s} {t} r (refuses j task back e) h =
      Passed-keep i r (refuses j task back e) (t.pc i) refl h

  Reach-Passed :
      (i : ℕ) {s t : System aq} (r : Reach aq workers s t) → s.pc i ≡ idle → Passed i r (t.pc i)
  Reach-Passed i here e = rw e tt
  Reach-Passed i (later r step) e = Step-Passed i r step (Reach-Passed i r e)

  -- A `pop` that comes back with nothing, however the calls of the others interleave with its own,
  -- has met each queue of its worker empty at some moment since it began.
  pub Reach-Since :
      (i : ℕ) {s t : System aq} (r : Reach aq workers s t)
      → s.pc i ≡ idle
      → t.pc i ≡ returned none
      → All (λ q. Since i (λ u. items_at aq fifo u.store q ≡ []) r) (tries (workers i))
  Reach-Since i r e back = subst (Passed i r) back (Reach-Passed i r e)
